-- ===== src/Parcels/Loops.antt =====
-- The loops of RectToParcels end for all 64-bit arguments.

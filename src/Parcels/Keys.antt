-- ===== src/Parcels/Keys.antt =====
-- The ids of RectToParcels (utils/misc.go) are keys of the shape that the keyspace has for parcels.
use Prim.Native.String.{String}
use content_service.Prelude.{
  ℕ, zero, suc, ◌≡◌, true, List, ◌∷◌, Option, none, some, All-append, Bool-cases, inl, inr,
}
use mathlib.Core.Option
use content_service.Prelude.Int.{ℤ, pos, ◌+ℤ◌, ltb_ℤ, wrap64}
use content_service.Prelude.Decimal.{show_ℤ}
use content_service.Prelude.Decimal.First.{Begins, Begins-append, show_ℤ-Begins}
use content_service.Prelude.Text.{◌+++◌, has_comma-append}
use content_service.Go.{ok}
use content_service.Parcels.{
  parcel_id, column, columns, append_column, fuel_for, fill, filled, rect_to_parcels,
}
use content_service.Redis.Keys.{is_parcel_key, starts_number}
use content_service.Redis.Ownership.{AllParcels}

starts_number_of_Begins : (s : String) → Begins s → starts_number s ≡ true
unfolding starts_number
starts_number_of_Begins String.[] h = absurd h
starts_number_of_Begins (String.◌∷◌ c s) h = h

parcel_id-is_parcel_key : (x y : ℤ) → is_parcel_key (parcel_id x y) ≡ true
unfolding is_parcel_key parcel_id
parcel_id-is_parcel_key x y =
    let begins =
      starts_number_of_Begins (show_ℤ x +++ "," +++ show_ℤ y)
        (Begins-append (show_ℤ x) ("," +++ show_ℤ y) (show_ℤ-Begins x)) in
    rw begins (has_comma-append (show_ℤ x) (show_ℤ y))

AreParcels : Option (List String) → Type 0
AreParcels none = Unit {0}
AreParcels (some ps) = AllParcels ps

column-AreParcels : (fuel : ℕ) (x y stop : ℤ) → AreParcels (column fuel x y stop)
unfolding column AreParcels
column-AreParcels zero x y stop = tt
column-AreParcels (suc fuel) x y stop = elim (Bool-cases (ltb_ℤ y stop)) [
  | inl below ↦ rw below (
      go (column fuel x (wrap64 (y +ℤ pos 1)) stop)
        (column-AreParcels fuel x (wrap64 (y +ℤ pos 1)) stop))
  | inr done ↦ rw done tt
]
  where
    go :
        (o : Option (List String))
        → AreParcels o
        → AreParcels (Option.map (λ ps. parcel_id x y ∷ ps) o)
    go none h = tt
    go (some ps) h = (parcel_id-is_parcel_key x y, h)

columns-AreParcels :
    (fuel : ℕ) (x stop_x y1 stop_y : ℤ) → AreParcels (columns fuel x stop_x y1 stop_y)
unfolding columns AreParcels
columns-AreParcels zero x stop_x y1 stop_y = tt
columns-AreParcels (suc fuel) x stop_x y1 stop_y = elim (Bool-cases (ltb_ℤ x stop_x)) [
  | inl below ↦ rw below (
      go (column (fuel_for y1 stop_y) x y1 stop_y)
        (columns fuel (wrap64 (x +ℤ pos 1)) stop_x y1 stop_y)
        (column-AreParcels (fuel_for y1 stop_y) x y1 stop_y)
        (columns-AreParcels fuel (wrap64 (x +ℤ pos 1)) stop_x y1 stop_y))
  | inr done ↦ rw done tt
]
  where
    go :
        (o rest : Option (List String))
        → AreParcels o
        → AreParcels rest
        → AreParcels (append_column o rest)
    go none rest h k = tt
    go (some ps) none h k = tt
    go (some ps) (some qs) h k = All-append (λ p. is_parcel_key p ≡ true) ps qs h k

filled-AreParcels :
    (o : Option (List String)) (ps : List String)
    → AreParcels o
    → filled o ≡ ok (some ps)
    → AllParcels ps
unfolding AreParcels
filled-AreParcels none ps h e = cc
filled-AreParcels (some qs) ps h e = let same : qs ≡ ps = cc in rw (← same) h

fill-AllParcels :
    (size x1 y1 x2 y2 max : ℤ) (ps : List String)
    → fill size x1 y1 x2 y2 max ≡ ok (some ps)
    → AllParcels ps
fill-AllParcels size x1 y1 x2 y2 max ps h = elim (Bool-cases (ltb_ℤ max size)) [
  | inl large ↦ let h' = rw large at h in cc
  | inr fits ↦ elim (Bool-cases (ltb_ℤ size (pos 0))) [
    | inl negative ↦ let h' = rw (fits, negative) at h in cc
    | inr sized ↦
        filled-AreParcels _ ps
          (columns-AreParcels (fuel_for x1 (wrap64 (x2 +ℤ pos 1))) x1 (wrap64 (x2 +ℤ pos 1)) y1
            (wrap64 (y2 +ℤ pos 1)))
          (rw (fits, sized) at h)
  ]
]

-- Each text that RectToParcels lists has the shape of a parcel id, whatever the corners.
pub rect_to_parcels-AllParcels :
    (x1 y1 x2 y2 max : ℤ) (ps : List String)
    → rect_to_parcels x1 y1 x2 y2 max ≡ ok (some ps)
    → AllParcels ps
unfolding rect_to_parcels
rect_to_parcels-AllParcels x1 y1 x2 y2 max ps h = fill-AllParcels _ _ _ _ _ max ps h

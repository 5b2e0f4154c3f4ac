-- ===== src/Parcels/Grid.antt =====
-- What a grid of parcel ids holds.
use content_service.Prelude.{
  ℕ, zero, suc, ◌*◌, ◌≤◌, ◌≡◌, refl, ap, ◌∙◌, String, true, false, List, Option, none, some, length,
  length-append, arith, Bool-cases, inl, inr, contains, contains-append, All, All-append, eq_refl,
  All-map_imp, sym, ltb, if◌then◌else◌,
}
use content_service.Go.{Result, ok}
use content_service.Prelude.Int.{ℤ, ltb_ℤ, pos, ◌+ℤ◌, ◌-ℤ◌, ◌≤ℤ◌, ◌<ℤ◌, int_laws}
use content_service.Parcels.{parcel_id, rect_to_parcels}
use content_service.Parcels.Rect.{
  column_from, grid, side, low, high, rect_width, IsMapCoordinate, rect_to_parcels-eq-grid,
}

-- The id of a parcel with lo ≤ coordinate < lo + n on both axes.
pub record IsIdWithin (x y : ℤ) (w h : ℕ) (p : String) : Type 0 where
  pub a : ℤ
  pub b : ℤ
  pub id : p ≡ parcel_id a b
  pub left : x ≤ℤ a
  pub right : a <ℤ x +ℤ pos w
  pub bottom : y ≤ℤ b
  pub top : b <ℤ y +ℤ pos h

length-column_from : (x y : ℤ) (n : ℕ) → length (column_from x y n) ≡ n
length-column_from x y zero = refl
length-column_from x y (suc n) = ap suc (length-column_from x (y +ℤ pos 1) n)

pub length-grid : (x y : ℤ) (w h : ℕ) → length (grid x y w h) ≡ w * h
length-grid x y zero h = omega arith
length-grid x y (suc w) h = omega (
  arith,
  length-append (column_from x y h) (grid (x +ℤ pos 1) y w h),
  length-column_from x y h,
  length-grid (x +ℤ pos 1) y w h,
)

column_from-within : (x y : ℤ) (w h : ℕ) → All (IsIdWithin x y (suc w) h) (column_from x y h)
column_from-within x y w zero = tt
column_from-within x y w (suc h) = (
  record {
    a = x;
    b = y;
    id = refl;
    left = omega int_laws;
    right = omega int_laws;
    bottom = omega int_laws;
    top = omega int_laws;
  },
  All-map_imp (column_from x (y +ℤ pos 1) h) wider (column_from-within x (y +ℤ pos 1) w h),
)
  where
    wider : (p : String) → IsIdWithin x (y +ℤ pos 1) (suc w) h p → IsIdWithin x y (suc w) (suc h) p
    wider p i = record {
      a = i.a;
      b = i.b;
      id = i.id;
      left = i.left;
      right = i.right;
      bottom = omega (int_laws, i.bottom);
      top = omega (int_laws, i.top);
    }

pub grid-within : (x y : ℤ) (w h : ℕ) → All (IsIdWithin x y w h) (grid x y w h)
grid-within x y zero h = tt
grid-within x y (suc w) h =
    All-append (IsIdWithin x y (suc w) h) (column_from x y h) (grid (x +ℤ pos 1) y w h)
      (column_from-within x y w h)
      (All-map_imp (grid (x +ℤ pos 1) y w h) wider (grid-within (x +ℤ pos 1) y w h))
  where
    wider : (p : String) → IsIdWithin (x +ℤ pos 1) y w h p → IsIdWithin x y (suc w) h p
    wider p i = record {
      a = i.a;
      b = i.b;
      id = i.id;
      left = omega (int_laws, i.left);
      right = omega (int_laws, i.right);
      bottom = i.bottom;
      top = i.top;
    }

ltb_ℤ→lt : (a b : ℤ) → ltb_ℤ a b ≡ true → a <ℤ b
ltb_ℤ→lt a b h = ground arith

not-ltb_ℤ→le : (a b : ℤ) → ltb_ℤ a b ≡ false → b ≤ℤ a
not-ltb_ℤ→le a b h = ground arith

below_side : (lo hi a : ℤ) → lo ≤ℤ a → a ≤ℤ hi → a <ℤ lo +ℤ pos (side lo hi)
unfolding ◌+ℤ◌ ◌-ℤ◌
below_side lo hi a h k = ground arith

chosen :
    (n max : ℕ) (g ps : List String)
    → ◌≡◌ {A = Result (Option (List String))}
        (ok (if ltb max n then none else some g))
        (ok (some ps))
    → (n ≤ max) × (g ≡ ps)
chosen n max g ps e = ground arith

column_from-covers :
    (x y b : ℤ) (n : ℕ)
    → y ≤ℤ b
    → b <ℤ y +ℤ pos n
    → contains (parcel_id x b) (column_from x y n) ≡ true
column_from-covers x y b zero h k = absurd (omega int_laws)
column_from-covers x y b (suc n) h k = elim (Bool-cases (ltb_ℤ y b)) [
  | inl below ↦
      let h' : y +ℤ pos 1 ≤ℤ b = omega (int_laws, ltb_ℤ→lt y b below) in
      rw (column_from-covers x (y +ℤ pos 1) b n h' (omega int_laws)) (ground arith)
  | inr here ↦
      let same : y ≡ b = omega (int_laws, not-ltb_ℤ→le y b here) in rw same (rw eq_refl refl)
]

pub grid-covers :
    (x y a b : ℤ) (w h : ℕ)
    → x ≤ℤ a
    → a <ℤ x +ℤ pos w
    → y ≤ℤ b
    → b <ℤ y +ℤ pos h
    → contains (parcel_id a b) (grid x y w h) ≡ true
grid-covers x y a b zero h l r bo to = absurd (omega int_laws)
grid-covers x y a b (suc w) h l r bo to = elim (Bool-cases (ltb_ℤ x a)) [
  | inl below ↦
      let l' : x +ℤ pos 1 ≤ℤ a = omega (int_laws, ltb_ℤ→lt x a below) in
      ground (
        arith,
        contains-append (parcel_id a b) (column_from x y h) (grid (x +ℤ pos 1) y w h),
        grid-covers (x +ℤ pos 1) y a b w h l' (omega int_laws) bo to,
      )
  | inr here ↦
      let same : a ≡ x = omega (int_laws, not-ltb_ℤ→le x a here) in
      rw same (
        ground (
          arith,
          contains-append (parcel_id x b) (column_from x y h) (grid (x +ℤ pos 1) y w h),
          column_from-covers x y b h bo to,
        ))
]

-- A non-nil result of RectToParcels, for coordinates of at most 2 ^ 30 in size, holds at most `max`
-- ids, as many as the rectangle has parcels; each is the id of a parcel of the rectangle, whichever
-- corners were given, and the id of every parcel of the rectangle is among them.
pub rect_to_parcels-lists :
    (x1 y1 x2 y2 : ℤ) (max : ℕ) (ps : List String)
    → IsMapCoordinate x1
    → IsMapCoordinate y1
    → IsMapCoordinate x2
    → IsMapCoordinate y2
    → rect_to_parcels x1 y1 x2 y2 (pos max) ≡ ok (some ps)
    → (length ps ≡ rect_width x1 x2 * rect_width y1 y2)
      × (length ps ≤ max)
      × All (IsIdWithin (low x1 x2) (low y1 y2) (rect_width x1 x2) (rect_width y1 y2)) ps
      × ((a b : ℤ)
          → low x1 x2 ≤ℤ a
          → a ≤ℤ high x1 x2
          → low y1 y2 ≤ℤ b
          → b ≤ℤ high y1 y2
          → contains (parcel_id a b) ps ≡ true)
rect_to_parcels-lists x1 y1 x2 y2 max ps i j k l h =
    let e = sym (rect_to_parcels-eq-grid x1 y1 x2 y2 max i j k l) ∙ h in
    let (small, same) = chosen (rect_width x1 x2 * rect_width y1 y2) max _ ps e in
    rw (← same) (
      length-grid (low x1 x2) (low y1 y2) (rect_width x1 x2) (rect_width y1 y2),
      rw length-grid small,
      grid-within (low x1 x2) (low y1 y2) (rect_width x1 x2) (rect_width y1 y2),
      λ a b l r bo to.
          grid-covers (low x1 x2) (low y1 y2) a b (rect_width x1 x2) (rect_width y1 y2) l
            (below_side (low x1 x2) (high x1 x2) a l r) bo
            (below_side (low y1 y2) (high y1 y2) b bo to),
    )

-- ===== src/Parcels/Rect.antt =====
-- RectToParcels lists exactly the parcels of the rectangle, or nil when there are too many.
use content_service.Prelude.{
  ℕ, zero, suc, ◌*◌, ◌≤◌, ◌<◌, ◌≡◌, refl, ◌∙◌, String, true, false, List, [], ◌∷◌, ◌++◌, none, some,
  ltb, if◌then◌else◌, arith,
}
use content_service.Prelude.Int.{
  ℤ, pos, negsuc, ◌+ℤ◌, ◌-ℤ◌, ◌*ℤ◌, ltb_ℤ, wrap64, wrap64_fits, pos_part, neg_part, IsInt64, ◌≤ℤ◌,
}
use content_service.Go.{ok}
use content_service.Parcels.{
  parcel_id, minmax, rect_size, column, columns, fuel_for, fill, rect_to_parcels,
}

-- The ids of `n` parcels upwards from (x, y).
abbrev pub column_from : ℤ → ℤ → ℕ → List String
column_from x y zero = []
column_from x y (suc n) = parcel_id x y ∷ column_from x (y +ℤ pos 1) n

-- The ids of `w` columns of `h` parcels each.
abbrev pub grid : ℤ → ℤ → ℕ → ℕ → List String
grid x y zero h = []
grid x y (suc w) h = column_from x y h ++ grid (x +ℤ pos 1) y w h

abbrev pub distance : ℤ → ℤ → ℕ
distance a b = pos_part (b -ℤ a)

distance-done : (a b : ℤ) → distance a b ≡ 0 → ltb_ℤ a b ≡ false
unfolding ◌-ℤ◌
distance-done a b e = ground arith

distance-more : (a b : ℤ) (n : ℕ) → distance a b ≡ suc n → ltb_ℤ a b ≡ true
unfolding ◌-ℤ◌
distance-more a b n e = ground arith

distance-next : (a b : ℤ) (n : ℕ) → distance a b ≡ suc n → distance (a +ℤ pos 1) b ≡ n
unfolding ◌-ℤ◌ ◌+ℤ◌
distance-next a b n e = ground arith

IsInt64-next :
    (a b : ℤ) (n : ℕ) → IsInt64 a → IsInt64 b → distance a b ≡ suc n → IsInt64 (a +ℤ pos 1)
unfolding ◌-ℤ◌ ◌+ℤ◌
IsInt64-next (pos a) (pos b) n i j e = ground arith
IsInt64-next (pos a) (negsuc b) n i j e = ground arith
IsInt64-next (negsuc a) b n i j e = ground arith

-- The inner loop runs to its end and lists the parcels below `stop`.
column-eq-column_from :
    (fuel n : ℕ) (x y stop : ℤ)
    → IsInt64 y
    → IsInt64 stop
    → distance y stop ≡ n
    → n < fuel
    → column fuel x y stop ≡ some (column_from x y n)
unfolding column
column-eq-column_from zero n x y stop i j e h = elim h [ ]
column-eq-column_from (suc fuel) zero x y stop i j e h = rw (distance-done y stop e)
column-eq-column_from (suc fuel) (suc n) x y stop i j e h =
    let next = y +ℤ pos 1 in
    let fits : IsInt64 next = IsInt64-next y stop n i j e in
    rw (distance-more y stop n e, wrap64_fits next fits)
      (rw (column-eq-column_from fuel n x next stop fits j (distance-next y stop n e) (omega arith))
        refl)

pub columns-eq-grid :
    (fuel w : ℕ) (x stop_x y stop_y : ℤ)
    → IsInt64 x
    → IsInt64 stop_x
    → IsInt64 y
    → IsInt64 stop_y
    → distance x stop_x ≡ w
    → w < fuel
    → columns fuel x stop_x y stop_y ≡ some (grid x y w (distance y stop_y))
unfolding columns
columns-eq-grid zero w x stop_x y stop_y i j k l e h = elim h [ ]
columns-eq-grid (suc fuel) zero x stop_x y stop_y i j k l e h = rw (distance-done x stop_x e)
columns-eq-grid (suc fuel) (suc w) x stop_x y stop_y i j k l e h =
    let next = x +ℤ pos 1 in
    let fits : IsInt64 next = IsInt64-next x stop_x w i j e in
    rw (distance-more x stop_x w e, wrap64_fits next fits)
      (rw
        (
          columns-eq-grid fuel w next stop_x y stop_y fits j k l (distance-next x stop_x w e)
              (omega arith),
          column-eq-column_from (fuel_for y stop_y) (distance y stop_y) x y stop_y k l refl
              (omega arith),
        )
        refl)

abbrev pub limit : ℕ
limit = 1073741824

-- Coordinates for which no product of two sides leaves 64 bits.
abbrev pub IsMapCoordinate : ℤ → Type 0
IsMapCoordinate a = (pos_part a ≤ limit) × (neg_part a ≤ limit)

-- The number of parcels on one side.
abbrev pub side : ℤ → ℤ → ℕ
side a b = suc (pos_part (b -ℤ a))

abbrev pub low : ℤ → ℤ → ℤ
low a b = if ltb_ℤ a b then a else b

abbrev pub high : ℤ → ℤ → ℤ
high a b = if ltb_ℤ a b then b else a

*ℤ_pos : (a b : ℕ) → pos a *ℤ pos b ≡ pos (a * b)
unfolding ◌*ℤ◌
*ℤ_pos a b = ground arith

product_bound : (a b m : ℕ) → a ≤ m → b ≤ m → a * b ≤ m * m
product_bound a b m h k = grind arith

side_bound : (a b : ℤ) → IsMapCoordinate a → IsMapCoordinate b → side a b ≤ 2147483649
unfolding ◌-ℤ◌
side_bound a b i j = ground arith

wrap64_product : (a b : ℕ) → a ≤ 2147483649 → b ≤ 2147483649 → wrap64 (pos a *ℤ pos b) ≡ pos (a * b)
wrap64_product a b h k =
    let bound : a * b ≤ 2147483649 * 2147483649 = product_bound a b 2147483649 h k in
    rw *ℤ_pos (wrap64_fits (pos (a * b)) (omega arith))

side_exact :
    (a b : ℤ)
    → IsMapCoordinate a
    → IsMapCoordinate b
    → a ≤ℤ b
    → wrap64 (wrap64 (b -ℤ a) +ℤ pos 1) ≡ pos (side a b)
unfolding ◌-ℤ◌ ◌+ℤ◌ wrap64
side_exact (pos a) (pos b) i j h = ground arith
side_exact (pos a) (negsuc b) i j h = ground arith
side_exact (negsuc a) (pos b) i j h = ground arith
side_exact (negsuc a) (negsuc b) i j h = ground arith

rect_size_exact :
    (x1 y1 x2 y2 : ℤ)
    → IsMapCoordinate x1
    → IsMapCoordinate y1
    → IsMapCoordinate x2
    → IsMapCoordinate y2
    → x1 ≤ℤ x2
    → y1 ≤ℤ y2
    → rect_size x1 y1 x2 y2 ≡ pos (side x1 x2 * side y1 y2)
unfolding rect_size
rect_size_exact x1 y1 x2 y2 i j k l h g =
    rw (side_exact x1 x2 i k h, side_exact y1 y2 j l g)
      (wrap64_product (side x1 x2) (side y1 y2) (side_bound x1 x2 i k) (side_bound y1 y2 j l))

minmax-eq-low-high : (a b : ℤ) → minmax a b ≡ (low a b, high a b)
unfolding minmax
minmax-eq-low-high a b = ground arith

low-le-high : (a b : ℤ) → low a b ≤ℤ high a b
low-le-high a b = ground arith

IsMapCoordinate-low : (a b : ℤ) → IsMapCoordinate a → IsMapCoordinate b → IsMapCoordinate (low a b)
IsMapCoordinate-low a b i j = ground arith

IsMapCoordinate-high :
    (a b : ℤ) → IsMapCoordinate a → IsMapCoordinate b → IsMapCoordinate (high a b)
IsMapCoordinate-high a b i j = ground arith

abbrev pub rect_width : ℤ → ℤ → ℕ
rect_width a b = side (low a b) (high a b)

stop_exact : (a : ℤ) → IsMapCoordinate a → wrap64 (a +ℤ pos 1) ≡ a +ℤ pos 1
unfolding ◌+ℤ◌
stop_exact a i = wrap64_fits (a +ℤ pos 1) (ground arith)

distance_stop : (a b : ℤ) → a ≤ℤ b → distance a (b +ℤ pos 1) ≡ side a b
unfolding ◌+ℤ◌ ◌-ℤ◌
distance_stop a b h = ground arith

IsInt64-stop : (a : ℤ) → IsMapCoordinate a → IsInt64 (a +ℤ pos 1)
unfolding ◌+ℤ◌
IsInt64-stop a i = ground arith

IsInt64-map : (a : ℤ) → IsMapCoordinate a → IsInt64 a
IsInt64-map a i = omega arith

-- The two loops over an ordered rectangle.
columns_exact :
    (x1 y1 x2 y2 : ℤ)
    → IsMapCoordinate x1
    → IsMapCoordinate y1
    → IsMapCoordinate x2
    → IsMapCoordinate y2
    → x1 ≤ℤ x2
    → y1 ≤ℤ y2
    → columns
        (fuel_for x1 (wrap64 (x2 +ℤ pos 1)))
        x1
        (wrap64 (x2 +ℤ pos 1))
        y1
        (wrap64 (y2 +ℤ pos 1))
      ≡ some (grid x1 y1 (side x1 x2) (side y1 y2))
columns_exact x1 y1 x2 y2 i j k l h g =
    rw (stop_exact x2 k, stop_exact y2 l)
      (columns-eq-grid (fuel_for x1 (x2 +ℤ pos 1)) (distance x1 (x2 +ℤ pos 1)) x1 (x2 +ℤ pos 1) y1
          (y2 +ℤ pos 1) (IsInt64-map x1 i) (IsInt64-stop x2 k) (IsInt64-map y1 j)
          (IsInt64-stop y2 l) refl (omega arith)
        ∙ rw (distance_stop x1 x2 h, distance_stop y1 y2 g) refl)

fill_exact :
    (n max : ℕ) (x1 y1 x2 y2 : ℤ) (ps : List String)
    → columns
        (fuel_for x1 (wrap64 (x2 +ℤ pos 1)))
        x1
        (wrap64 (x2 +ℤ pos 1))
        y1
        (wrap64 (y2 +ℤ pos 1))
      ≡ some ps
    → fill (pos n) x1 y1 x2 y2 (pos max) ≡ ok (if ltb max n then none else some ps)
fill_exact n max x1 y1 x2 y2 ps e = rw e (ground arith)

-- For coordinates of at most 2 ^ 30 in size RectToParcels returns nil exactly when the rectangle
-- has more than `max` parcels, and otherwise the grid of its parcels from the lower corner.
pub rect_to_parcels-eq-grid :
    (x1 y1 x2 y2 : ℤ) (max : ℕ)
    → IsMapCoordinate x1
    → IsMapCoordinate y1
    → IsMapCoordinate x2
    → IsMapCoordinate y2
    → rect_to_parcels x1 y1 x2 y2 (pos max)
      ≡ ok (
          if ltb max (rect_width x1 x2 * rect_width y1 y2)
          then none
          else some (grid (low x1 x2) (low y1 y2) (rect_width x1 x2) (rect_width y1 y2)))
unfolding rect_to_parcels
rect_to_parcels-eq-grid x1 y1 x2 y2 max i j k l =
    let a1 = low x1 x2 in
    let a2 = high x1 x2 in
    let b1 = low y1 y2 in
    let b2 = high y1 y2 in
    let i' = IsMapCoordinate-low x1 x2 i k in
    let j' = IsMapCoordinate-low y1 y2 j l in
    let k' = IsMapCoordinate-high x1 x2 i k in
    let l' = IsMapCoordinate-high y1 y2 j l in
    let h = low-le-high x1 x2 in
    let g = low-le-high y1 y2 in
    rw (minmax-eq-low-high x1 x2, minmax-eq-low-high y1 y2)
      (rw (rect_size_exact a1 b1 a2 b2 i' j' k' l' h g) (
        fill_exact (side a1 a2 * side b1 b2) max a1 b1 a2 b2 (grid a1 b1 (side a1 a2) (side b1 b2))
          (columns_exact a1 b1 a2 b2 i' j' k' l' h g)))

-- ===== src/Parcels.antt =====
-- Parcel ids and rectangles of parcels: RectToParcels of utils/misc.go and parseCoordinates of
-- internal/handlers/mappings_handler.go. Go's `int` has 64 bits and wraps around.
pub mod Rect
pub mod Grid
pub mod Coordinates
pub mod Loops
pub mod Keys
use mathlib.Core.Option
use content_service.Prelude.{
  ℕ, zero, suc, String, Bool, List, [], ◌∷◌, ◌++◌, Option, none, some, if◌then◌else◌,
}
use content_service.Prelude.Int.{ℤ, pos, ◌+ℤ◌, ◌-ℤ◌, ◌*ℤ◌, ltb_ℤ, wrap64, pos_part}
use content_service.Prelude.Decimal.{show_ℤ, atoi}
use content_service.Prelude.Text.{◌+++◌, split_comma}
use content_service.Go.{plain, Result, ok, err, panicked}

-- fmt.Sprintf("%d,%d", x, y)
unfoldable pub parcel_id : ℤ → ℤ → String
parcel_id x y = show_ℤ x +++ "," +++ show_ℤ y

unfoldable pub minmax : ℤ → ℤ → ℤ × ℤ
minmax x y = if ltb_ℤ x y then (x, y) else (y, x)

-- (x2 - x1 + 1) * (y2 - y1 + 1)
unfoldable pub rect_size : ℤ → ℤ → ℤ → ℤ → ℤ
rect_size x1 y1 x2 y2 =
    wrap64 (wrap64 (wrap64 (x2 -ℤ x1) +ℤ pos 1) *ℤ wrap64 (wrap64 (y2 -ℤ y1) +ℤ pos 1))

-- `for y := y; y < stop; y++`, on fuel; `none` means that the fuel ran out.
unfoldable pub column : ℕ → ℤ → ℤ → ℤ → Option (List String)
column zero x y stop = none
column (suc fuel) x y stop =
    let rest = column fuel x (wrap64 (y +ℤ pos 1)) stop in
    if ltb_ℤ y stop then Option.map (λ ps. parcel_id x y ∷ ps) rest else some []

abbrev append_column : Option (List String) → Option (List String) → Option (List String)
append_column none rest = none
append_column (some ps) none = none
append_column (some ps) (some qs) = some (ps ++ qs)

-- The rounds that a loop from `a` below `b` takes, and one more for its last test.
abbrev pub fuel_for : ℤ → ℤ → ℕ
fuel_for a b = suc (pos_part (b -ℤ a))

-- `for x := x; x < stop_x; x++ { for y := y1; y < stop_y; y++ { … } }`
unfoldable pub columns : ℕ → ℤ → ℤ → ℤ → ℤ → Option (List String)
columns zero x stop_x y1 stop_y = none
columns (suc fuel) x stop_x y1 stop_y =
    let rest = columns fuel (wrap64 (x +ℤ pos 1)) stop_x y1 stop_y in
    if ltb_ℤ x stop_x then append_column (column (fuel_for y1 stop_y) x y1 stop_y) rest else some []

abbrev pub filled : Option (List String) → Result (Option (List String))
filled none = panicked
filled (some ps) = ok (some ps)

-- `ok none` is nil: too many parcels. A negative capacity makes `make` panic; that it also panics on
-- one for which there is no memory is left out, so `max` stands for limits that it can serve.
abbrev pub fill : ℤ → ℤ → ℤ → ℤ → ℤ → ℤ → Result (Option (List String))
fill size x1 y1 x2 y2 max =
    if ltb_ℤ max size
    then ok none
    else if ltb_ℤ size (pos 0)
    then panicked
    else let stop_x = wrap64 (x2 +ℤ pos 1) in
      let stop_y = wrap64 (y2 +ℤ pos 1) in filled (columns (fuel_for x1 stop_x) x1 stop_x y1 stop_y)

unfoldable pub rect_to_parcels : ℤ → ℤ → ℤ → ℤ → ℤ → Result (Option (List String))
rect_to_parcels x1 y1 x2 y2 max =
    let (a1, a2) = minmax x1 x2 in
    let (b1, b2) = minmax y1 y2 in fill (rect_size a1 b1 a2 b2) a1 b1 a2 b2 max

abbrev coordinate : Option ℤ → Option ℤ → Result (ℤ × ℤ)
coordinate none y = err (plain "invalid coordinate")
coordinate (some x) none = err (plain "invalid coordinate")
coordinate (some x) (some y) = ok (x, y)

abbrev coordinates : List String → Result (ℤ × ℤ)
coordinates (a ∷ b ∷ []) = coordinate (atoi a) (atoi a)
coordinates _ = err (plain "invalid coordinate")

-- Both numbers are read from the first part.
unfoldable pub parse_coordinates : String → Result (ℤ × ℤ)
parse_coordinates coord = coordinates (split_comma coord)

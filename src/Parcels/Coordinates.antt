-- ===== src/Parcels/Coordinates.antt =====
-- parseCoordinates on the texts that the clients send, and the size test of RectToParcels on
-- rectangles whose sides are 2 ^ 32 long.
use content_service.Prelude.{ℕ, ◌+◌, ◌≤◌, ◌≡◌, ap, ◌∙◌, String, ◌∷◌, [], List, arith}
use content_service.Prelude.Int.{ℤ, pos, ◌+ℤ◌, ◌-ℤ◌, ◌*ℤ◌, wrap64, IsInt64}
use content_service.Prelude.Decimal.{show_ℤ, atoi-show_ℤ, show_ℤ-NoComma}
use content_service.Prelude.Text.{split_comma, split_comma-append, split_comma_of_NoComma}
use content_service.Go.{ok}
use content_service.Parcels.{parcel_id, parse_coordinates, rect_size}

-- A parcel id is split into its two numbers.
pub split_comma-parcel_id : (x y : ℤ) → split_comma (parcel_id x y) ≡ show_ℤ x ∷ show_ℤ y ∷ []
unfolding parcel_id
split_comma-parcel_id x y =
    split_comma-append (show_ℤ x) (show_ℤ y) (show_ℤ-NoComma x)
    ∙ ap (λ (ws : List String). show_ℤ x ∷ ws)
        (split_comma_of_NoComma (show_ℤ y) (show_ℤ-NoComma y))

-- parseCoordinates of "x,y" is (x, x), for every 64-bit x and every y: it reads the first number twice.
pub parse_coordinates-parcel_id :
    (x y : ℤ) → IsInt64 x → parse_coordinates (parcel_id x y) ≡ ok (x, x)
unfolding parse_coordinates
parse_coordinates-parcel_id x y h = rw (split_comma-parcel_id x y, atoi-show_ℤ x h)

side_wraps :
    (n : ℕ)
    → n ≤ 1073741824
    → wrap64 (wrap64 (pos (n + 4294967295) -ℤ pos n) +ℤ pos 1) ≡ pos 4294967296
unfolding wrap64 ◌-ℤ◌ ◌+ℤ◌
side_wraps n h = ground arith

-- A square of 2 ^ 32 by 2 ^ 32 parcels whose lower corner has coordinates from 0 to 2 ^ 30 has the
-- computed size 0: the product wraps around.
pub rect_size-overflow :
    (a b : ℕ)
    → a ≤ 1073741824
    → b ≤ 1073741824
    → rect_size (pos a) (pos b) (pos (a + 4294967295)) (pos (b + 4294967295)) ≡ pos 0
unfolding rect_size wrap64 ◌*ℤ◌
rect_size-overflow a b h k = rw (side_wraps a h, side_wraps b k)

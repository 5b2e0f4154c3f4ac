-- ===== src/Auth/Ids.antt =====
-- Parcel ids: UserCanModifyParcels reads what RectToParcels writes, and accepts only texts of the
-- shape of an id.
use Prim.Native.String.{String}
use content_service.Prelude.{
  ◌≡◌, refl, true, List, [], ◌∷◌, some, Bool-cases, Option-cases, inl, inr,
}
use content_service.Prelude.Int.{ℤ, IsInt64}
use content_service.Prelude.Decimal.{atoi, atoi-show_ℤ, atoi_first}
use content_service.Prelude.Text.{
  split_comma, has_comma, NoComma-of_has_comma, split_comma_of_NoComma, split_comma-first,
}
use content_service.Go.{ok}
use content_service.Parcels.{parcel_id}
use content_service.Parcels.Coordinates.{split_comma-parcel_id}
use content_service.Redis.Keys.{is_parcel_key, starts_number}
use content_service.Auth.{parse_parcel, two_parts}

-- The id of a parcel with coordinates of 64 bits is parsed to these coordinates.
pub parse_parcel-parcel_id :
    (x y : ℤ) → IsInt64 x → IsInt64 y → parse_parcel (parcel_id x y) ≡ ok (x, y)
unfolding parse_parcel
parse_parcel-parcel_id x y h k = rw (split_comma-parcel_id x y, atoi-show_ℤ x h, atoi-show_ℤ y k)

parse_parcel-has_comma : (p : String) (c : ℤ × ℤ) → parse_parcel p ≡ ok c → has_comma p ≡ true
unfolding parse_parcel
parse_parcel-has_comma p c h = elim (Bool-cases (has_comma p)) [
  | inl comma ↦ comma
  | inr plain ↦ let e = rw (split_comma_of_NoComma p (NoComma-of_has_comma p plain)) at h in cc
]

two_parts-atoi :
    (p : String) (ws : List String) (c : ℤ × ℤ)
    → two_parts p ws ≡ ok c
    → (a : String) × (vs : List String) × (n : ℤ) × (ws ≡ a ∷ vs) × (atoi a ≡ some n)
two_parts-atoi p [] c h = cc
two_parts-atoi p (a ∷ []) c h = cc
two_parts-atoi p (a ∷ b ∷ []) c h = elim (Option-cases (atoi a)) [
  | inl missing ↦ let h' = rw missing at h in cc
  | inr (n, found) ↦ (a, b ∷ [], n, refl, found)
]
two_parts-atoi p (a ∷ b ∷ d ∷ ws) c h = cc

atoi_empty : (n : ℤ) → atoi "" ≡ some n → ⊥
unfolding atoi
atoi_empty n h = cc

-- A text whose first part is a number begins as a number does.
split_comma-starts_number :
    (p a : String) (ws : List String) (n : ℤ)
    → split_comma p ≡ a ∷ ws
    → atoi a ≡ some n
    → starts_number p ≡ true
unfolding starts_number
split_comma-starts_number String.[] a ws n e h =
    let first : a ≡ "" = unfold split_comma in cc in absurd (atoi_empty n (rw first at h))
split_comma-starts_number (String.◌∷◌ c s) a ws n e h = elim (split_comma-first c s a ws e) [
  | inl empty ↦ absurd (atoi_empty n (rw empty at h))
  | inr (w, first) ↦ atoi_first c w n (rw first at h)
]

-- Every text that UserCanModifyParcels parses has the shape of a parcel id.
pub parse_parcel-is_parcel_key :
    (p : String) (c : ℤ × ℤ) → parse_parcel p ≡ ok c → is_parcel_key p ≡ true
unfolding is_parcel_key
parse_parcel-is_parcel_key p c h =
    let (a, ws, n, e, found) = two_parts-atoi p (split_comma p) c (unfold parse_parcel in h) in
    rw (split_comma-starts_number p a ws n e found, parse_parcel-has_comma p c h) refl

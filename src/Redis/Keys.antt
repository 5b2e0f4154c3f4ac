-- ===== src/Redis/Keys.antt =====
-- The keys of the program's one keyspace: parcel ids stand beside root CIDs and prefixed keys.
use Prim.Native.Char.{code}
use Prim.Native.String.{String}
use text.Mathlib.TextLemmas.{cons-append}
use content_service.Prelude.{
  ℕ, ◌≡◌, ◌≢◌, refl, sym, ap, ◌∙◌, Bool, false, ◌&&◌, ◌||◌, ◌==◌, leb, nat_eq, arith, eq_iff,
  Bool-cases, inl, inr,
}
use content_service.Prelude.Text.{has_comma, ◌+++◌}
use content_service.Redis.Client.{
  metadata_key_prefix, content_key_prefix, root_scene_prefix, uploaded_elements_key, processed_set,
}

-- The text begins with a digit or a sign.
unfoldable pub starts_number : String → Bool
starts_number String.[] = false
starts_number (String.◌∷◌ c s) =
    (leb 48 (code c) && leb (code c) 57) || (nat_eq (code c) 45 || nat_eq (code c) 43)

-- A key of the shape of a parcel id, "x,y".
unfoldable pub is_parcel_key : String → Bool
is_parcel_key k = starts_number k && has_comma k

pub is_parcel_key_of_no_comma : (k : String) → has_comma k ≡ false → is_parcel_key k ≡ false
unfolding is_parcel_key
is_parcel_key_of_no_comma k h = ground arith

pub content_key-plain : (k : String) → is_parcel_key (content_key_prefix +++ k) ≡ false
content_key-plain k = rw cons-append (unfold is_parcel_key starts_number in refl)

pub metadata_key-plain : (k : String) → is_parcel_key (metadata_key_prefix +++ k) ≡ false
metadata_key-plain k = rw cons-append (unfold is_parcel_key starts_number in refl)

pub root_scene_key-plain : (k : String) → is_parcel_key (root_scene_prefix +++ k) ≡ false
root_scene_key-plain k = rw cons-append (unfold is_parcel_key starts_number in refl)

-- The prefixes and fixed keys differ in their first characters.
unfoldable pub first_code : String → ℕ
first_code String.[] = 0
first_code (String.◌∷◌ c s) = code c

pub different_keys :
    (a b : String) (m n : ℕ) → first_code a ≡ m → first_code b ≡ n → m ≢ n → (a == b) ≡ false
different_keys a b m n e f differ = elim (Bool-cases (a == b)) [
  | inl same ↦ absurd (differ (sym e ∙ ap first_code ((eq_iff a b).0 same) ∙ f))
  | inr other ↦ other
]

pub content_key-first : (k : String) → first_code (content_key_prefix +++ k) ≡ 99
content_key-first k = rw cons-append (unfold first_code in refl)

pub metadata_key-first : (k : String) → first_code (metadata_key_prefix +++ k) ≡ 109
metadata_key-first k = rw cons-append (unfold first_code in refl)

pub root_scene_key-first : (k : String) → first_code (root_scene_prefix +++ k) ≡ 114
root_scene_key-first k = rw cons-append (unfold first_code in refl)

pub uploaded_key-first : first_code uploaded_elements_key ≡ 117
unfolding first_code
uploaded_key-first = refl

pub processed_key-first : first_code processed_set ≡ 112
unfolding first_code
processed_key-first = refl

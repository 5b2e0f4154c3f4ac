-- ===== src/Redis/Types.antt =====
-- The types of the values in the program's one keyspace: parcel ids, scenes' CIDs and prefixed keys
-- stand beside each other, and each command wants a value of its own type.
use content_service.Prelude.{
  ℕ, ◌≡◌, refl, sym, ap, ◌∙◌, String, Bool, true, false, List, [], Option, none, some, ◌==◌, ◌||◌,
  if◌then◌else◌, nat_eq, contains, eq_iff, Bool-cases, inl, inr, arith,
}
use content_service.Prelude.Text.{has_comma}
use mathlib.Core.Option
use content_service.Redis.{set_of, list_of, Value, str, hash, set, list}
use content_service.Redis.Keys.{is_parcel_key, starts_number, first_code}
use content_service.Redis.Scenes.{Keyspace, scene_set, owners}
use content_service.Redis.Ownership.{AllParcels, contains-AllParcels}

pub data Shape : Type 0 where
  a_string : Shape
  a_hash : Shape
  a_set : Shape
  a_list : Shape

-- A missing key has every type.
abbrev pub has_shape : Shape → Option Value → Bool
has_shape a_string (some (str x)) = true
has_shape a_hash (some (hash x)) = true
has_shape a_set (some (set x)) = true
has_shape a_list (some (list x)) = true
has_shape shape (some v) = false
has_shape shape none = true

-- The hashes are under "metadata_" and "content_", the sets under "processedSet" and
-- "uploaded-content"; the other keys, parcel ids and "root-scene:", hold strings.
abbrev pub shape_of_first : ℕ → Shape
shape_of_first n =
    if nat_eq n 109 || nat_eq n 99
    then a_hash
    else if nat_eq n 112 || nat_eq n 117
    then a_set
    else a_string

-- The type of value that the program keeps at a key: a CID's is the list of a scene's parcels, any
-- other key's is told by its first character.
unfoldable pub key_shape : (String → Bool) → String → Shape
key_shape parses k = if parses k then a_list else shape_of_first (first_code k)

-- Each key holds a value of its type, or none.
pub record IsTyped (parses : String → Bool) (d : Keyspace) : Type 0 where
  pub shapes : (k : String) → has_shape (key_shape parses k) (d k) ≡ true

-- What a value of the shape is to the commands of that type.
pub string_of_shape :
    (v : Option Value) → has_shape a_string v ≡ true → (r : Option String) × (v ≡ Option.map str r)
string_of_shape none h = (none, refl)
string_of_shape (some (str x)) h = (some x, refl)
string_of_shape (some (hash x)) h = cc
string_of_shape (some (set x)) h = cc
string_of_shape (some (list x)) h = cc

pub set_of_shape :
    (v : Option Value) → has_shape a_set v ≡ true → (xs : List String) × (set_of v ≡ some xs)
set_of_shape none h = ([], refl)
set_of_shape (some (set x)) h = (x, refl)
set_of_shape (some (hash x)) h = cc
set_of_shape (some (str x)) h = cc
set_of_shape (some (list x)) h = cc

pub list_of_shape :
    (v : Option Value) → has_shape a_list v ≡ true → (xs : List String) × (list_of v ≡ some xs)
list_of_shape none h = ([], refl)
list_of_shape (some (list x)) h = (x, refl)
list_of_shape (some (hash x)) h = cc
list_of_shape (some (str x)) h = cc
list_of_shape (some (set x)) h = cc

pub IsTyped-write :
    {parses : String → Bool} {d e : Keyspace} (key : String) (v : Value)
    → IsTyped parses d
    → has_shape (key_shape parses key) (some v) ≡ true
    → ((j : String) → e j ≡ (if key == j then some v else d j))
    → IsTyped parses e
IsTyped-write key v typed fits write = record {
  shapes = λ j. rw (write j) (elim (Bool-cases (key == j)) [
    | inl same ↦ rw same (rw (← (eq_iff key j).0 same) fits)
    | inr other ↦ rw other (typed.shapes j)
  ]);
}

starts_number-first :
    (k : String) → starts_number k ≡ true → shape_of_first (first_code k) ≡ a_string
unfolding starts_number first_code
starts_number-first String.[] h = refl
starts_number-first (String.◌∷◌ c s) h = ground (arith, h)

-- A parcel's key holds a string.
pub parcel-shape :
    {parses : String → Bool}
    → ((c : String) → parses c ≡ true → has_comma c ≡ false)
    → (p : String) → is_parcel_key p ≡ true
    → key_shape parses p ≡ a_string
unfolding key_shape is_parcel_key
parcel-shape {parses} plain p h = elim (Bool-cases (parses p)) [
  | inl parsed ↦ let comma = plain p parsed in ground (arith, h, comma)
  | inr other ↦ rw other (starts_number-first p (ground (arith, h)))
]

-- What SetSceneParcels leaves is typed, where the scene is a CID and the parcels are parcel ids.
pub scene_set-IsTyped :
    {parses : String → Bool}
    → ((c : String) → parses c ≡ true → has_comma c ≡ false)
    → (d : Keyspace) (scene : String) (ps xs : List String) → IsTyped parses d
    → parses scene ≡ true
    → AllParcels ps
    → IsTyped parses (scene_set d scene ps xs)
unfolding key_shape
scene_set-IsTyped {parses} plain d scene ps xs typed parsed parcels = record {
  shapes = λ j. elim (Bool-cases (contains j ps)) [
    | inl named ↦ rw named (rw (parcel-shape plain j (contains-AllParcels j ps parcels named)) refl)
    | inr unnamed ↦ elim (Bool-cases (scene == j)) [
      | inl same ↦ rw (unnamed, same) (rw (ap parses (sym ((eq_iff scene j).0 same)) ∙ parsed) refl)
      | inr other ↦ elim (Bool-cases (contains j (owners d ps))) [
        | inl gone ↦ rw (unnamed, other, gone) (refl)
        | inr kept ↦ rw (unnamed, other, kept) (typed.shapes j)
      ]
    ]
  ];
}

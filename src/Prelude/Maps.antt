-- ===== src/Prelude/Maps.antt =====
-- Go's maps with text keys, as association lists: `lookup`, `insert` (m[k] = v) and membership.
-- The order of the list is the order in which a `range` loop meets the entries.
use Prim.Native.String.{String}
use mathlib.Core.Path.{◌≡◌, refl, ◌∙◌}
use mathlib.Core.Logic.{∥∥₁_elim}
use mathlib.Core.Bool.{Bool, false, ◌||◌, Bool-set}
use mathlib.Core.Option.{Option, none, some}
use mathlib.Core.List.{List, [], ◌∷◌, ◌++◌, reverse, reverse-cons, Perm, Permᴰ}
use native.Mathlib.Omega.{arith}
use text.Mathlib.TextEquality.{eq_iff}
use content_service.Prelude.Tests.{◌==◌, if◌then◌else◌}

abbrev pub Map {ℓ} : Type ℓ → Type ℓ
Map V = List (String × V)

module _ {ℓ} {V : Type ℓ} where
  unfoldable pub lookup : String → Map V → Option V
  lookup key [] = none
  lookup key ((name, value) ∷ rest) = if name == key then some value else lookup key rest

  unfoldable pub insert : String → V → Map V → Map V
  insert key new [] = (key, new) ∷ []
  insert key new ((name, old) ∷ rest) =
      if name == key then (key, new) ∷ rest else (name, old) ∷ insert key new rest

  -- A lookup after an insertion finds the new value at its key and the old one elsewhere.
  pub lookup-insert :
      (key other : String) (new : V) (entries : Map V)
      → lookup other (insert key new entries)
        ≡ (if key == other then some new else lookup other entries)
  unfolding lookup insert
  lookup-insert key other new [] = refl
  lookup-insert key other new ((name, old) ∷ rest) =
      let inner = lookup-insert key other new rest in
      ground (arith, inner, eq_iff name key, eq_iff name other, eq_iff key other)

abbrev pub contains : String → List String → Bool
contains x [] = false
contains x (y ∷ ys) = (y == x) || contains x ys

pub contains-append :
    (x : String) (xs ys : List String) → contains x (xs ++ ys) ≡ (contains x xs || contains x ys)
contains-append x [] ys = refl
contains-append x (y ∷ xs) ys = ground (arith, contains-append x xs ys)

pub contains-reverse : (x : String) (xs : List String) → contains x (reverse xs) ≡ contains x xs
contains-reverse x [] = refl
contains-reverse x (y ∷ xs) =
    rw reverse-cons (rw contains-append (ground (arith, contains-reverse x xs)))

-- The keys of a map.
abbrev pub has_key {ℓ} : {V : Type ℓ} → String → Map V → Bool
has_key k [] = false
has_key k ((j, v) ∷ m) = (j == k) || has_key k m

module _ {V : Type 0} where
  pub has_key-insert :
      (k j : String) (v : V) (m : Map V) → has_key j (insert k v m) ≡ ((k == j) || has_key j m)
  unfolding insert
  has_key-insert k j v [] = refl
  has_key-insert k j v ((i, w) ∷ m) =
      ground (arith, eq_iff i k, eq_iff i j, eq_iff k j, has_key-insert k j v m)

  has_key-Permᴰ : (k : String) {m n : Map V} → Permᴰ m n → has_key k m ≡ has_key k n
  has_key-Permᴰ k Permᴰ.nil = refl
  has_key-Permᴰ k (Permᴰ.cons e p) = rw e (rw (has_key-Permᴰ k p))
  has_key-Permᴰ k (Permᴰ.swap e f) = rw (e, f) (ground arith)
  has_key-Permᴰ k (Permᴰ.trans p q) = has_key-Permᴰ k p ∙ has_key-Permᴰ k q

  pub has_key-perm : (k : String) {m n : Map V} → Perm m n → has_key k m ≡ has_key k n
  has_key-perm k p = ∥∥₁_elim p (Bool-set _ _) (has_key-Permᴰ k)

-- The order in which a `range` loop visits a map that the program built: Go promises only that
-- each entry is visited once.
pub record MapRange : Type 1 where
  pub range : (V : Type 0) → Map V → Map V
  pub range_perm : (V : Type 0) (m : Map V) → Perm (range V m) m

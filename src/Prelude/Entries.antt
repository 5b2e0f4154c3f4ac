-- ===== src/Prelude/Entries.antt =====
-- Maps with each key once, and tests on the entries of a list in any order.
use Prim.Native.String.{String}
use mathlib.Core.Path.{◌≡◌, refl, ◌∙◌}
use mathlib.Core.Logic.{∥∥₁_elim, inl, inr}
use mathlib.Core.Bool.{Bool, true, false, not, ◌||◌, Bool-set}
use mathlib.Core.Option.{some}
use mathlib.Core.List.{List, [], ◌∷◌, ◌++◌, Perm, Permᴰ}
use native.Mathlib.Omega.{arith}
use text.Mathlib.TextEquality.{eq_iff}
use text.Mathlib.TextPositions.{eq_refl}
use content_service.Prelude.Tests.{◌==◌, if◌then◌else◌, Bool-cases}
use content_service.Prelude.Lists.{All, All-map_imp}
use content_service.Prelude.Maps.{Map, lookup, insert, lookup-insert, has_key, has_key-insert}

-- Some element passes the test.
abbrev pub any : {A : Type 0} → (A → Bool) → List A → Bool
any f [] = false
any f (x ∷ xs) = f x || any f xs

module _ {A : Type 0} (f : A → Bool) where
  pub any-append : (xs ys : List A) → any f (xs ++ ys) ≡ (any f xs || any f ys)
  any-append [] ys = refl
  any-append (x ∷ xs) ys = ground (arith, any-append xs ys)

  any-Permᴰ : {xs ys : List A} → Permᴰ xs ys → any f xs ≡ any f ys
  any-Permᴰ Permᴰ.nil = refl
  any-Permᴰ (Permᴰ.cons e p) = rw e (rw (any-Permᴰ p))
  any-Permᴰ (Permᴰ.swap e g) = rw (e, g) (ground arith)
  any-Permᴰ (Permᴰ.trans p q) = any-Permᴰ p ∙ any-Permᴰ q

  pub any-perm : {xs ys : List A} → Perm xs ys → any f xs ≡ any f ys
  any-perm p = ∥∥₁_elim p (Bool-set _ _) any-Permᴰ

  -- Of a property of every element, an element that passes the test has it.
  pub any-All :
      {P Q : A → Type 0}
      → ((x : A) → f x ≡ true → P x → Q x)
      → (xs : List A) → All P xs
      → any f xs ≡ true
      → (x : A) × Q x
  any-All g [] h e = cc
  any-All g (x ∷ xs) (p, h) e = elim (Bool-cases (f x)) [
    | inl here ↦ (x, g x here p)
    | inr other ↦ any-All g xs h (ground (arith, e))
  ]

  pub All_of_none : (xs : List A) → any (λ x. not (f x)) xs ≡ false → All (λ x. f x ≡ true) xs
  All_of_none [] h = tt
  All_of_none (x ∷ xs) h = (ground (arith, h), All_of_none xs (ground (arith, h)))

module _ {V : Type 0} where
  -- A map has each key once.
  abbrev pub HasUniqueKeys : Map V → Type 0
  HasUniqueKeys [] = Unit
  HasUniqueKeys ((k, v) ∷ m) = (has_key k m ≡ false) × HasUniqueKeys m

  pub insert-HasUniqueKeys :
      (k : String) (v : V) (m : Map V) → HasUniqueKeys m → HasUniqueKeys (insert k v m)
  unfolding insert
  insert-HasUniqueKeys k v [] h = (refl, tt)
  insert-HasUniqueKeys k v ((j, w) ∷ m) (fresh, h) = elim (Bool-cases (j == k)) [
    | inl same ↦ rw same (rw (← (eq_iff j k).0 same) fresh, h)
    | inr other ↦ rw other (
      has_key-insert k j v m ∙ ground (arith, fresh, other, eq_iff j k, eq_iff k j),
      insert-HasUniqueKeys k v m h,
    )
  ]

  absent_lookup : (k : String) (v : V) (m : Map V) → lookup k m ≡ some v → has_key k m ≡ true
  unfolding lookup
  absent_lookup k v [] h = cc
  absent_lookup k v ((j, w) ∷ m) h = elim (Bool-cases (j == k)) [
    | inl same ↦ rw same refl
    | inr other ↦ rw other (absent_lookup k v m (rw other at h))
  ]

  -- Each entry is the one that a lookup finds.
  pub entries-lookup : (m : Map V) → HasUniqueKeys m → All (λ e. lookup e.0 m ≡ some e.1) m
  unfolding lookup
  entries-lookup [] h = tt
  entries-lookup ((k, v) ∷ m) (fresh, h) =
      (rw (eq_refl k) refl, All-map_imp m (λ e found. later e found) (entries-lookup m h))
    where
      later :
          (e : String × V)
          → lookup e.0 m ≡ some e.1
          → (if k == e.0 then some v else lookup e.0 m) ≡ some e.1
      later e found = elim (Bool-cases (k == e.0)) [
        | inl same ↦
            let twice = rw (← (eq_iff k e.0).0 same) at (absent_lookup e.0 e.1 m found) in cc
        | inr other ↦ rw other found
      ]

  -- The entries of a list that may have a key more than once, as a map; the first one counts.
  abbrev pub first_entries : Map V → Map V
  first_entries [] = []
  first_entries ((k, v) ∷ m) = insert k v (first_entries m)

  pub first_entries-HasUniqueKeys : (m : Map V) → HasUniqueKeys (first_entries m)
  first_entries-HasUniqueKeys [] = tt
  first_entries-HasUniqueKeys ((k, v) ∷ m) =
      insert-HasUniqueKeys k v (first_entries m) (first_entries-HasUniqueKeys m)

  pub lookup-first_entries : (f : String) (m : Map V) → lookup f (first_entries m) ≡ lookup f m
  unfolding lookup
  lookup-first_entries f [] = refl
  lookup-first_entries f ((k, v) ∷ m) =
      lookup-insert k f v (first_entries m) ∙ rw (lookup-first_entries f m) refl

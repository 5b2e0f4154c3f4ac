-- ===== src/Go/Loops.antt =====
-- Proof rules for `for_each`: what a loop that ran to its end has kept and has established.
use content_service.Prelude.{◌≡◌, List, [], ◌∷◌, All, ap}
use content_service.Go.{ok, Exec, for_each}
use content_service.Go.Inversion.{>>=-eq-ok, Along, Along-bind, Along-pure, IsPreorder}

module _ {S A : Type 0} (f : A → Exec S Unit) (I : A → Type 0) where
  -- A predicate that each successful round keeps holds after a loop that succeeds.
  pub for_each_keeps :
      (P : S → Type 0)
      → ((x : A) (s t : S) → I x → P s → f x s ≡ (ok tt, t) → P t)
      → (xs : List A) (s : S) {t : S} → All I xs
      → P s
      → for_each xs f s ≡ (ok tt, t)
      → P t
  unfolding for_each
  for_each_keeps P step [] s _ p h = let e : s ≡ _ = ap (λ r. r.1) h in rw e at p
  for_each_keeps P step (x ∷ xs) s (i, is) p h =
      let (_, u, e, k) = >>=-eq-ok (f x) (λ _. for_each xs f) s h in
      for_each_keeps P step xs u is (step x s u i p e) k

  -- What a round establishes for its element and later rounds keep holds of every element.
  pub for_each_all :
      (Q : A → S → Type 0)
      → ((x : A) (s t : S) → I x → f x s ≡ (ok tt, t) → Q x t)
      → ((x y : A) (s t : S) → I y → Q x s → f y s ≡ (ok tt, t) → Q x t)
      → (xs : List A) (s : S) {t : S} → All I xs
      → for_each xs f s ≡ (ok tt, t)
      → All (λ x. Q x t) xs
  unfolding for_each
  for_each_all Q est keep [] s _ h = tt
  for_each_all Q est keep (x ∷ xs) s (i, is) h =
      let (_, u, e, k) = >>=-eq-ok (f x) (λ _. for_each xs f) s h in
      (
        for_each_keeps (Q x) (λ y. keep x y) xs u is (est x s u i e) k,
        for_each_all Q est keep xs u is k,
      )

module _ {S : Type 0} (R : S → S → Type 0) (p : IsPreorder R) {A : Type 0} where
  pub Along-for_each :
      (xs : List A) (f : A → Exec S Unit) → ((x : A) → Along R (f x)) → Along R (for_each xs f)
  unfolding for_each
  Along-for_each [] f h = Along-pure R p tt
  Along-for_each (x ∷ xs) f h =
      Along-bind R p (f x) (λ _. for_each xs f) (h x) (λ _. Along-for_each xs f h)

-- ===== src/Go/Inversion.antt =====
-- Proof rules for actions: a successful run taken apart, and relations that every run keeps.
use content_service.Prelude.{◌≡◌, refl, ap, Bool, true, false, ◌⊎◌, inl, inr, if◌then◌else◌}
use content_service.Go.{
  GoError, Result, ok, err, panicked, Exec, pure, raise, lift, ◌>>=◌, continue, inspect, attend,
  on_error, continue_err,
}

module _ {ℓ} {S A B : Type ℓ} where
  continue-eq-ok :
      (r : Result A) (f : A → Exec S B) (u : S) {b : B} {t : S}
      → continue r f u ≡ (ok b, t)
      → (a : A) × (r ≡ ok a) × (f a u ≡ (ok b, t))
  continue-eq-ok (ok a) f u h = (a, refl, h)
  continue-eq-ok (err e) f u h = cc
  continue-eq-ok panicked f u h = cc

  -- A successful bind ran its first part to a value and its second part from there.
  pub >>=-eq-ok :
      (m : Exec S A) (f : A → Exec S B) (s : S) {b : B} {t : S}
      → (m >>= f) s ≡ (ok b, t)
      → (a : A) × (u : S) × (m s ≡ (ok a, u)) × (f a u ≡ (ok b, t))
  unfolding ◌>>=◌
  >>=-eq-ok m f s h =
      let (a, e, k) = continue-eq-ok (m s).0 f (m s).1 h in (a, (m s).1, λ i. (e i, (m s).1), k)

module _ {ℓ} {S A : Type ℓ} where
  pub pure-eq-ok : (a b : A) (s t : S) → pure a s ≡ (ok b, t) → (a ≡ b) × (s ≡ t)
  pure-eq-ok a b s t h = let e : ok a ≡ ok b = ap (λ p. p.0) h in (cc, ap (λ p. p.1) h)

  pub lift-eq-ok :
      (r : Result A) (s : S) {b : A} {t : S} → lift r s ≡ (ok b, t) → (r ≡ ok b) × (s ≡ t)
  lift-eq-ok r s h = (ap (λ p. p.0) h, ap (λ p. p.1) h)

  continue_err-eq-ok :
      (r : Result A) (g : GoError → GoError) (u : S) {a : A} {t : S}
      → continue_err r (λ e. raise (g e)) u ≡ (ok a, t)
      → (r ≡ ok a) × (u ≡ t)
  continue_err-eq-ok (ok x) g u h = (ap (λ p. p.0) h, ap (λ p. p.1) h)
  continue_err-eq-ok (err e) g u h = cc
  continue_err-eq-ok panicked g u h = cc

  -- An action whose error is only replaced by another succeeds as the action does.
  pub on_error-raise-eq-ok :
      (m : Exec S A) (g : GoError → GoError) (s : S) {a : A} {t : S}
      → on_error m (λ e. raise (g e)) s ≡ (ok a, t)
      → m s ≡ (ok a, t)
  unfolding on_error
  on_error-raise-eq-ok m g s h =
      let (e, k) = continue_err-eq-ok (m s).0 g (m s).1 h in λ i. (e i, k i)

module _ {S A : Type 0} where
  continue_err-cases :
      (r : Result A) (f : GoError → Exec S A) (u : S) {a : A} {t : S}
      → continue_err r f u ≡ (ok a, t)
      → ((r ≡ ok a) × (u ≡ t)) ⊎ ((e : GoError) × (f e u ≡ (ok a, t)))
  continue_err-cases (ok x) f u h = inl (ap (λ p. p.0) h, ap (λ p. p.1) h)
  continue_err-cases (err e) f u h = inr (e, h)
  continue_err-cases panicked f u h = cc

  -- A successful action with an error handler succeeded itself, or its handler did.
  pub on_error-cases :
      (m : Exec S A) (f : GoError → Exec S A) (s : S) {a : A} {t : S}
      → on_error m f s ≡ (ok a, t)
      → (m s ≡ (ok a, t)) ⊎ ((e : GoError) × (f e (m s).1 ≡ (ok a, t)))
  unfolding on_error
  on_error-cases m f s h = elim (continue_err-cases (m s).0 f (m s).1 h) [
    | inl (e, k) ↦ inl (λ i. (e i, k i))
    | inr (e, k) ↦ inr (e, k)
  ]

module _ {ℓ} {S A B : Type ℓ} where
  attend-eq-ok :
      (r : Result A) (f : Result A → Exec S B) (u : S) {b : B} {t : S}
      → attend r f u ≡ (ok b, t)
      → f r u ≡ (ok b, t)
  attend-eq-ok (ok a) f u h = h
  attend-eq-ok (err e) f u h = h
  attend-eq-ok panicked f u h = cc

  -- A successful run that looks at the outcome of its first part.
  pub inspect-eq-ok :
      (m : Exec S A) (f : Result A → Exec S B) (s : S) {b : B} {t : S}
      → inspect m f s ≡ (ok b, t)
      → f (m s).0 (m s).1 ≡ (ok b, t)
  unfolding inspect
  inspect-eq-ok m f s h = attend-eq-ok (m s).0 f (m s).1 h

module _ {S B : Type 0} where
  attend-lift-eq-ok :
      (r : Result Unit) (m : Exec S B) (u : S) {t : S}
      → attend r (λ x. m >>= λ b. lift x) u ≡ (ok tt, t)
      → (b : B) × (r ≡ ok tt) × (m u ≡ (ok b, t))
  attend-lift-eq-ok (ok x) m u h =
      let (b, v, e, q) = >>=-eq-ok m (λ _. lift (ok x)) u h in (b, refl, cc)
  attend-lift-eq-ok (err x) m u h =
      let (b, v, e, q) = >>=-eq-ok m (λ _. lift {A = Unit} (err x)) u h in cc
  attend-lift-eq-ok panicked m u h = cc

  -- An action whose error is returned only after a second action has run.
  pub inspect-lift-eq-ok :
      (n : Exec S Unit) (m : Exec S B) (s : S) {t : S}
      → inspect n (λ x. m >>= λ b. lift x) s ≡ (ok tt, t)
      → (b : B) × (u : S) × (n s ≡ (ok tt, u)) × (m u ≡ (ok b, t))
  unfolding inspect
  inspect-lift-eq-ok n m s h =
      let (b, e, k) = attend-lift-eq-ok (n s).0 m (n s).1 h in (b, (n s).1, λ i. (e i, (n s).1), k)

-- A relation between states that holds between the start and the end of every run of an action,
-- whatever its outcome.
module _ {ℓ} {S : Type ℓ} where
  pub record Along {A : Type ℓ} (R : S → S → Type ℓ) (m : Exec S A) : Type ℓ where
    pub at : (s : S) → R s (m s).1

  pub record IsPreorder (R : S → S → Type ℓ) : Type ℓ where
    pub same : (s : S) → R s s
    pub trans : (s t u : S) → R s t → R t u → R s u

module _ {ℓ} {S : Type ℓ} (R : S → S → Type ℓ) (p : IsPreorder R) where
  module _ {A : Type ℓ} where
    pub Along-pure : (a : A) → Along R (pure {S = S} a)
    Along-pure a = record { at = p.same }

    pub Along-raise : (e : GoError) → Along R (raise {S = S} {A = A} e)
    Along-raise e = record { at = p.same }

    pub Along-lift : (r : Result A) → Along R (lift {S = S} r)
    Along-lift r = record { at = p.same }

    pub Along-if :
        (b : Bool) (m n : Exec S A) → Along R m → Along R n → Along R (if b then m else n)
    Along-if true m n h k = h
    Along-if false m n h k = k

    Along-continue_err :
        (r : Result A) (f : GoError → Exec S A)
        → ((e : GoError) → Along R (f e))
        → Along R (continue_err r f)
    Along-continue_err (ok a) f h = record { at = p.same }
    Along-continue_err (err e) f h = h e
    Along-continue_err panicked f h = record { at = p.same }

    pub Along-on_error :
        (m : Exec S A) (f : GoError → Exec S A)
        → Along R m
        → ((e : GoError) → Along R (f e))
        → Along R (on_error m f)
    unfolding on_error
    Along-on_error m f h k = record {
      at = λ s.
          p.trans s (m s).1 (on_error m f s).1 (h.at s)
            ((Along-continue_err (m s).0 f k).at (m s).1);
    }

  module _ {A B : Type ℓ} where
    Along-continue :
        (r : Result A) (f : A → Exec S B) → ((a : A) → Along R (f a)) → Along R (continue r f)
    Along-continue (ok a) f h = h a
    Along-continue (err e) f h = record { at = p.same }
    Along-continue panicked f h = record { at = p.same }

    Along-attend :
        (r : Result A) (f : Result A → Exec S B)
        → ((x : Result A) → Along R (f x))
        → Along R (attend r f)
    Along-attend (ok a) f h = h (ok a)
    Along-attend (err e) f h = h (err e)
    Along-attend panicked f h = record { at = p.same }

    pub Along-bind :
        (m : Exec S A) (f : A → Exec S B)
        → Along R m
        → ((a : A) → Along R (f a))
        → Along R (m >>= f)
    unfolding ◌>>=◌
    Along-bind m f h k = record {
      at =
          λ s. p.trans s (m s).1 ((m >>= f) s).1 (h.at s) ((Along-continue (m s).0 f k).at (m s).1);
    }

    pub Along-inspect :
        (m : Exec S A) (f : Result A → Exec S B)
        → Along R m
        → ((x : Result A) → Along R (f x))
        → Along R (inspect m f)
    unfolding inspect
    Along-inspect m f h k = record {
      at =
          λ s. p.trans s (m s).1 (inspect m f s).1 (h.at s) ((Along-attend (m s).0 f k).at (m s).1);
    }

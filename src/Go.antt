-- ===== src/Go.antt =====
-- What the Go code returns: error values, results, and actions on a world state. An action that
-- fails keeps what it wrote before, so the state comes back beside every outcome. `panicked` is a
-- run-time panic (an index out of range, a nil pointer), which the HTTP router recovers from.
pub mod Inversion
pub mod Loops
use content_service.Prelude.{String, List, [], ◌∷◌}

-- The error types of internal/handlers/errors.go and storage/storage.go; `plain` is any other
-- `error` value (errors.New, fmt.Errorf, an error of a library).
pub data GoError : Type 0 where
  invalid_argument : String → GoError
  required_value : String → GoError
  unexpected : String → GoError → GoError
  unauthorized : String → GoError
  not_found : String → GoError
  internal : String → GoError
  plain : String → GoError

-- The Error methods: UnexpectedError has that of the error which it embeds.
unfoldable pub error_text : GoError → String
error_text (invalid_argument message) = message
error_text (required_value message) = message
error_text (unexpected message e) = error_text e
error_text (unauthorized message) = message
error_text (not_found cause) = cause
error_text (internal cause) = cause
error_text (plain message) = message

pub data Result {ℓ} (A : Type ℓ) : Type ℓ where
  ok : A → Result A
  err : GoError → Result A
  panicked : Result A

abbrev pub Exec {ℓ} : Type ℓ → Type ℓ → Type ℓ
Exec S A = S → Result A × S

module _ {ℓ} {S A : Type ℓ} where
  abbrev pub pure : A → Exec S A
  pure a s = (ok a, s)

  abbrev pub raise : GoError → Exec S A
  raise e s = (err e, s)

  abbrev pub lift : Result A → Exec S A
  lift r s = (r, s)

  abbrev pub continue_err : Result A → (GoError → Exec S A) → Exec S A
  continue_err (ok a) f s = (ok a, s)
  continue_err (err e) f s = f e s
  continue_err panicked f s = (panicked, s)

  -- `if err != nil { return f(err) }`
  unfoldable pub on_error : Exec S A → (GoError → Exec S A) → Exec S A
  on_error m f s = let (r, s') = m s in continue_err r f s'

module _ {ℓ} {S A B : Type ℓ} where
  abbrev pub continue : Result A → (A → Exec S B) → Exec S B
  continue (ok a) f s = f a s
  continue (err e) f s = (err e, s)
  continue panicked f s = (panicked, s)

  infixl 5 ◌>>=◌ ◌>>◌
  unfoldable pub ◌>>=◌ : Exec S A → (A → Exec S B) → Exec S B
  ◌>>=◌ first next start = let (outcome, here) = first start in continue outcome next here

  abbrev pub ◌>>◌ : Exec S A → Exec S B → Exec S B
  first >> second = first >>= λ _. second

  -- The code looks at the error itself: the continuation receives the whole outcome of an action,
  -- a panic apart.
  abbrev pub attend : Result A → (Result A → Exec S B) → Exec S B
  attend (ok a) f s = f (ok a) s
  attend (err e) f s = f (err e) s
  attend panicked f s = (panicked, s)

  unfoldable pub inspect : Exec S A → (Result A → Exec S B) → Exec S B
  inspect m f s = let (r, s') = m s in attend r f s'

module _ {S A : Type 0} where
  -- `for _, x := range xs { if err := f(x); err != nil { return err } }`
  unfoldable pub for_each : List A → (A → Exec S Unit) → Exec S Unit
  for_each [] f = pure tt
  for_each (x ∷ xs) f = f x >>= λ _. for_each xs f

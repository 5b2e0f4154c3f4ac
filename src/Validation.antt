-- ===== src/Validation.antt =====
-- validation/validation.go: the validator that the upload handler calls. The validator library, its
-- rules and its translator are parameters.
use content_service.Prelude.{String, Bool, List, [], ◌∷◌, Option, none, some, map}
use content_service.Prelude.Text.{join}
use content_service.Go.{GoError, plain}
use text.Mathlib.Text.{starts_with}

-- What the library tells of a rule that a field breaks.
pub record FieldError : Type 0 where
  pub tag : String
  pub field : String
  pub param : String

-- The messages that addTranslation registers for the tags of this program.
abbrev pub templates : List (String × String)
templates =
    ("required", "{0} field is required.")
    ∷ ("eth_addr", "{0} field is not a valid address.")
    ∷ ("prefix", "{0} field does not starts with {1}.")
    ∷ []

-- validatePrefix, the rule of the tag "prefix"
unfoldable pub validate_prefix : String → FieldError → Bool
validate_prefix value rule = starts_with value rule.param

-- `translate` is FieldError.Translate.
unfoldable pub translate_errors : (FieldError → String) → List FieldError → GoError
translate_errors translate errs = plain (join (map translate errs) ", ")

-- `struct_errors` is Struct, with no errors for its nil; `none` is nil.
abbrev pub error_of : (FieldError → String) → List FieldError → Option GoError
error_of translate [] = none
error_of translate (e ∷ errs) = some (translate_errors translate (e ∷ errs))

unfoldable pub validate_struct :
    {A : Type 0} → (A → List FieldError) → (FieldError → String) → A → Option GoError
validate_struct struct_errors translate s = error_of translate (struct_errors s)

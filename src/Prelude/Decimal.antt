-- ===== src/Prelude/Decimal.antt =====
-- Decimal numbers as text: fmt's %d, and strconv.Atoi and strconv.ParseInt(s, 10, 64).
pub mod First
use Prim.Native.Nat.{ℕ, zero, suc, ◌+◌, ◌-◌, ◌*◌, ◌/◌, ◌%◌, ◌≤◌, ◌<◌}
use Prim.Native.Char.{Char, code}
use Prim.Native.String
use Prim.Native.String.{String}
use mathlib.Core.Path.{◌≡◌, refl, ◌∙◌, ap}
use mathlib.Core.Logic.{inl, inr}
use mathlib.Core.Bool.{Bool, true, ◌&&◌, ◌||◌}
use mathlib.Core.Option.{Option, none, some}
use native.Mathlib.Omega.{arith}
use text.Mathlib.TextLemmas.{append_assoc, cons-append, nil-append, append-nil}
use content_service.Prelude.Tests.{ltb, leb, nat_eq, if◌then◌else◌, Bool-cases}
use content_service.Prelude.Text.{NoComma, NoComma-append}
use content_service.Prelude.Int.{ℤ, pos, negsuc, half_word, IsInt64}

digit_char : ℕ → Char
digit_char zero = "0"
digit_char (suc zero) = "1"
digit_char (suc (suc zero)) = "2"
digit_char (suc (suc (suc zero))) = "3"
digit_char (suc (suc (suc (suc zero)))) = "4"
digit_char (suc (suc (suc (suc (suc zero))))) = "5"
digit_char (suc (suc (suc (suc (suc (suc zero)))))) = "6"
digit_char (suc (suc (suc (suc (suc (suc (suc zero))))))) = "7"
digit_char (suc (suc (suc (suc (suc (suc (suc (suc zero)))))))) = "8"
digit_char _ = "9"

code-digit_char : (n : ℕ) → n < 10 → code (digit_char n) ≡ 48 + n
unfolding digit_char
code-digit_char zero h = refl
code-digit_char (suc zero) h = refl
code-digit_char (suc (suc zero)) h = refl
code-digit_char (suc (suc (suc zero))) h = refl
code-digit_char (suc (suc (suc (suc zero)))) h = refl
code-digit_char (suc (suc (suc (suc (suc zero))))) h = refl
code-digit_char (suc (suc (suc (suc (suc (suc zero)))))) h = refl
code-digit_char (suc (suc (suc (suc (suc (suc (suc zero))))))) h = refl
code-digit_char (suc (suc (suc (suc (suc (suc (suc (suc zero)))))))) h = refl
code-digit_char (suc (suc (suc (suc (suc (suc (suc (suc (suc zero))))))))) h = refl
code-digit_char (suc (suc (suc (suc (suc (suc (suc (suc (suc (suc n)))))))))) h =
    absurd (omega arith)

-- The digits of `n`, most significant first; `n < fuel` is enough.
digits : ℕ → ℕ → String
digits zero n = ""
digits (suc fuel) n =
    let more = digits fuel (n / 10) in
    if ltb n 10
    then String.◌∷◌ (digit_char n) ""
    else String.◌++◌ more (String.◌∷◌ (digit_char (n % 10)) "")

unfoldable pub show_ℕ : ℕ → String
unfolding digits digit_char
show_ℕ n = digits (suc n) n

-- fmt.Sprintf("%d", a)
unfoldable pub show_ℤ : ℤ → String
unfolding show_ℕ
show_ℤ (pos n) = show_ℕ n
show_ℤ (negsuc n) = String.◌∷◌ "-" (show_ℕ (suc n))

abbrev pub is_digit : Char → Bool
is_digit c = leb 48 (code c) && leb (code c) 57

parse_digits : ℕ → String → Option ℕ
parse_digits n String.[] = some n
parse_digits n (String.◌∷◌ c s) =
    let rest = parse_digits (n * 10 + (code c - 48)) s in if is_digit c then rest else none

-- At least one digit, and nothing but digits.
parse_ℕ : String → Option ℕ
parse_ℕ String.[] = none
parse_ℕ (String.◌∷◌ c s) = parse_digits 0 (String.◌∷◌ c s)

abbrev in_range : Option ℕ → Option ℤ
in_range none = none
in_range (some n) = if ltb n half_word then some (pos n) else none

abbrev in_range_neg : Option ℕ → Option ℤ
in_range_neg none = none
in_range_neg (some zero) = some (pos 0)
in_range_neg (some (suc n)) = if leb (suc n) half_word then some (negsuc n) else none

-- strconv.Atoi, strconv.ParseInt(s, 10, 64): an optional sign, digits, a value of 64 bits.
unfoldable pub atoi : String → Option ℤ
unfolding parse_ℕ parse_digits
atoi String.[] = none
atoi (String.◌∷◌ c s) =
    if nat_eq (code c) 45
    then in_range_neg (parse_ℕ s)
    else if nat_eq (code c) 43
    then in_range (parse_ℕ s)
    else in_range (parse_ℕ (String.◌∷◌ c s))

atoi_tests : (atoi "-12" ≡ some (negsuc 11)) × (atoi "+7" ≡ some (pos 7)) × (atoi "1x" ≡ none)
unfolding atoi
atoi_tests = (refl, refl, refl)

show_tests : (show_ℤ (negsuc 149) ≡ "-150") × (show_ℤ (pos 0) ≡ "0")
unfolding show_ℤ
show_tests = (refl, refl)

parse_digits_step :
    (n d : ℕ) (s : String)
    → d < 10
    → parse_digits n (String.◌∷◌ (digit_char d) s) ≡ parse_digits (n * 10 + d) s
unfolding parse_digits
parse_digits_step n d s h =
    ground (arith, code-digit_char d h, ap (λ (k : ℕ). parse_digits (n * 10 + k) s) e)
  where
    e : code (digit_char d) - 48 ≡ d
    e = omega (arith, code-digit_char d h)

parse_digits-digits :
    (fuel n : ℕ) (s : String)
    → n < fuel
    → parse_digits 0 (String.◌++◌ (digits fuel n) s) ≡ parse_digits n s
unfolding digits
parse_digits-digits zero n s h = elim h [ ]
parse_digits-digits (suc fuel) n s h = elim (Bool-cases (ltb n 10)) [
  | inl small ↦ rw small (
      rw cons-append (
        rw nil-append (
          parse_digits_step 0 n s (ground arith) ∙ ap (λ (k : ℕ). parse_digits k s) (omega arith))))
  | inr large ↦ rw large (
      rw append_assoc (
        rw cons-append (
          rw nil-append (
            parse_digits-digits fuel (n / 10) (String.◌∷◌ (digit_char (n % 10)) s) (ground arith)
            ∙ parse_digits_step (n / 10) (n % 10) s (omega arith)
            ∙ ap (λ (k : ℕ). parse_digits k s) (omega arith)))))
]

-- The text begins with a digit.
abbrev Leads : String → Type 0
Leads String.[] = ⊥
Leads (String.◌∷◌ c s) = (48 ≤ code c) × (code c ≤ 57)

Leads-append : (s t : String) → Leads s → Leads (String.◌++◌ s t)
Leads-append String.[] t h = absurd h
Leads-append (String.◌∷◌ c s) t h = rw cons-append h

digits-Leads : (fuel n : ℕ) → n < fuel → Leads (digits fuel n)
unfolding digits
digits-Leads zero n h = elim h [ ]
digits-Leads (suc fuel) n h = elim (Bool-cases (ltb n 10)) [
  | inl small ↦
      let small' : n < 10 = ground arith in rw small (omega (arith, code-digit_char n small'))
  | inr large ↦
      rw large (Leads-append (digits fuel (n / 10)) _ (digits-Leads fuel (n / 10) (ground arith)))
]

parse_ℕ-show_ℕ : (n : ℕ) → parse_ℕ (show_ℕ n) ≡ some n
unfolding show_ℕ
parse_ℕ-show_ℕ n =
    go (digits (suc n) n) (digits-Leads (suc n) n (omega arith))
      (rw append-nil at (parse_digits-digits (suc n) n "" (omega arith)))
  where
    go : (s : String) → Leads s → parse_digits 0 s ≡ parse_digits n "" → parse_ℕ s ≡ some n
    go String.[] l e = absurd l
    go (String.◌∷◌ c s) l e = unfold parse_ℕ parse_digits in e

atoi_of_Leads : (s : String) → Leads s → atoi s ≡ in_range (parse_ℕ s)
unfolding atoi
atoi_of_Leads String.[] l = absurd l
atoi_of_Leads (String.◌∷◌ c s) l = ground arith

-- Printing a 64-bit number and parsing it gives the number back.
pub atoi-show_ℤ : (a : ℤ) → IsInt64 a → atoi (show_ℤ a) ≡ some a
unfolding show_ℤ
atoi-show_ℤ (pos n) h =
    atoi_of_Leads (show_ℕ n) (digits-Leads (suc n) n (omega arith))
    ∙ ap in_range (parse_ℕ-show_ℕ n)
    ∙ ground arith
atoi-show_ℤ (negsuc n) h = unfold atoi in ap in_range_neg (parse_ℕ-show_ℕ (suc n)) ∙ ground arith

digits-NoComma : (fuel n : ℕ) → n < fuel → NoComma (digits fuel n)
unfolding digits
digits-NoComma zero n h = elim h [ ]
digits-NoComma (suc fuel) n h = elim (Bool-cases (ltb n 10)) [
  | inl small ↦
      let small' : n < 10 = ground arith in rw small (omega (arith, code-digit_char n small'))
  | inr large ↦ rw large (
      NoComma-append (digits fuel (n / 10)) _ (digits-NoComma fuel (n / 10) (ground arith))
        (omega (arith, code-digit_char (n % 10) (omega arith))))
]

show_ℕ-NoComma : (n : ℕ) → NoComma (show_ℕ n)
unfolding show_ℕ
show_ℕ-NoComma n = digits-NoComma (suc n) n (omega arith)

-- A printed number has no comma.
pub show_ℤ-NoComma : (a : ℤ) → NoComma (show_ℤ a)
unfolding show_ℤ
show_ℤ-NoComma (pos n) = show_ℕ-NoComma n
show_ℤ-NoComma (negsuc n) = (omega arith, show_ℕ-NoComma (suc n))

-- What Atoi accepts begins with a sign or a digit.
pub atoi_first :
    (c : Char) (s : String) (n : ℤ)
    → atoi (String.◌∷◌ c s) ≡ some n
    → (is_digit c || (nat_eq (code c) 45 || nat_eq (code c) 43)) ≡ true
unfolding atoi
atoi_first c s n h = ground arith

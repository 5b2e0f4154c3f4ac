-- ===== src/Prelude/Text.antt =====
-- The functions of Go's package strings that the program calls, over native texts.
use Prim.Native.Char.{Char, code}
use Prim.Native.String
use Prim.Native.String.{String}
use Prim.Native.Nat.{ℕ, zero, suc}
use mathlib.Core.Path.{◌≡◌, refl, sym, ap, ◌∙◌}
use mathlib.Core.Logic.{◌≢◌, ◌⊎◌, inl, inr}
use mathlib.Core.Bool.{Bool, true, false, ◌||◌}
use mathlib.Core.Option.{Option, none, some}
use mathlib.Core.List.{List, [], ◌∷◌}
use native.Mathlib.Omega.{arith}
use text.Mathlib.Text.{starts_with}
use text.Mathlib.TextLemmas.{cons-append, nil-append}
use content_service.Prelude.Tests.{◌==◌, nat_eq, if◌then◌else◌, Bool-cases}

infixr 65 ◌+++◌
-- Concatenation, Go's `+` on strings.
abbrev pub ◌+++◌ : String → String → String
s +++ t = String.◌++◌ s t

-- strings.HasSuffix
unfoldable pub has_suffix : String → String → Bool
has_suffix String.[] t = "" == t
has_suffix (String.◌∷◌ c s) t = (String.◌∷◌ c s == t) || has_suffix s t

-- strings.Contains
unfoldable pub contains_text : String → String → Bool
contains_text String.[] t = "" == t
contains_text (String.◌∷◌ c s) t = starts_with (String.◌∷◌ c s) t || contains_text s t

without_prefix : String → String → Option String
without_prefix s String.[] = some s
without_prefix String.[] (String.◌∷◌ d p) = none
without_prefix (String.◌∷◌ c s) (String.◌∷◌ d p) =
    if nat_eq (code c) (code d) then without_prefix s p else none

abbrev or_whole : String → Option String → String
or_whole s none = s
or_whole s (some t) = t

-- strings.TrimPrefix
unfoldable pub trim_prefix : String → String → String
unfolding without_prefix
trim_prefix s p = or_whole s (without_prefix s p)

abbrev push_front : Char → List String → List String
push_front c [] = String.◌∷◌ c "" ∷ []
push_front c (w ∷ ws) = String.◌∷◌ c w ∷ ws

-- strings.Split(s, ",")
unfoldable pub split_comma : String → List String
split_comma String.[] = "" ∷ []
split_comma (String.◌∷◌ c s) =
    let rest = split_comma s in if nat_eq (code c) 44 then "" ∷ rest else push_front c rest

-- strings.Join(words, sep)
unfoldable pub join : List String → String → String
join [] sep = ""
join (w ∷ []) sep = w
join (w ∷ v ∷ ws) sep = w +++ sep +++ join (v ∷ ws) sep

abbrev pub NoComma : String → Type 0
NoComma String.[] = Unit
NoComma (String.◌∷◌ c s) = (code c ≢ 44) × NoComma s

-- A text without commas is its own only part.
pub split_comma_of_NoComma : (s : String) → NoComma s → split_comma s ≡ s ∷ []
unfolding split_comma
split_comma_of_NoComma String.[] h = refl
split_comma_of_NoComma (String.◌∷◌ c s) (p, h) = rw (split_comma_of_NoComma s h) (ground arith)

split_comma-cons :
    (c : Char) (s w : String) (ws : List String)
    → code c ≢ 44
    → split_comma s ≡ w ∷ ws
    → split_comma (String.◌∷◌ c s) ≡ String.◌∷◌ c w ∷ ws
unfolding split_comma
split_comma-cons c s w ws p e = ground arith

-- Splitting takes the part before the first comma off.
pub split_comma-append :
    (s t : String) → NoComma s → split_comma (s +++ "," +++ t) ≡ s ∷ split_comma t
split_comma-append String.[] t h =
    rw nil-append (rw cons-append (rw nil-append (unfold split_comma in refl)))
split_comma-append (String.◌∷◌ c s) t (p, h) =
    rw cons-append
      (split_comma-cons c (s +++ "," +++ t) s (split_comma t) p (split_comma-append s t h))

text_tests :
    (has_suffix "assets/" "/" ≡ true)
    × (contains_text "a/scene.json.bak" "scene.json" ≡ true)
    × (trim_prefix "/ipfs/Qm" "/ipfs/" ≡ "Qm")
    × (split_comma "1,-2,," ≡ "1" ∷ "-2" ∷ "" ∷ "" ∷ [])
    × (join ("a" ∷ "b" ∷ []) "?)|(" ≡ "a?)|(b")
unfolding has_suffix contains_text trim_prefix split_comma join
text_tests = (refl, refl, refl, refl, refl)

pub NoComma-append : (s t : String) → NoComma s → NoComma t → NoComma (s +++ t)
NoComma-append String.[] t h k = rw nil-append k
NoComma-append (String.◌∷◌ c s) t (p, h) k = rw cons-append (p, NoComma-append s t h k)

-- Whether a text holds a comma, as "x,y" does and a CID does not.
unfoldable pub has_comma : String → Bool
has_comma String.[] = false
has_comma (String.◌∷◌ c s) = nat_eq (code c) 44 || has_comma s

has_comma-cons : (c : Char) (s : String) → has_comma s ≡ true → has_comma (String.◌∷◌ c s) ≡ true
unfolding has_comma
has_comma-cons c s h = ground arith

pub has_comma-append : (s t : String) → has_comma (s +++ "," +++ t) ≡ true
has_comma-append String.[] t = rw (nil-append, cons-append) (unfold has_comma in refl)
has_comma-append (String.◌∷◌ c s) t = rw cons-append (has_comma-cons c _ (has_comma-append s t))

pub NoComma-of_has_comma : (s : String) → has_comma s ≡ false → NoComma s
unfolding has_comma
NoComma-of_has_comma String.[] h = tt
NoComma-of_has_comma (String.◌∷◌ c s) h = (ground arith, NoComma-of_has_comma s (ground arith))

-- The first part is empty, before a comma, or begins with the first character.
pub split_comma-first :
    (c : Char) (s a : String) (ws : List String)
    → split_comma (String.◌∷◌ c s) ≡ a ∷ ws
    → (a ≡ "") ⊎ ((w : String) × (a ≡ String.◌∷◌ c w))
unfolding split_comma
split_comma-first c s a ws h = elim (Bool-cases (nat_eq (code c) 44)) [
  | inl comma ↦ let h' = rw comma at h in inl (cc)
  | inr other ↦ pushed (split_comma s) (rw other at h)
]
  where
    pushed :
        (rest : List String)
        → push_front c rest ≡ a ∷ ws
        → (a ≡ "") ⊎ ((w : String) × (a ≡ String.◌∷◌ c w))
    pushed [] e = inr ("", cc)
    pushed (w ∷ rest) e = inr (w, cc)

size : String → ℕ
size String.[] = 0
size (String.◌∷◌ c s) = suc (size s)

drop : ℕ → String → String
drop zero s = s
drop (suc n) String.[] = String.[]
drop (suc n) (String.◌∷◌ c s) = drop n s

drop-append : (p s : String) → drop (size p) (p +++ s) ≡ s
unfolding drop size
drop-append String.[] s = rw nil-append refl
drop-append (String.◌∷◌ c p) s = rw cons-append (drop-append p s)

-- Texts with one prefix are equal if what follows it is.
pub append_cancel : (p s t : String) → p +++ s ≡ p +++ t → s ≡ t
append_cancel p s t e = sym (drop-append p s) ∙ ap (drop (size p)) e ∙ drop-append p t

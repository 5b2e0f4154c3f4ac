-- ===== src/Prelude/Decimal/First.antt =====
-- The first character of a printed number.
use Prim.Native.Char.{code}
use Prim.Native.Nat.{suc}
use Prim.Native.String
use Prim.Native.String.{String}
use mathlib.Core.Path.{◌≡◌, refl}
use mathlib.Core.Bool.{true, ◌||◌, ◌&&◌}
use text.Mathlib.TextLemmas.{cons-append}
use native.Mathlib.Omega.{arith}
use content_service.Prelude.Tests.{nat_eq, leb}
use content_service.Prelude.Int.{ℤ, pos, negsuc}
use content_service.Prelude.Decimal.{show_ℤ, show_ℕ, Leads, digits-Leads}

-- The text begins with a digit or a sign.
abbrev pub Begins : String → Type 0
Begins String.[] = ⊥
Begins (String.◌∷◌ c s) =
    ((leb 48 (code c) && leb (code c) 57) || (nat_eq (code c) 45 || nat_eq (code c) 43)) ≡ true

Begins-of_Leads : (s : String) → Leads s → Begins s
Begins-of_Leads String.[] h = h
Begins-of_Leads (String.◌∷◌ c s) h = ground arith

pub Begins-append : (s t : String) → Begins s → Begins (String.◌++◌ s t)
Begins-append String.[] t h = absurd h
Begins-append (String.◌∷◌ c s) t h = rw cons-append h

pub show_ℤ-Begins : (a : ℤ) → Begins (show_ℤ a)
unfolding show_ℤ show_ℕ
show_ℤ-Begins (pos n) = Begins-of_Leads (show_ℕ n) (digits-Leads (suc n) n (omega arith))
show_ℤ-Begins (negsuc n) = refl

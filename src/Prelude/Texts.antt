-- ===== src/Prelude/Texts.antt =====
-- Go strings as the lists of their bytes, and their equality test.
use Prim.Native.Nat.{ℕ}
use mathlib.Core.Option.{Option, none, some}
use mysnapshotter.Prelude.Tests.{eqb, if◌then◌else◌}
use Prim.Native.Char.{code}
use Prim.Native.String.{String}
use mathlib.Core.Path.{◌≡◌, refl}
use mathlib.Core.Logic.{◌↔◌}
use mathlib.Core.Bool.{Bool, true, false}
use mathlib.Core.List.{List, [], ◌∷◌}
use native.Mathlib.Decide.{ℕ_discrete}
use native.Mathlib.Omega.{arith}

abbrev pub Text : Type 0
Text = List ℕ

-- The bytes of an ASCII literal.
abbrev pub codes : String → Text
codes String.[] = []
codes (String.◌∷◌ c s) = code c ∷ codes s

unfoldable pub text_dec : Discrete Text
unfolding ℕ_discrete
text_dec = hlevel ℕ_discrete

-- `a == b` of Go strings. A split on it gives the equation or its negation.
infix 50 ◌==◌
abbrev pub ◌==◌ : Text → Text → Bool
a == b = elim (text_dec a b) [ yes _ ↦ true | no _ ↦ false ]

pub ==_iff : (a b : Text) → ((a == b) ≡ true) ↔ (a ≡ b)
==_iff a b = ground arith

pub ==_refl : (a : Text) → (a == a) ≡ true
==_refl a = (==_iff a a).1 refl

-- `strings.CutPrefix`: the rest of the text, if it begins with the prefix.
unfoldable pub cut_prefix : Text → Text → Option Text
cut_prefix [] s = some s
cut_prefix (c ∷ prefix) [] = none
cut_prefix (c ∷ prefix) (b ∷ s) = let rest = cut_prefix prefix s in if eqb c b then rest else none

-- ===== src/Base/Texts.antt =====
-- Go strings as lists of bytes, with the functions of `strings` that the program calls.
use Prim.Native.Nat.{ℕ}
use Prim.Native.Char.{code}
use Prim.Native.String.{String}
use mathlib.Core.Bool.{Bool, true, false}
use mathlib.Core.List.{[], List, ◌∷◌}
use native.Mathlib.Decide.{ℕ_discrete}
use ovcp.Base.Tests.{is_yes}

abbrev pub Text : Type 0
Text = List ℕ

-- The bytes of an ASCII literal.
abbrev pub codes : String → Text
codes String.[] = []
codes (String.◌∷◌ c s) = code c ∷ codes s

unfoldable pub text_discrete : Discrete Text
unfolding ℕ_discrete
text_discrete = hlevel ℕ_discrete

-- `a == b` on strings.
abbrev pub text_eq : Text → Text → Bool
text_eq a b = is_yes (text_discrete a b)

abbrev pub is_empty : Text → Bool
is_empty [] = true
is_empty (c ∷ cs) = false

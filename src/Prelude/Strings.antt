-- ===== src/Prelude/Strings.antt =====
-- Go strings as lists of code points: every string of the program comes out of a JSON decoder, a
-- database column or a literal, so it is valid UTF-8.
use Prim.Native.Nat.{ℕ}
use Prim.Native.Char.{code}
use Prim.Native.String.{String}
use native.Mathlib.Decide.{ℕ_discrete}
use mathlib.Core.Bool.{Bool, true, false}
use mathlib.Core.List.{List, [], ◌∷◌}

abbrev pub Text : Type 0
Text = List ℕ

-- A literal.
abbrev pub text : String → Text
text String.[] = []
text (String.◌∷◌ c s) = code c ∷ text s

unfoldable pub Text-discrete : Discrete Text
unfolding ℕ_discrete
Text-discrete = hlevel ℕ_discrete

-- `a == b` on strings.
abbrev pub text_eq : Text → Text → Bool
text_eq a b = elim (Text-discrete a b) [ yes _ ↦ true | no _ ↦ false ]

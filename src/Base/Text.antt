-- ===== src/Base/Text.antt =====
-- Python's str: a list of code points.
use Prim.Native.Nat.{ℕ}
use mathlib.Core.List.{List}
use native.Mathlib.Decide.{ℕ_discrete}

abbrev pub Text : Type 0
Text = List ℕ

unfoldable pub Text-discrete : Discrete Text
unfolding ℕ_discrete
Text-discrete = hlevel ℕ_discrete

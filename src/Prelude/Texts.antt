-- ===== src/Prelude/Texts.antt =====
-- A std::string is the list of its character codes.
use Prim.Native.Nat.{ℕ}
use Prim.Native.Char.{code}
use Prim.Native.String.{String}
use mathlib.Core.Path.{◌≡◌, refl}
use mathlib.Core.Bool.{Bool, true, false}
use mathlib.Core.List.{List, [], ◌∷◌}
use native.Mathlib.Decide.{ℕ_discrete}
use native.Mathlib.Omega.{arith}

abbrev pub Text : Type 0
Text = List ℕ

abbrev pub codes : String → Text
codes String.[] = []
codes (String.◌∷◌ c s) = code c ∷ codes s

unfoldable pub Text-discrete : Discrete Text
unfolding ℕ_discrete
Text-discrete = hlevel ℕ_discrete

-- The test `a == b` on std::string.
abbrev pub text_eq : Text → Text → Bool
text_eq a b = elim (Text-discrete a b) [ yes _ ↦ true | no _ ↦ false ]

-- std::string::empty
abbrev pub is_empty : Text → Bool
is_empty [] = true
is_empty (_ ∷ _) = false

pub text_eq_refl : (a : Text) → text_eq a a ≡ true
text_eq_refl a = ground arith

pub text_eq_sym : (a b : Text) → text_eq a b ≡ text_eq b a
text_eq_sym a b = ground arith

test_eq : text_eq (codes "ab") (codes "ab") ≡ true
unfolding Text-discrete
test_eq = refl

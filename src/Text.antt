-- ===== src/Text.antt =====
-- Go's strings and the functions of package `strings` that the program calls. A text is the list of
-- its code points (the strings of the program are valid UTF-8, so that a byte-wise search,
-- comparison or trim of them is one on code points).
pub mod Trim
pub mod Search
pub mod Split
pub mod Case
pub mod Order
use Prim.Native.Char.{code}
use cupboard.Prelude.{
  ℕ, String, Bool, true, false, ◌&&◌, List, [], ◌∷◌, ◌≡◌, refl, ◌↔◌, arith, ◌==◌ as nat_eq,
}
use mathlib.Core.Path.{ap₂}

abbrev pub Text : Type 0
Text = List ℕ

-- The code points of a literal.
abbrev pub codes : String → Text
codes String.[] = []
codes (String.◌∷◌ first rest) = code first ∷ codes rest

infix 50 ◌==◌
unfoldable pub ◌==◌ : Text → Text → Bool
[] == [] = true
[] == (d ∷ t) = false
(c ∷ s) == [] = false
(c ∷ s) == (d ∷ t) = nat_eq c d && s == t

eq_of_test : (s t : Text) → (s == t) ≡ true → s ≡ t
unfolding ◌==◌
eq_of_test [] [] h = refl
eq_of_test [] (d ∷ t) h = ground arith
eq_of_test (c ∷ s) [] h = ground arith
eq_of_test (c ∷ s) (d ∷ t) h = ground (arith, eq_of_test s t)

-- A text is equal to itself by the test.
pub eq_refl : (s : Text) → (s == s) ≡ true
unfolding ◌==◌
eq_refl [] = refl
eq_refl (c ∷ s) = ground (arith, eq_refl s)

pub eq_iff : (s t : Text) → ((s == t) ≡ true) ↔ (s ≡ t)
eq_iff s t = (eq_of_test s t, λ e. rw e (eq_refl t))

-- ===== src/Text/Order.antt =====
-- Go's `<` on strings.
use cupboard.Prelude.{Bool, true, false, ◌&&◌, ◌||◌, [], ◌∷◌, ◌≡◌, refl, arith, ltb, ◌==◌ as nat_eq}
use cupboard.Text.{Text}

unfoldable pub lt : Text → Text → Bool
lt s [] = false
lt [] (d ∷ t) = true
lt (c ∷ s) (d ∷ t) = ltb c d || (nat_eq c d && lt s t)

pub lt_irrefl : (s : Text) → lt s s ≡ false
unfolding lt
lt_irrefl [] = refl
lt_irrefl (c ∷ s) = ground (arith, lt_irrefl s)

pub lt_trans : (r s t : Text) → lt r s ≡ true → lt s t ≡ true → lt r t ≡ true
unfolding lt
lt_trans [] [] [] p q = ground arith
lt_trans [] [] (e ∷ t) p q = ground arith
lt_trans [] (d ∷ s) [] p q = ground arith
lt_trans [] (d ∷ s) (e ∷ t) p q = refl
lt_trans (c ∷ r) [] [] p q = ground arith
lt_trans (c ∷ r) [] (e ∷ t) p q = ground arith
lt_trans (c ∷ r) (d ∷ s) [] p q = ground arith
lt_trans (c ∷ r) (d ∷ s) (e ∷ t) p q = ground (arith, lt_trans r s t)

-- Two texts of which neither is below the other are equal.
pub eq_of_not_lt : (s t : Text) → lt s t ≡ false → lt t s ≡ false → s ≡ t
unfolding lt
eq_of_not_lt [] [] p q = refl
eq_of_not_lt [] (d ∷ t) p q = ground arith
eq_of_not_lt (c ∷ s) [] p q = ground arith
eq_of_not_lt (c ∷ s) (d ∷ t) p q = ground (arith, eq_of_not_lt s t)

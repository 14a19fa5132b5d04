-- ===== src/Prelude/Int.antt =====
-- Signed integers over the native numbers, and the subtraction of Go's 64-bit `int`.
use cupboard.Prelude.{
  ℕ, suc, ◌+◌, ◌-◌, ◌*◌, ◌%◌, ◌^◌, ◌≤◌, ◌<◌, ◌≡◌, Bool, true, false, arith, ltb, leb, if◌then◌else◌,
  ◌&&◌,
}

-- `negsuc n` is -(n + 1).
pub data ℤ : Type 0 where
  pos : ℕ → ℤ
  negsuc : ℕ → ℤ

abbrev pub pos_part : ℤ → ℕ
pos_part (pos n) = n
pos_part (negsuc n) = 0

abbrev pub neg_part : ℤ → ℕ
neg_part (pos n) = 0
neg_part (negsuc n) = suc n

abbrev pub is_neg : ℤ → Bool
is_neg (pos n) = false
is_neg (negsuc n) = true

-- `a < b`
abbrev pub ltb_ℤ : ℤ → ℤ → Bool
ltb_ℤ a b = ltb (pos_part a + neg_part b) (pos_part b + neg_part a)

abbrev pub eq_ℤ : ℤ → ℤ → Bool
eq_ℤ (pos a) (pos b) = leb a b && leb b a
eq_ℤ (negsuc a) (negsuc b) = leb a b && leb b a
eq_ℤ _ _ = false

-- The bit pattern of an integer in two's complement, and the integer that a pattern stands for.
abbrev to_bits : ℤ → ℕ
to_bits (pos n) = n % 2 ^ 64
to_bits (negsuc n) = 2 ^ 64 - 1 - n % 2 ^ 64

abbrev of_bits : ℕ → ℤ
of_bits b = if ltb b (2 ^ 63) then pos b else negsuc (2 ^ 64 - 1 - b)

-- `a - b` on 64-bit integers
infixl 65 ◌-ℤ◌
unfoldable pub ◌-ℤ◌ : ℤ → ℤ → ℤ
a -ℤ b = of_bits ((to_bits a + 2 ^ 64 - to_bits b) % 2 ^ 64)

-- `a * b` on 64-bit integers, for a number b that is not negative
infixl 70 ◌*ℤ◌
unfoldable pub ◌*ℤ◌ : ℤ → ℕ → ℤ
a *ℤ b = of_bits (to_bits a * b % 2 ^ 64)

-- A number and an integer, added without a bound.
unfoldable pub plus : ℕ → ℤ → ℤ
plus n (pos d) = pos (n + d)
plus n (negsuc d) = if ltb d n then pos (n - suc d) else negsuc (d - n)

-- Half the range of `int`: the difference of two such numbers is in range.
abbrev pub IsSmall : ℤ → Type 0
IsSmall a = (pos_part a < 2 ^ 62) × (neg_part a ≤ 2 ^ 62)

-- The sign of the difference of two small integers is that of their order.
pub is_neg-sub : (a b : ℤ) → IsSmall a → IsSmall b → is_neg (a -ℤ b) ≡ ltb_ℤ a b
unfolding ◌-ℤ◌
is_neg-sub (pos a) (pos b) (p, _) (q, _) = ground arith
is_neg-sub (pos a) (negsuc b) (p, _) (_, q) = ground arith
is_neg-sub (negsuc a) (pos b) (_, p) (q, _) = ground arith
is_neg-sub (negsuc a) (negsuc b) (_, p) (_, q) = ground arith

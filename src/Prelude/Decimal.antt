-- ===== src/Prelude/Decimal.antt =====
-- `fmt`'s `%d` for numbers that are not negative.
use cupboard.Prelude.{ℕ, zero, suc, ◌+◌, ◌/◌, ◌%◌, [], ◌∷◌, List, ltb, if◌then◌else◌}

-- The last digit is written first; a number has at most as many digits as its value and one.
write : ℕ → ℕ → List ℕ → List ℕ
write zero n out = out
write (suc f) n out =
    let rest = write f (n / 10) ((b'0' + n % 10) ∷ out) in
    if ltb n 10 then (b'0' + n) ∷ out else rest

unfoldable pub format : ℕ → List ℕ
unfolding write
format n = write (suc n) n []

-- ===== src/Text/Case.antt =====
-- `strings.ToLower` and `strings.EqualFold`. Go's tables for characters beyond ASCII are a
-- parameter; those for ASCII are written out.
use cupboard.Prelude.{ℕ, ◌+◌, Bool, true, ◌&&◌, map, ltb, leb, if◌then◌else◌, ◌≡◌, refl}
use cupboard.Text.{Text, ◌==◌, eq_iff}

pub record Unicode : Type 0 where
  -- `unicode.ToLower` of a character above 127
  pub to_lower_rune : ℕ → ℕ
  -- one representative of each orbit of `unicode.SimpleFold`, of a character above 127
  pub fold_rune : ℕ → ℕ

ascii_lower : ℕ → ℕ
ascii_lower c = if leb b'A' c && leb c b'Z' then c + 32 else c

module _ ⦃u : Unicode⦄ where
  lower_rune : ℕ → ℕ
  unfolding ascii_lower
  lower_rune c = if ltb c 128 then ascii_lower c else u.to_lower_rune c

  fold : ℕ → ℕ
  unfolding ascii_lower
  fold c = if ltb c 128 then ascii_lower c else u.fold_rune c

  unfoldable pub to_lower : Text → Text
  unfolding lower_rune
  to_lower s = map lower_rune s

  unfoldable pub equal_fold : Text → Text → Bool
  unfolding fold
  equal_fold s t = map fold s == map fold t

  pub equal_fold_refl : (s : Text) → equal_fold s s ≡ true
  unfolding equal_fold
  equal_fold_refl s = (eq_iff _ _).1 refl

-- ===== src/Text/Trim.antt =====
-- `strings.TrimSpace` and `strings.TrimRight`.
use cupboard.Prelude.{
  ℕ, Bool, true, false, ◌&&◌, ◌||◌, [], ◌∷◌, ◌≡◌, refl, arith, leb, ◌==◌ as nat_eq, if◌then◌else◌,
  Bool-cases, inl, inr,
}
use cupboard.Text.{Text, ◌==◌}

-- `unicode.IsSpace`
unfoldable pub is_space : ℕ → Bool
is_space c =
    (leb 9 c && leb c 13)
    || nat_eq c 0x20
    || nat_eq c 0x85
    || nat_eq c 0xa0
    || nat_eq c 0x1680
    || (leb 0x2000 c && leb c 0x200a)
    || nat_eq c 0x2028
    || nat_eq c 0x2029
    || nat_eq c 0x202f
    || nat_eq c 0x205f
    || nat_eq c 0x3000

abbrev is_nil : Text → Bool
is_nil [] = true
is_nil (c ∷ s) = false

module _ (p : ℕ → Bool) where
  trim_left_by : Text → Text
  trim_left_by [] = []
  trim_left_by (c ∷ s) = if p c then trim_left_by s else c ∷ s

  unfoldable pub trim_right_by : Text → Text
  trim_right_by [] = []
  trim_right_by (c ∷ s) = let rest = trim_right_by s in if is_nil rest && p c then [] else c ∷ rest

  unfoldable pub trim_by : Text → Text
  unfolding trim_left_by trim_right_by
  trim_by s = trim_right_by (trim_left_by s)

  trim_right_by_idem : (s : Text) → trim_right_by (trim_right_by s) ≡ trim_right_by s
  unfolding trim_right_by
  trim_right_by_idem [] = refl
  trim_right_by_idem (c ∷ s) = ground (arith, trim_right_by_idem s)

  -- A text that does not start with a trimmed character.
  abbrev StartsKept : Text → Type 0
  StartsKept [] = Unit
  StartsKept (c ∷ s) = p c ≡ false

  trim_left_by_starts : (s : Text) → StartsKept (trim_left_by s)
  unfolding trim_left_by
  trim_left_by_starts [] = tt
  trim_left_by_starts (c ∷ s) = elim (Bool-cases (p c)) [
    | inl e ↦ rw e (trim_left_by_starts s)
    | inr e ↦ rw e e
  ]

  trim_right_by_starts : (s : Text) → StartsKept s → StartsKept (trim_right_by s)
  unfolding trim_right_by
  trim_right_by_starts [] h = tt
  trim_right_by_starts (c ∷ s) h = ground arith

  trim_left_by_kept : (s : Text) → StartsKept s → trim_left_by s ≡ s
  unfolding trim_left_by
  trim_left_by_kept [] h = refl
  trim_left_by_kept (c ∷ s) h = rw h

  -- Trimming a trimmed text changes nothing.
  pub trim_by_idem : (s : Text) → trim_by (trim_by s) ≡ trim_by s
  unfolding trim_by
  trim_by_idem s =
      rw (trim_left_by_kept _ (trim_right_by_starts _ (trim_left_by_starts s)))
        (trim_right_by_idem (trim_left_by s))

-- `strings.TrimSpace`
unfoldable pub trim_space : Text → Text
unfolding trim_by is_space
trim_space s = trim_by is_space s

pub trim_space_idem : (s : Text) → trim_space (trim_space s) ≡ trim_space s
trim_space_idem s = unfold trim_space in trim_by_idem is_space s

-- `strings.TrimSpace(s) == ""`
unfoldable pub is_blank : Text → Bool
is_blank s = trim_space s == []

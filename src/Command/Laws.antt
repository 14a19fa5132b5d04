-- ===== src/Command/Laws.antt =====
-- The lists of a comma-separated flag.
use cupboard.Prelude.{false, List, [], ◌∷◌, ◌≡◌, ◌≢◌, ◌↔◌, arith, inl, inr, Bool-cases}
use cupboard.Prelude.Lists.{Any}
use cupboard.Text.{Text, ◌==◌, eq_iff}
use cupboard.Text.Trim.{trim_space}
use cupboard.Text.Split.{split}
use cupboard.Command.Flags.{split_comma_flag, not_blank}

not_blank_in :
    (v : Text) (parts : List Text)
    → Any (λ x. x ≡ v) (not_blank parts)
    → (v ≢ []) × Any (λ part. trim_space part ≡ v) parts
unfolding not_blank
not_blank_in v [] i = absurd i
not_blank_in v (part ∷ parts) i = elim (Bool-cases (trim_space part == [])) [
  | inl e ↦
      let k : (v ≢ []) × Any (λ x. trim_space x ≡ v) parts =
        not_blank_in v parts (rw (not_blank, e) at i) in
      (k.0, inr k.1)
  | inr e ↦ elim (rw (not_blank, e) at i) [
    | inl same ↦ ((λ z. absurd (ground (arith, eq_iff (trim_space part) []))), inl same)
    | inr later ↦
        let k : (v ≢ []) × Any (λ x. trim_space x ≡ v) parts = not_blank_in v parts later in
        (k.0, inr k.1)
  ]
]

not_blank_of :
    (v : Text) (parts : List Text)
    → v ≢ []
    → Any (λ part. trim_space part ≡ v) parts
    → Any (λ x. x ≡ v) (not_blank parts)
unfolding not_blank
not_blank_of v [] n i = i
not_blank_of v (part ∷ parts) n (inl same) =
    let e : (trim_space part == []) ≡ false = ground (arith, eq_iff (trim_space part) []) in
    rw (not_blank, e) (inl same)
not_blank_of v (part ∷ parts) n (inr i) = elim (Bool-cases (trim_space part == [])) [
  | inl e ↦ rw (not_blank, e) (not_blank_of v parts n i)
  | inr e ↦ rw (not_blank, e) (inr (not_blank_of v parts n i))
]

-- A comma-separated flag gives the parts between commas that are not blank, trimmed.
split_comma_flag_iff :
    (s v : Text)
    → Any (λ x. x ≡ v) (split_comma_flag s)
      ↔ ((v ≢ []) × Any (λ part. trim_space part ≡ v) (split s b','))
unfolding split_comma_flag
split_comma_flag_iff s v =
    (not_blank_in v (split s b','), λ h. not_blank_of v (split s b',') h.0 h.1)

-- ===== src/Text/Split.antt =====
-- `strings.Split` and `strings.Cut` at a separator of one character.
use cupboard.Prelude.{
  ℕ, [], ◌∷◌, ◌++◌, List, Option, none, some, ◌≡◌, ◌≢◌, arith, ◌==◌ as nat_eq, if◌then◌else◌,
}
use cupboard.Prelude.Lists.{All}
use cupboard.Text.{Text}

-- The character on the first part.
unfoldable pub on_first : ℕ → List Text → List Text
on_first c [] = (c ∷ []) ∷ []
on_first c (part ∷ parts) = (c ∷ part) ∷ parts

-- `Split(s, sep)`, `SplitSeq(s, sep)`
unfoldable pub split : Text → ℕ → List Text
unfolding on_first
split [] sep = [] ∷ []
split (c ∷ s) sep = let rest = split s sep in if nat_eq c sep then [] ∷ rest else on_first c rest

abbrev pub Lacks : ℕ → Text → Type 0
Lacks b = All (λ c. c ≢ b)

on_first-Lacks :
    (sep c : ℕ) (parts : List Text)
    → c ≢ sep
    → All (Lacks sep) parts
    → All (Lacks sep) (on_first c parts)
unfolding on_first
on_first-Lacks sep c [] h _ = ((h, tt), tt)
on_first-Lacks sep c (p ∷ parts) h (hp, hs) = ((h, hp), hs)

-- No part holds the separator.
pub split-Lacks : (s : Text) (sep : ℕ) → All (Lacks sep) (split s sep)
unfolding split
split-Lacks [] sep = (tt, tt)
split-Lacks (c ∷ s) sep = grind (arith, split-Lacks s sep, on_first-Lacks)

push_front : ℕ → Option (Text × Text) → Option (Text × Text)
push_front c none = none
push_front c (some (before, after)) = some (c ∷ before, after)

-- `Cut(s, sep)`; `none` is the result with `found == false`.
unfoldable pub cut : Text → ℕ → Option (Text × Text)
unfolding push_front
cut [] sep = none
cut (c ∷ s) sep = let rest = push_front c (cut s sep) in if nat_eq c sep then some ([], s) else rest

-- A cut takes one separator out, the first.
pub cut_sound :
    (s : Text) (sep : ℕ) (before after : Text)
    → cut s sep ≡ some (before, after)
    → (s ≡ before ++ sep ∷ after) × Lacks sep before
unfolding cut
cut_sound [] sep before after h = ground arith
cut_sound (c ∷ s) sep [] after h = ground arith
cut_sound (c ∷ s) sep (d ∷ before) after h = ground (arith, cut_sound s sep before after)

-- A text with the separator is cut at the first one.
pub cut-append :
    (before after : Text) (sep : ℕ)
    → Lacks sep before
    → cut (before ++ sep ∷ after) sep ≡ some (before, after)
unfolding cut
cut-append [] after sep h = ground arith
cut-append (c ∷ before) after sep (hc, h) = ground (arith, cut-append before after sep h)

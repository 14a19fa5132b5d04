-- ===== src/Web/Path/Laws.antt =====
-- Joining and cleaning parts that are plain names gives them back, with slashes between.
use cupboard.Prelude.{
  ℕ, Bool, false, List, [], ◌∷◌, ◌++◌, ◌≡◌, refl, ◌∙◌, arith, ◌==◌ as nat_eq, Bool-cases, inl, inr,
  append-nil,
}
use cupboard.Prelude.Lists.{keep, All}
use cupboard.Text.{Text, codes, ◌==◌}
use cupboard.Text.Split.{split, on_first, Lacks}
use cupboard.Web.Path.{join, join_slash, clean_parts, backwards, assemble, clean, is_rooted}

split-cons : (s : Text) (sep : ℕ) → (p : Text) × ((ps : List Text) × (split s sep ≡ p ∷ ps))
unfolding split on_first
split-cons [] sep = ([], ([], refl))
split-cons (c ∷ s) sep = elim (Bool-cases (nat_eq c sep)) [
  | inl e ↦ ([], (split s sep, rw e refl))
  | inr e ↦
      let k : (p : Text) × ((ps : List Text) × (split s sep ≡ p ∷ ps)) = split-cons s sep in
      (c ∷ k.0, (k.1.0, rw (e, k.1.1) refl))
]

on_first-split :
    (c : ℕ) (s : Text) (sep : ℕ) (ys : List Text)
    → on_first c (split s sep ++ ys) ≡ on_first c (split s sep) ++ ys
unfolding on_first
on_first-split c s sep ys = rw (split-cons s sep).1.1 refl

join_slash-on_first :
    (c : ℕ) (p : Text) (ps : List Text) → join_slash (on_first c (p ∷ ps)) ≡ c ∷ join_slash (p ∷ ps)
unfolding on_first join_slash
join_slash-on_first c p [] = refl
join_slash-on_first c p (q ∷ ps) = refl

join_slash-split_cons :
    (c : ℕ) (s : Text)
    → (join_slash (on_first c (split s b'/')) ≡ c ∷ join_slash (split s b'/'))
      × (join_slash ([] ∷ split s b'/') ≡ b'/' ∷ join_slash (split s b'/'))
join_slash-split_cons c s =
    rw (split-cons s b'/').1.1 (
      join_slash-on_first c (split-cons s b'/').0 (split-cons s b'/').1.0,
      unfold join_slash in refl,
    )

-- The parts of two texts with a slash between.
pub split-slash : (s t : Text) → split (s ++ b'/' ∷ t) b'/' ≡ split s b'/' ++ split t b'/'
unfolding split
split-slash [] t = refl
split-slash (c ∷ s) t = ground (arith, split-slash s t, on_first-split c s b'/' (split t b'/'))

-- The parts of a text, joined.
pub join_slash-split : (s : Text) → join_slash (split s b'/') ≡ s
unfolding split
join_slash-split [] = unfold join_slash in refl
join_slash-split (c ∷ s) = ground (arith, join_slash-split s, join_slash-split_cons c s)

pub split_one : (s : Text) → Lacks b'/' s → split s b'/' ≡ s ∷ []
unfolding split on_first
split_one [] h = refl
split_one (c ∷ s) (n, h) = ground (arith, split_one s h)

-- A part that `Clean` keeps.
abbrev pub IsPlain : Text → Type 0
IsPlain part =
    ((part == []) ≡ false) × ((part == codes ".") ≡ false) × ((part == codes "..") ≡ false)

pub clean_parts-plain :
    (rooted : Bool) (out parts : List Text)
    → All IsPlain parts
    → clean_parts rooted out parts ≡ backwards parts out
unfolding clean_parts backwards
clean_parts-plain rooted out [] h = refl
clean_parts-plain rooted out (p ∷ parts) ((e, d, f), h) =
    rw (e, d, f) (clean_parts-plain rooted (p ∷ out) parts h)

backwards_twice :
    (parts out back : List Text)
    → backwards (backwards parts out) back ≡ backwards out (parts ++ back)
unfolding backwards
backwards_twice [] out back = refl
backwards_twice (p ∷ parts) out back = backwards_twice parts (p ∷ out) back

assemble-split : (s : Text) → assemble false (split s b'/') ≡ s
unfolding assemble
assemble-split s = same ∙ join_slash-split s
  where
    same : assemble false (split s b'/') ≡ join_slash (split s b'/')
    same = rw (split-cons s b'/').1.1 refl

-- A path without a leading slash, of parts that are plain, is clean.
pub clean_plain : (s : Text) → is_rooted s ≡ false → All IsPlain (split s b'/') → clean s ≡ s
unfolding clean
clean_plain s r h =
    rw
      (
        r,
        clean_parts-plain false [] (split s b'/') h,
        backwards_twice (split s b'/') [] [],
        append-nil (split s b'/'),
      )
      (unfold backwards in assemble-split s)

-- Joining three parts that are not empty.
pub join_three :
    (a b c : Text)
    → (a == []) ≡ false
    → (b == []) ≡ false
    → (c == []) ≡ false
    → join (a ∷ b ∷ c ∷ []) ≡ clean (a ++ b'/' ∷ (b ++ b'/' ∷ c))
unfolding join ◌==◌ keep join_slash
join_three [] b c k l m = absurd (cc)
join_three (x ∷ a) [] c k l m = absurd (cc)
join_three (x ∷ a) (y ∷ b) [] k l m = absurd (cc)
join_three (x ∷ a) (y ∷ b) (z ∷ c) k l m = refl

-- ===== src/Text/Search.antt =====
-- `strings.HasPrefix`, `strings.Index`, `strings.Contains`, `strings.TrimPrefix` and
-- `strings.TrimSuffix`.
use cupboard.Prelude.{
  ℕ, zero, suc, Bool, true, false, ◌&&◌, [], ◌∷◌, ◌++◌, Option, none, some, ◌≡◌, refl, ap, arith,
  ◌==◌ as nat_eq, if◌then◌else◌,
}
use cupboard.Prelude.Lists.{length, take, drop}
use cupboard.Text.{Text, ◌==◌}

-- `HasPrefix(s, t)`
unfoldable pub has_prefix : Text → Text → Bool
has_prefix s [] = true
has_prefix [] (d ∷ t) = false
has_prefix (c ∷ s) (d ∷ t) = nat_eq c d && has_prefix s t

has_prefix_sound : (s t : Text) → has_prefix s t ≡ true → t ++ drop (length t) s ≡ s
unfolding has_prefix
has_prefix_sound s [] h = refl
has_prefix_sound [] (d ∷ t) h = ground arith
has_prefix_sound (c ∷ s) (d ∷ t) h = ground (arith, has_prefix_sound s t)

-- A text has every text that it starts with as a prefix.
pub has_prefix-append : (t s : Text) → has_prefix (t ++ s) t ≡ true
unfolding has_prefix
has_prefix-append [] s = refl
has_prefix-append (d ∷ t) s = ground (arith, has_prefix-append t s)

succ? : Option ℕ → Option ℕ
succ? none = none
succ? (some i) = some (suc i)

-- `Index(s, t)`; `none` is -1.
unfoldable pub index : Text → Text → Option ℕ
unfolding has_prefix succ?
index [] t = if has_prefix [] t then some 0 else none
index (c ∷ s) t = let later = succ? (index s t) in if has_prefix (c ∷ s) t then some 0 else later

-- What is found at the index is the text that was looked for.
pub index_sound :
    (s t : Text) (i : ℕ) → index s t ≡ some i → take i s ++ t ++ drop (length t) (drop i s) ≡ s
unfolding index
index_sound [] t zero h = has_prefix_sound [] t (ground arith)
index_sound [] t (suc i) h = ground arith
index_sound (c ∷ s) t zero h = has_prefix_sound (c ∷ s) t (ground arith)
index_sound (c ∷ s) t (suc i) h = ap (◌∷◌ c) (index_sound s t i (ground arith))

-- `Contains(s, t)`
unfoldable pub contains : Text → Text → Bool
unfolding index
contains s t = elim (index s t) [ none ↦ false | some i ↦ true ]

-- `TrimPrefix(s, t)`
unfoldable pub trim_prefix : Text → Text → Text
trim_prefix s t = if has_prefix s t then drop (length t) s else s

-- `TrimSuffix(s, t)`: the tail that is `t` is cut off.
unfoldable pub trim_suffix : Text → Text → Text
trim_suffix [] t = []
trim_suffix (c ∷ s) t = let rest = trim_suffix s t in if c ∷ s == t then [] else c ∷ rest

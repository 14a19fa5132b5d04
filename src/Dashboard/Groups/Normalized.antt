-- ===== src/Dashboard/Groups/Normalized.antt =====
-- What `normalizedGroups` returns.
use cupboard.Prelude.{
  true, false, List, [], ◌∷◌, ◌++◌, none, some, ◌≡◌, ◌↔◌, refl, sym, ◌∙◌, arith, if◌then◌else◌,
  append_assoc, append-nil, Bool-cases, inl, inr,
}
use cupboard.Prelude.Lists.{All, Any, All-append}
use cupboard.Text.{Text, codes, ◌==◌, eq_iff}
use cupboard.Text.Trim.{trim_space, trim_space_idem}
use cupboard.Text.Split.{split}
use cupboard.Any.{Any as Value, as_string}
use cupboard.Sort.Determinism.{Distinct}
use cupboard.Dashboard.Groups.{
  member, add_group, add_groups, add_value, add_values, normalized_groups, group_set, RawGroups,
  strings, values, text, other,
}
use cupboard.Dashboard.Groups.Access.{HasGroup, member_iff, group_set_iff}

abbrev strings_of : List Value → List Text
strings_of [] = []
strings_of (v ∷ vs) =
    let rest = strings_of vs in elim (as_string v) [ none ↦ rest | some s ↦ s ∷ rest ]

-- The names that a claim gives: the strings of a list, or the parts of a text between commas.
abbrev pub names_of : RawGroups → List Text
names_of (strings value) = value
names_of (values value) = strings_of value
names_of (text value) = split value b','
names_of other = []

add_values-groups :
    (gs : List Text) (vs : List Value) → add_values gs vs ≡ add_groups gs (strings_of vs)
unfolding add_values add_value add_groups
add_values-groups gs [] = refl
add_values-groups gs (v ∷ vs) =
    elim (as_string v)
      as (λ o.
        add_values (elim o as (λ _. List Text) [ none ↦ gs | some group ↦ add_group gs group ]) vs
        ≡ add_groups gs
            (elim o as (λ _. List Text) [ none ↦ strings_of vs | some s ↦ s ∷ strings_of vs ])) [
              | none ↦ add_values-groups gs vs
              | some s ↦ add_values-groups (add_group gs s) vs
            ]

normalized_groups-names : (raw : RawGroups) → normalized_groups raw ≡ add_groups [] (names_of raw)
unfolding normalized_groups add_groups
normalized_groups-names (strings value) = refl
normalized_groups-names (values value) = add_values-groups [] value
normalized_groups-names (text value) = refl
normalized_groups-names other = refl

member-snoc :
    (s t : Text) (gs : List Text) → member s (gs ++ t ∷ []) ≡ (if member s gs then true else t == s)
unfolding member
member-snoc s t [] = ground arith
member-snoc s t (g ∷ gs) = ground (arith, member-snoc s t gs)

member-add_groups :
    (s : Text) (gs ts : List Text)
    → member s (add_groups gs ts) ≡ (if member s gs then true else member s (group_set ts))
unfolding add_groups add_group group_set member
member-add_groups s gs [] = ground arith
member-add_groups s gs (t ∷ ts) = ground (
  arith,
  member-add_groups s gs ts,
  member-add_groups s (gs ++ trim_space t ∷ []) ts,
  member-snoc s (trim_space t) gs,
  eq_iff (trim_space t) s,
)

-- The groups are the names that are not blank, with the space around them cut off.
pub normalized_groups_iff :
    (raw : RawGroups) (g : Text)
    → Any (λ x. x ≡ g) (normalized_groups raw) ↔ HasGroup (names_of raw) g
unfolding member
normalized_groups_iff raw g = rw normalized_groups-names (
    ground (
      arith,
      member_iff g (add_groups [] (names_of raw)),
      member-add_groups g [] (names_of raw),
      group_set_iff g (names_of raw),
    ))

-- A list of names as the function returns it: trimmed, not blank, and no name twice.
abbrev pub IsNormal : List Text → Type 0
IsNormal gs = All (λ g. (trim_space g ≡ g) × ((g == codes "") ≡ false)) gs × Distinct (λ g. g) gs

Distinct-snoc :
    (t : Text) (gs : List Text)
    → member t gs ≡ false
    → Distinct (λ g. g) gs
    → Distinct (λ g. g) (gs ++ t ∷ [])
unfolding member
Distinct-snoc t [] h d = (tt, tt)
Distinct-snoc t (g ∷ gs) h (dg, d) = (
  All-append (λ y. (g == y) ≡ false) gs (t ∷ []) dg (ground arith, tt),
  Distinct-snoc t gs (ground arith) d,
)

add_group-IsNormal : (gs : List Text) (t : Text) → IsNormal gs → IsNormal (add_group gs t)
unfolding add_group
add_group-IsNormal gs t (a, d) = elim (Bool-cases (trim_space t == codes "")) [
  | inl e ↦ rw e (a, d)
  | inr e ↦ elim (Bool-cases (member (trim_space t) gs)) [
    | inl m ↦ rw (e, m) (a, d)
    | inr m ↦
        rw (e, m)
          (
            All-append _ gs (trim_space t ∷ []) a ((trim_space_idem t, e), tt),
            Distinct-snoc (trim_space t) gs m d,
          )
  ]
]

pub add_groups-IsNormal : (gs ts : List Text) → IsNormal gs → IsNormal (add_groups gs ts)
unfolding add_groups
add_groups-IsNormal gs [] h = h
add_groups-IsNormal gs (t ∷ ts) h =
    add_groups-IsNormal (add_group gs t) ts (add_group-IsNormal gs t h)

-- The result holds trimmed names that are not blank, none of them twice.
normalized_groups-IsNormal : (raw : RawGroups) → IsNormal (normalized_groups raw)
normalized_groups-IsNormal raw =
    rw normalized_groups-names (add_groups-IsNormal [] (names_of raw) (tt, tt))

-- A name that is not in a list of distinct ones.
IsFresh : List Text → List Text → Type 0
IsFresh gs ts = All (λ t. member t gs ≡ false) ts

nothing-IsFresh : (ts : List Text) → IsFresh [] ts
unfolding IsFresh member
nothing-IsFresh [] = tt
nothing-IsFresh (t ∷ ts) = (refl, nothing-IsFresh ts)

IsFresh-snoc :
    (gs ts : List Text) (t : Text)
    → IsFresh gs ts
    → All (λ y. (t == y) ≡ false) ts
    → IsFresh (gs ++ t ∷ []) ts
unfolding IsFresh
IsFresh-snoc gs [] t h k = tt
IsFresh-snoc gs (x ∷ ts) t (h, hs) (k, ks) =
    (ground (arith, member-snoc x t gs), IsFresh-snoc gs ts t hs ks)

add_groups-normal : (gs ts : List Text) → IsNormal ts → IsFresh gs ts → add_groups gs ts ≡ gs ++ ts
unfolding add_groups add_group IsFresh
add_groups-normal gs [] h f = sym (append-nil gs)
add_groups-normal gs (t ∷ ts) (((e, b), a), (d, ds)) (f, fs) =
    rw (e, b, f)
      (add_groups-normal (gs ++ t ∷ []) ts (a, ds) (IsFresh-snoc gs ts t fs d)
        ∙ append_assoc gs (t ∷ []) ts)

-- Normalising what is normalised changes nothing.
normalized_groups_idem :
    (raw : RawGroups) → normalized_groups (strings (normalized_groups raw)) ≡ normalized_groups raw
normalized_groups_idem raw =
    normalized_groups-names (strings (normalized_groups raw))
    ∙ add_groups-normal [] _ (normalized_groups-IsNormal raw)
        (nothing-IsFresh (normalized_groups raw))

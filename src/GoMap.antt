-- ===== src/GoMap.antt =====
-- Go's `map[string]V` as an association list; the order of the list stands for the order in which
-- `range` visits the map, which Go leaves open. A well-formed map holds each key once.
use cupboard.Prelude.{
  Bool, true, false, List, [], ◌∷◌, Option, none, some, ◌≡◌, refl, arith, if◌then◌else◌, Bool-cases,
  inl, inr,
}
use cupboard.Text.{Text, ◌==◌, eq_iff}

abbrev pub GoMap {ℓ} : Type ℓ → Type ℓ
GoMap V = List (Text × V)

module _ {ℓ} {V : Type ℓ} where
  -- `v, ok := m[key]`
  unfoldable pub lookup : Text → GoMap V → Option V
  lookup key [] = none
  lookup key (entry ∷ rest) = if entry.0 == key then some entry.1 else lookup key rest

  -- `_, ok := m[key]`
  unfoldable pub has : Text → GoMap V → Bool
  has key [] = false
  has key (entry ∷ rest) = if entry.0 == key then true else has key rest

  -- `m[key] = value`
  unfoldable pub insert : Text → V → GoMap V → GoMap V
  insert key value [] = (key, value) ∷ []
  insert key value (entry ∷ rest) =
      let others = insert key value rest in
      if entry.0 == key then (key, value) ∷ rest else entry ∷ others

  -- `delete(m, key)`
  unfoldable pub delete : Text → GoMap V → GoMap V
  delete key [] = []
  delete key (entry ∷ rest) =
      let others = delete key rest in if entry.0 == key then others else entry ∷ others

  pub has-insert :
      (key other : Text) (value : V) (m : GoMap V)
      → has other (insert key value m) ≡ (if key == other then true else has other m)
  unfolding insert has
  has-insert key other value [] = refl
  has-insert key other value (entry ∷ rest) = ground (
    has-insert key other value rest,
    eq_iff entry.0 key,
    eq_iff entry.0 other,
    eq_iff key other,
    arith,
  )

  pub lookup-insert :
      (key other : Text) (value : V) (m : GoMap V)
      → lookup other (insert key value m) ≡ (if key == other then some value else lookup other m)
  unfolding insert lookup
  lookup-insert key other value [] = refl
  lookup-insert key other value (entry ∷ rest) = ground (
    lookup-insert key other value rest,
    eq_iff entry.0 key,
    eq_iff entry.0 other,
    eq_iff key other,
    arith,
  )

  pub lookup-delete :
      (key other : Text) (m : GoMap V)
      → lookup other (delete key m) ≡ (if key == other then none else lookup other m)
  unfolding delete lookup
  lookup-delete key other [] = ground arith
  lookup-delete key other (entry ∷ rest) = ground (
    lookup-delete key other rest,
    eq_iff entry.0 key,
    eq_iff entry.0 other,
    eq_iff key other,
    arith,
  )

  pub has_iff_lookup :
      (key : Text) (m : GoMap V)
      → has key m ≡ elim (lookup key m) [ none ↦ false | some value ↦ true ]
  unfolding has lookup
  has_iff_lookup key [] = refl
  has_iff_lookup key (entry ∷ rest) = ground (arith, has_iff_lookup key rest)

  abbrev pub keys : GoMap V → List Text
  keys [] = []
  keys ((k, v) ∷ m) = k ∷ keys m

  -- Each key stands once.
  abbrev pub IsMap : GoMap V → Type 0
  IsMap [] = Unit
  IsMap ((k, v) ∷ m) = (has k m ≡ false) × IsMap m

  pub insert-IsMap : (k : Text) (v : V) (m : GoMap V) → IsMap m → IsMap (insert k v m)
  unfolding has insert
  insert-IsMap k v [] h = (refl, tt)
  insert-IsMap k v ((j, w) ∷ m) (hj, h) = elim (Bool-cases (j == k)) [
    | inl e ↦ rw (e, ← (eq_iff j k).0 e) (hj, h)
    | inr e ↦
        rw e
          (rw (has-insert k j v m) (ground (arith, eq_iff k j, eq_iff j k)), insert-IsMap k v m h)
  ]

-- ===== src/Sort/Laws.antt =====
-- The sort returns a permutation of its input, ascending and stable.
use mathlib.Core.List.{Perm}
use mathlib.Core.List.Perm
use cupboard.Prelude.{
  Bool, true, false, not, ◌&&◌, List, [], ◌∷◌, ◌≡◌, ◌↔◌, ◌⊎◌, inl, inr, refl, ◌∙◌, arith,
  if◌then◌else◌, Bool-cases,
}
use cupboard.Prelude.Lists.{All, Any, keep}
use cupboard.Text.{Text}
use cupboard.Text.Order.{lt, lt_irrefl, lt_trans, eq_of_not_lt}
use cupboard.Sort.{insert_by, sort_by}

module _ {ℓ} {A : Type ℓ} (less : A → A → Bool) where
  insert_by-perm : (x : A) (ys : List A) → Perm (insert_by less x ys) (x ∷ ys)
  unfolding insert_by
  insert_by-perm x [] = Perm.refl _
  insert_by-perm x (y ∷ ys) = elim (Bool-cases (less y x)) [
    | inl e ↦ rw e (Perm.trans (Perm.cons y (insert_by-perm x ys)) (Perm.swap x y ys))
    | inr e ↦ rw e (Perm.refl _)
  ]

  pub sort_by-perm : (xs : List A) → Perm (sort_by less xs) xs
  unfolding sort_by
  sort_by-perm [] = Perm.refl _
  sort_by-perm (x ∷ xs) =
      Perm.trans (insert_by-perm x (sort_by less xs)) (Perm.cons x (sort_by-perm xs))

  pub insert_by-All {κ} :
      (P : A → Type κ) (x : A) (ys : List A) → P x → All P ys → All P (insert_by less x ys)
  unfolding insert_by
  insert_by-All P x [] px h = (px, tt)
  insert_by-All P x (y ∷ ys) px (py, h) =
      elim (less y x) as (λ b. All P (if b then y ∷ insert_by less x ys else x ∷ y ∷ ys)) [
        | true ↦ (py, insert_by-All P x ys px h)
        | false ↦ (px, (py, h))
      ]

  pub sort_by-All {κ} : (P : A → Type κ) (xs : List A) → All P xs → All P (sort_by less xs)
  unfolding sort_by
  sort_by-All P [] h = tt
  sort_by-All P (x ∷ xs) (px, h) = insert_by-All P x _ px (sort_by-All P xs h)

  insert_by-Any :
      (P : A → Type 0) (x : A) (ys : List A) → Any P (insert_by less x ys) ↔ (P x ⊎ Any P ys)
  unfolding insert_by
  insert_by-Any P x [] = (λ h. h, λ h. h)
  insert_by-Any P x (y ∷ ys) =
      let (down, up) = insert_by-Any P x ys in
      elim (less y x)
        as (λ b.
          Any P (if b then y ∷ insert_by less x ys else x ∷ y ∷ ys) ↔ (P x ⊎ (P y ⊎ Any P ys))) [
            | true ↦ (
              λ h. elim h [
                | inl p ↦ inr (inl p)
                | inr r ↦ elim (down r) [ inl p ↦ inl p | inr q ↦ inr (inr q) ]
              ],
              λ h. elim h [
                | inl p ↦ inr (up (inl p))
                | inr r ↦ elim r [ inl p ↦ inl p | inr q ↦ inr (up (inr q)) ]
              ],
            )
            | false ↦ (λ h. h, λ h. h)
          ]

  -- Sorting neither drops nor adds an element.
  pub sort_by-Any : (P : A → Type 0) (xs : List A) → Any P (sort_by less xs) ↔ Any P xs
  unfolding sort_by
  sort_by-Any P [] = (λ h. h, λ h. h)
  sort_by-Any P (x ∷ xs) =
      let (down, up) = sort_by-Any P xs in
      let (enter, leave) = insert_by-Any P x (sort_by less xs) in
      (
        λ h. elim (enter h) [ inl p ↦ inl p | inr r ↦ inr (down r) ],
        λ h. elim h [ inl p ↦ leave (inl p) | inr r ↦ leave (inr (up r)) ],
      )

-- Sorting by a key: `less a b` is `key(a) < key(b)`.
module _ {ℓ} {A : Type ℓ} (key : A → Text) where
  abbrev pub below : A → A → Bool
  below a b = lt (key a) (key b)

  -- No element stands behind one that is above it.
  abbrev pub IsSorted : List A → Type 0
  IsSorted [] = Unit
  IsSorted (x ∷ xs) = All (λ y. below y x ≡ false) xs × IsSorted xs

  not_below_trans : (x y z : A) → below y x ≡ false → below z y ≡ false → below z x ≡ false
  not_below_trans x y z p q = elim (Bool-cases (below z x)) [
    | inr r ↦ r
    | inl r ↦ elim (Bool-cases (below x y)) [
      | inl s ↦ ground (arith, lt_trans (key z) (key x) (key y))
      | inr s ↦ ground (arith, eq_of_not_lt (key x) (key y))
    ]
  ]

  All-not_below :
      (x y : A) (ys : List A)
      → below y x ≡ false
      → All (λ z. below z y ≡ false) ys
      → All (λ z. below z x ≡ false) ys
  All-not_below x y [] p h = tt
  All-not_below x y (z ∷ ys) p (q, h) = (not_below_trans x y z p q, All-not_below x y ys p h)

  below_asym : (x y : A) → below y x ≡ true → below x y ≡ false
  below_asym x y p = elim (Bool-cases (below x y)) [
    | inr r ↦ r
    | inl r ↦ ground (arith, lt_trans (key x) (key y) (key x), lt_irrefl (key x))
  ]

  insert_by-IsSorted : (x : A) (ys : List A) → IsSorted ys → IsSorted (insert_by below x ys)
  unfolding insert_by
  insert_by-IsSorted x [] h = (tt, tt)
  insert_by-IsSorted x (y ∷ ys) (hy, h) = elim (Bool-cases (below y x)) [
    | inl e ↦ rw e (
      insert_by-All below (λ z. below z y ≡ false) x ys (below_asym x y e) hy,
      insert_by-IsSorted x ys h,
    )
    | inr e ↦ rw e ((e, All-not_below x y ys e hy), (hy, h))
  ]

  pub sort_by-IsSorted : (xs : List A) → IsSorted (sort_by below xs)
  unfolding sort_by
  sort_by-IsSorted [] = tt
  sort_by-IsSorted (x ∷ xs) = insert_by-IsSorted x _ (sort_by-IsSorted xs)

  -- Whether the key of an element is a given one.
  abbrev pub has_key : Text → A → Bool
  has_key k a = not (lt k (key a)) && not (lt (key a) k)

  keep-insert_by :
      (k : Text) (x : A) (ys : List A)
      → keep (has_key k) (insert_by below x ys) ≡ keep (has_key k) (x ∷ ys)
  unfolding insert_by keep
  keep-insert_by k x [] = refl
  keep-insert_by k x (y ∷ ys) = ground (
    arith,
    keep-insert_by k x ys,
    eq_of_not_lt k (key x),
    eq_of_not_lt k (key y),
    lt_irrefl (key x),
  )

  -- Elements with the same key keep their order.
  pub sort_by-stable :
      (k : Text) (xs : List A) → keep (has_key k) (sort_by below xs) ≡ keep (has_key k) xs
  unfolding sort_by keep
  sort_by-stable k [] = refl
  sort_by-stable k (x ∷ xs) =
      keep-insert_by k x (sort_by below xs) ∙ ground (arith, sort_by-stable k xs)

-- ===== src/Sort/Determinism.antt =====
-- Where no two keys are equal, the sorted list does not depend on the order of the input.
use mathlib.Core.List.{Perm, Permᴰ}
use mathlib.Core.Logic.{∥∥₁_elim}
use mathlib.Core.Path.{ap₂, subst, subst₂}
use cupboard.Prelude.{Bool, Bool-cases, inl, inr, false, List, [], ◌∷◌, ◌≡◌, refl, ◌∙◌, arith}
use cupboard.Prelude.Lists.{All}
use cupboard.Text.{Text, ◌==◌, eq_iff}
use cupboard.Text.Order.{lt_irrefl, lt_trans, eq_of_not_lt}
use cupboard.Sort.{insert_by, sort_by}
use cupboard.Sort.Laws.{below, insert_by-All, sort_by-All}

module _ {ℓ} {A : Type ℓ} (key : A → Text) where
  -- No two elements have the same key.
  abbrev pub Distinct : List A → Type 0
  Distinct [] = Unit
  Distinct (x ∷ xs) = All (λ y. (key x == key y) ≡ false) xs × Distinct xs

  insert_by_comm :
      (x y : A) (zs : List A)
      → (key x == key y) ≡ false
      → insert_by (below key) x (insert_by (below key) y zs)
        ≡ insert_by (below key) y (insert_by (below key) x zs)
  unfolding insert_by
  insert_by_comm x y [] h = ground (
    arith,
    eq_iff (key x) (key y),
    eq_of_not_lt (key x) (key y),
    lt_trans (key x) (key y) (key x),
    lt_irrefl (key x),
  )
  insert_by_comm x y (z ∷ zs) h = ground (
    arith,
    eq_iff (key x) (key y),
    eq_of_not_lt (key x) (key y),
    lt_trans (key x) (key y) (key x),
    lt_irrefl (key x),
    lt_trans (key z) (key x) (key y),
    lt_trans (key z) (key y) (key x),
    insert_by_comm x y zs h,
  )

  All-perm {κ} : (P : A → Type κ) {xs ys : List A} → Permᴰ xs ys → All P xs → All P ys
  All-perm P Permᴰ.nil h = tt
  All-perm P (Permᴰ.cons e d) (px, h) = (subst P e px, All-perm P d h)
  All-perm P (Permᴰ.swap p q) (pa, (pb, h)) = (subst P q pb, (subst P p pa, h))
  All-perm P (Permᴰ.trans d d') h = All-perm P d' (All-perm P d h)

  Distinct-swap : (a b : A) (l : List A) → Distinct (a ∷ b ∷ l) → Distinct (b ∷ a ∷ l)
  Distinct-swap a b l ((hab, ha), (hb, h)) =
      ((ground (arith, eq_iff (key a) (key b), eq_iff (key b) (key a)), hb), (ha, h))

  Distinct-perm : {xs ys : List A} → Permᴰ xs ys → Distinct xs → Distinct ys
  Distinct-perm Permᴰ.nil h = tt
  Distinct-perm (Permᴰ.cons {l₂ = l₂} e d) (ha, h) =
      (subst (λ c. All (λ y. (key c == key y) ≡ false) l₂) e (All-perm _ d ha), Distinct-perm d h)
  Distinct-perm (Permᴰ.swap {a = a} {b = b} {l = l} p q) h =
      subst₂ (λ c d. Distinct (c ∷ d ∷ l)) q p (Distinct-swap a b l h)
  Distinct-perm (Permᴰ.trans d d') h = Distinct-perm d' (Distinct-perm d h)

  sort_by-eq_of_permᴰ :
      {xs ys : List A} → Permᴰ xs ys → Distinct xs → sort_by (below key) xs ≡ sort_by (below key) ys
  unfolding sort_by
  sort_by-eq_of_permᴰ Permᴰ.nil h = refl
  sort_by-eq_of_permᴰ (Permᴰ.cons e d) (hx, h) =
      ap₂ (insert_by (below key)) e (sort_by-eq_of_permᴰ d h)
  sort_by-eq_of_permᴰ (Permᴰ.swap {a = a} {b = b} {l = l} p q) ((hab, ha), (hb, h)) =
      insert_by_comm a b (sort_by (below key) l) hab
      ∙ ap₂ (λ c d. insert_by (below key) c (insert_by (below key) d (sort_by (below key) l))) q p
  sort_by-eq_of_permᴰ (Permᴰ.trans d d') h =
      sort_by-eq_of_permᴰ d h ∙ sort_by-eq_of_permᴰ d' (Distinct-perm d h)

  -- The order of the input is forgotten.
  pub sort_by-eq_of_perm :
      {xs ys : List A}
      → IsSet (List A)
      → Perm xs ys
      → Distinct xs
      → sort_by (below key) xs ≡ sort_by (below key) ys
  sort_by-eq_of_perm s p h = ∥∥₁_elim p (s _ _) (λ d. sort_by-eq_of_permᴰ d h)

-- Sorting, by any test, keeps the keys distinct.
module _ {ℓ} {A : Type ℓ} (key : A → Text) (less : A → A → Bool) where
  insert_by-Distinct :
      (x : A) (ys : List A) → Distinct key (x ∷ ys) → Distinct key (insert_by less x ys)
  unfolding insert_by
  insert_by-Distinct x [] h = h
  insert_by-Distinct x (y ∷ ys) ((hxy, hx), (hy, h)) = elim (Bool-cases (less y x)) [
    | inl e ↦ rw e (
      insert_by-All less (λ z. (key y == key z) ≡ false) x ys
          (ground (arith, eq_iff (key x) (key y), eq_iff (key y) (key x))) hy,
      insert_by-Distinct x ys (hx, h),
    )
    | inr e ↦ rw e ((hxy, hx), (hy, h))
  ]

  pub sort_by-Distinct : (xs : List A) → Distinct key xs → Distinct key (sort_by less xs)
  unfolding sort_by
  sort_by-Distinct [] h = tt
  sort_by-Distinct (x ∷ xs) (hx, h) =
      insert_by-Distinct x _ (sort_by-All less _ xs hx, sort_by-Distinct xs h)

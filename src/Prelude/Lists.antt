-- ===== src/Prelude/Lists.antt =====
-- Lists measured by native numbers, and predicates on lists that compute to tuples.
use Prim.Native.Nat.{ℕ, zero, suc}
use mathlib.Core.Path.{◌≡◌, refl, sym, ap, ◌∙◌, subst}
use mathlib.Core.Bool.{Bool, true, false}
use mathlib.Core.Logic.{◌⊎◌, inl, inr}
use mathlib.Core.List.{List, [], ◌∷◌, ◌++◌}
use native.Mathlib.Omega.{arith}
use cupboard.Prelude.Tests.{if◌then◌else◌, Bool-cases}

module _ {ℓ} {A : Type ℓ} where
  abbrev pub length : List A → ℕ
  length [] = 0
  length (x ∷ xs) = suc (length xs)

  abbrev pub take : ℕ → List A → List A
  take zero xs = []
  take (suc n) [] = []
  take (suc n) (x ∷ xs) = x ∷ take n xs

  abbrev pub drop : ℕ → List A → List A
  drop zero xs = xs
  drop (suc n) [] = []
  drop (suc n) (x ∷ xs) = drop n xs

module _ {ℓ} {A : Type ℓ} where
  -- The elements that pass a Boolean test, in their order.
  unfoldable pub keep : (A → Bool) → List A → List A
  keep p [] = []
  keep p (x ∷ xs) = let rest = keep p xs in if p x then x ∷ rest else rest

  pub keep-append : (p : A → Bool) (xs ys : List A) → keep p (xs ++ ys) ≡ keep p xs ++ keep p ys
  unfolding keep
  keep-append p [] ys = refl
  keep-append p (x ∷ xs) ys = ground (arith, keep-append p xs ys)

module _ {ℓ κ} {A : Type ℓ} where
  abbrev pub All : (A → Type κ) → List A → Type κ
  All P [] = Unit
  All P (x ∷ xs) = P x × All P xs

module _ {ℓ} {A : Type ℓ} where
  -- Some element, with its position, has the property.
  abbrev pub Any : (A → Type 0) → List A → Type 0
  Any P [] = ⊥
  Any P (x ∷ xs) = P x ⊎ Any P xs

module _ {ℓ κ} {A : Type ℓ} (P : A → Type κ) where
  pub All-append : (xs ys : List A) → All P xs → All P ys → All P (xs ++ ys)
  All-append [] ys _ hy = hy
  All-append (x ∷ xs) ys (px, hx) hy = (px, All-append xs ys hx hy)

  pub All-keep : (p : A → Bool) (xs : List A) → All P xs → All P (keep p xs)
  unfolding keep
  All-keep p [] h = tt
  All-keep p (x ∷ xs) (px, h) =
      elim (p x) as (λ b. All P (if b then x ∷ keep p xs else keep p xs)) [
        | true ↦ (px, All-keep p xs h)
        | false ↦ All-keep p xs h
      ]

module _ {A : Type 0} where
  -- What holds of every element of a list.
  pub All-in : (P : A → Type 0) (xs : List A) → ((x : A) → Any (λ y. y ≡ x) xs → P x) → All P xs
  All-in P [] h = tt
  All-in P (x ∷ xs) h = (h x (inl refl), All-in P xs (λ y i. h y (inr i)))

  pub All-both : (P Q : A → Type 0) (xs : List A) → All P xs → All Q xs → All (λ x. P x × Q x) xs
  All-both P Q [] p q = tt
  All-both P Q (x ∷ xs) (p, ps) (q, qs) = ((p, q), All-both P Q xs ps qs)

  pub All-mono : (P Q : A → Type 0) → ((x : A) → P x → Q x) → (xs : List A) → All P xs → All Q xs
  All-mono P Q f [] h = tt
  All-mono P Q f (x ∷ xs) (p, h) = (f x p, All-mono P Q f xs h)

  -- A list that may have one more element in front.
  pub All-unless :
      (P : A → Type 0) (b : Bool) (x : A) (xs : List A)
      → P x
      → All P xs
      → All P (if b then xs else x ∷ xs)
  All-unless P true x xs p h = h
  All-unless P false x xs p h = (p, h)

  pub Any-unless :
      (P : A → Type 0) (b : Bool) (x : A) (xs : List A)
      → Any P xs
      → Any P (if b then xs else x ∷ xs)
  Any-unless P true x xs h = h
  Any-unless P false x xs h = inr h

  pub any_keep :
      (p : A → Bool) (x : A) (xs : List A)
      → p x ≡ true
      → Any (λ y. y ≡ x) xs
      → Any (λ y. y ≡ x) (keep p xs)
  unfolding keep
  any_keep p x [] h i = i
  any_keep p x (y ∷ ys) h (inl e) = rw (ap p e ∙ h) (inl e)
  any_keep p x (y ∷ ys) h (inr i) = elim (Bool-cases (p y)) [
    | inl e ↦ rw e (inr (any_keep p x ys h i))
    | inr e ↦ rw e (any_keep p x ys h i)
  ]

  -- An element with a property, from an element at hand.
  pub Any-of : (P : A → Type 0) (x : A) (xs : List A) → P x → Any (λ y. y ≡ x) xs → Any P xs
  Any-of P x [] p i = i
  Any-of P x (y ∷ ys) p (inl e) = inl (subst P (sym e) p)
  Any-of P x (y ∷ ys) p (inr i) = inr (Any-of P x ys p i)

pub All-keep_self {ℓ} :
    {A : Type ℓ} (p : A → Bool) (xs : List A) → All (λ x. p x ≡ true) (keep p xs)
unfolding keep
All-keep_self p [] = tt
All-keep_self p (x ∷ xs) = ground (arith, All-keep_self p xs)

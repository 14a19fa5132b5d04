-- ===== src/Sort.antt =====
-- `sort.SliceStable` and `slices.SortStableFunc`, by a Boolean "less". Both are documented to sort
-- stably by a strict weak order; insertion from the right does so.
pub mod Laws
pub mod Determinism
use cupboard.Prelude.{Bool, List, [], ◌∷◌, if◌then◌else◌}

module _ {ℓ} {A : Type ℓ} (less : A → A → Bool) where
  -- In front of the first element that is not below the new one.
  unfoldable pub insert_by : A → List A → List A
  insert_by x [] = x ∷ []
  insert_by x (y ∷ ys) = if less y x then y ∷ insert_by x ys else x ∷ y ∷ ys

  unfoldable pub sort_by : List A → List A
  unfolding insert_by
  sort_by [] = []
  sort_by (x ∷ xs) = insert_by x (sort_by xs)

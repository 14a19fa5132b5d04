-- ===== src/Dashboard/Order/Key.antt =====
-- The comparison function of `sortLinkGroups` orders by one key, as long as the difference of two
-- priorities does not overflow.
use cupboard.Prelude.{
  ℕ, suc, ◌+◌, ◌-◌, ◌^◌, ◌≤◌, Bool, List, [], ◌∷◌, ◌++◌, map, ◌≡◌, refl, ap, ◌∙◌, arith,
  if◌then◌else◌, ◌==◌ as nat_eq, ltb,
}
use cupboard.Prelude.Lists.{All}
use cupboard.Prelude.Int.{
  ℤ, pos, negsuc, pos_part, neg_part, is_neg, eq_ℤ, ◌-ℤ◌, IsSmall, is_neg-sub,
}
use cupboard.Text.{Text, ◌==◌, eq_iff}
use cupboard.Text.Case.{Unicode, to_lower}
use cupboard.Text.Order.{lt, lt_irrefl}
use cupboard.GoMap.{GoMap}
use cupboard.Sort.{insert_by, sort_by}
use cupboard.Sort.Laws.{below, sort_by-All}
use cupboard.Dashboard.Types.{DashboardLinkGroup}
use cupboard.Dashboard.Order.{
  priority_class_rank, compare_or, compare_link_groups, sort_link_groups, map_values,
}

-- Two texts as one: the first, a mark below all its characters, and the second.
abbrev pair_key : Text → Text → Text
pair_key a b = map suc a ++ 0 ∷ b

lt-pair_key :
    (a b c d : Text) → lt (pair_key a b) (pair_key c d) ≡ (if a == c then lt b d else lt a c)
unfolding lt ◌==◌
lt-pair_key [] b [] d = ground arith
lt-pair_key [] b (y ∷ c) d = ground arith
lt-pair_key (x ∷ a) b [] d = ground arith
lt-pair_key (x ∷ a) b (y ∷ c) d = ground (arith, lt-pair_key a b c d)

-- A small integer, moved to the natural numbers.
abbrev shift : ℤ → ℕ
shift z = pos_part z + 2 ^ 62 - neg_part z

module _ ⦃u : Unicode⦄ where
  -- What `sortLinkGroups` sorts by: class, priority, display name, name, the names in lower case.
  unfoldable pub sort_key : DashboardLinkGroup → Text
  sort_key g =
      priority_class_rank g.priority_class
      ∷ shift g.priority
      ∷ pair_key (to_lower g.display_name) (to_lower g.name)

  abbrev pub HasSmallPriority : DashboardLinkGroup → Type 0
  HasSmallPriority g = IsSmall g.priority

  rank_le : (c : Text) → priority_class_rank c ≤ 2
  unfolding priority_class_rank
  rank_le c = ground arith

  rank_diff : (a b : ℕ) → a ≤ 2 → b ≤ 2 → is_neg (pos a -ℤ pos b) ≡ ltb a b
  rank_diff a b p q = is_neg-sub (pos a) (pos b) (omega arith) (omega arith) ∙ ground arith

  priority_diff : (a b : ℤ) → IsSmall a → IsSmall b → is_neg (a -ℤ b) ≡ ltb (shift a) (shift b)
  priority_diff a b p q = is_neg-sub a b p q ∙ ground arith

  eq_ℤ-shift : (a b : ℤ) → IsSmall a → IsSmall b → eq_ℤ a b ≡ nat_eq (shift a) (shift b)
  eq_ℤ-shift (pos a) (pos b) p q = ground arith
  eq_ℤ-shift (pos a) (negsuc b) p q = ground arith
  eq_ℤ-shift (negsuc a) (pos b) p q = ground arith
  eq_ℤ-shift (negsuc a) (negsuc b) p q = ground arith

  compare-names :
      (a b : DashboardLinkGroup)
      → is_neg (
          compare_or
            (to_lower a.display_name)
            (to_lower b.display_name)
            (compare_or (to_lower a.name) (to_lower b.name) (pos 0)))
        ≡ lt
            (pair_key (to_lower a.display_name) (to_lower a.name))
            (pair_key (to_lower b.display_name) (to_lower b.name))
  unfolding compare_or
  compare-names a b =
      rw lt-pair_key
        (ground (arith, eq_iff (to_lower a.name) (to_lower b.name), lt_irrefl (to_lower b.name)))

  lt-key :
      (ra rb pa pb : ℕ) (s t : Text)
      → lt (ra ∷ pa ∷ s) (rb ∷ pb ∷ t)
        ≡ (if nat_eq ra rb then (if nat_eq pa pb then lt s t else ltb pa pb) else ltb ra rb)
  unfolding lt
  lt-key ra rb pa pb s t = ground arith

  -- Below in the order of the program is below in the order of the keys.
  pub compare-sort_key :
      (a b : DashboardLinkGroup)
      → HasSmallPriority a
      → HasSmallPriority b
      → is_neg (compare_link_groups a b) ≡ below sort_key a b
  unfolding compare_link_groups sort_key
  compare-sort_key a b p q = rw lt-key (
      ground (
        arith,
        rank_diff (priority_class_rank a.priority_class) (priority_class_rank b.priority_class),
        rank_le a.priority_class,
        rank_le b.priority_class,
        priority_diff a.priority b.priority p q,
        eq_ℤ-shift a.priority b.priority p q,
        compare-names a b,
      ))

  less : DashboardLinkGroup → DashboardLinkGroup → Bool
  less a b = is_neg (compare_link_groups a b)

  insert_by-agree :
      (x : DashboardLinkGroup) (ys : List DashboardLinkGroup)
      → HasSmallPriority x
      → All HasSmallPriority ys
      → insert_by less x ys ≡ insert_by (below sort_key) x ys
  unfolding insert_by less
  insert_by-agree x [] p h = refl
  insert_by-agree x (y ∷ ys) p (q, h) = rw (compare-sort_key y x q p, insert_by-agree x ys p h)

  sort_by-agree :
      (xs : List DashboardLinkGroup)
      → All HasSmallPriority xs
      → sort_by less xs ≡ sort_by (below sort_key) xs
  unfolding sort_by
  sort_by-agree [] h = refl
  sort_by-agree (x ∷ xs) (p, h) =
      insert_by-agree x (sort_by less xs) p (sort_by-All less HasSmallPriority xs h)
      ∙ ap (insert_by (below sort_key) x) (sort_by-agree xs h)

  -- With small priorities the groups are sorted by their keys.
  pub sort_link_groups-sort_by :
      (m : GoMap DashboardLinkGroup)
      → All HasSmallPriority (map_values m)
      → sort_link_groups m ≡ sort_by (below sort_key) (map_values m)
  unfolding sort_link_groups less
  sort_link_groups-sort_by m h = sort_by-agree (map_values m) h

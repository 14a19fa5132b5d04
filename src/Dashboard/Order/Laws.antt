-- ===== src/Dashboard/Order/Laws.antt =====
-- The order of link groups.
use mathlib.Core.List.{Perm, is_set}
use native.Mathlib.Decide.{ℕ_discrete}
use cupboard.Prelude.{◌==◌ as nat_eq, ℕ, ◌^◌, ◌-◌, true, ◌≡◌, refl, sym, ◌∙◌, arith}
use cupboard.Prelude.Int.{pos, negsuc, is_neg, ◌-ℤ◌}
use cupboard.Prelude.Lists.{All}
use cupboard.Text.Case.{Unicode}
use cupboard.GoMap.{GoMap}
use cupboard.Sort.Laws.{sort_by-perm, sort_by-IsSorted, IsSorted}
use cupboard.Sort.Determinism.{Distinct, sort_by-eq_of_perm}
use cupboard.Dashboard.Types.{DashboardLinkGroup}
use cupboard.Dashboard.Order.{
  sort_link_groups, map_values, compare_link_groups, priority_class_rank,
}
use cupboard.Dashboard.Order.Key.{sort_key, HasSmallPriority, sort_link_groups-sort_by}

nat_eq_refl : (n : ℕ) → nat_eq n n ≡ true
nat_eq_refl n = ground arith

DashboardLinkGroup-set : IsSet DashboardLinkGroup
DashboardLinkGroup-set = hlevel ℕ_discrete

module _ ⦃u : Unicode⦄ where
  -- With priorities between -2^62 and 2^62 the sorted groups are the values of the map, ascending by
  -- class, priority, display name and name.
  pub sort_link_groups-IsSorted :
      (groups : GoMap DashboardLinkGroup)
      → All HasSmallPriority (map_values groups)
      → Perm (sort_link_groups groups) (map_values groups)
        × IsSorted sort_key (sort_link_groups groups)
  sort_link_groups-IsSorted groups h =
      rw (sort_link_groups-sort_by groups h)
        (sort_by-perm _ (map_values groups), sort_by-IsSorted sort_key (map_values groups))

  -- The order in which `range` visits the map does not matter, where no two groups have the same
  -- class, priority, display name and name in lower case, and priorities are between -2^62 and 2^62.
  pub sort_link_groups-deterministic :
      (groups visited : GoMap DashboardLinkGroup)
      → Perm (map_values groups) (map_values visited)
      → All HasSmallPriority (map_values groups)
      → All HasSmallPriority (map_values visited)
      → Distinct sort_key (map_values groups)
      → sort_link_groups groups ≡ sort_link_groups visited
  sort_link_groups-deterministic groups visited p hg hv d =
      sort_link_groups-sort_by groups hg
      ∙ sort_by-eq_of_perm sort_key (is_set DashboardLinkGroup-set) p d
      ∙ sym (sort_link_groups-sort_by visited hv)

  -- In one class, a group with the largest priority of an `int` stands below one with the priority
  -- -1: the difference of the priorities wraps around.
  pub compare_link_groups-overflow :
      (a b : DashboardLinkGroup)
      → priority_class_rank a.priority_class ≡ priority_class_rank b.priority_class
      → a.priority ≡ pos (2 ^ 63 - 1)
      → b.priority ≡ negsuc 0
      → is_neg (compare_link_groups a b) ≡ true
  unfolding compare_link_groups ◌-ℤ◌
  compare_link_groups-overflow a b r p q =
      rw (r, p, q, nat_eq_refl (priority_class_rank b.priority_class)) refl

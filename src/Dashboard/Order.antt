-- ===== src/Dashboard/Order.antt =====
-- `priorityClassRank` and `sortLinkGroups`, and the order of the links and tiles of a group.
pub mod Key
pub mod Laws
use cupboard.Prelude.{ℕ, Bool, true, false, not, List, [], ◌∷◌, map, if◌then◌else◌, ◌==◌ as nat_eq}
use cupboard.Prelude.Int.{ℤ, pos, negsuc, is_neg, eq_ℤ, ◌-ℤ◌}
use cupboard.Text.{Text, codes, ◌==◌}
use cupboard.Text.Trim.{trim_space}
use cupboard.Text.Case.{Unicode, to_lower}
use cupboard.Text.Order.{lt}
use cupboard.GoMap.{GoMap}
use cupboard.Sort.{sort_by}
use cupboard.Dashboard.Types.{DashboardLink, DashboardLinkGroup, DashboardInfoTile}

-- The values of a map, in the order in which `range` visits them.
unfoldable pub map_values {ℓ} : {A : Type ℓ} → GoMap A → List A
map_values [] = []
map_values ((k, v) ∷ m) = v ∷ map_values m

module _ ⦃u : Unicode⦄ where
  -- `priorityClassRank`
  unfoldable pub priority_class_rank : Text → ℕ
  priority_class_rank value =
      let class = to_lower (trim_space value) in
      if class == codes "first" then 0 else if class == codes "last" then 2 else 1

  -- `if a != b { if a < b { return -1 }; return 1 }`, and what follows.
  unfoldable pub compare_or : Text → Text → ℤ → ℤ
  compare_or a b next = if a == b then next else if lt a b then negsuc 0 else pos 1

  -- The comparison function of `sortLinkGroups`.
  unfoldable pub compare_link_groups : DashboardLinkGroup → DashboardLinkGroup → ℤ
  compare_link_groups a b =
      let rank_a = priority_class_rank a.priority_class in
      let rank_b = priority_class_rank b.priority_class in
      if not (nat_eq rank_a rank_b)
      then pos rank_a -ℤ pos rank_b
      else if not (eq_ℤ a.priority b.priority)
      then a.priority -ℤ b.priority
      else compare_or (to_lower a.display_name) (to_lower b.display_name)
          (compare_or (to_lower a.name) (to_lower b.name) (pos 0))

  -- `sortLinkGroups`
  unfoldable pub sort_link_groups : GoMap DashboardLinkGroup → List DashboardLinkGroup
  unfolding map_values
  sort_link_groups groups = sort_by (λ a b. is_neg (compare_link_groups a b)) (map_values groups)

  -- The two `sort.SliceStable` calls of `collectDashboard`.
  unfoldable pub sort_links : List DashboardLink → List DashboardLink
  sort_links links = sort_by (λ a b. lt (to_lower a.name) (to_lower b.name)) links

  unfoldable pub sort_tiles : List DashboardInfoTile → List DashboardInfoTile
  sort_tiles tiles = sort_by (λ a b. lt (to_lower a.name) (to_lower b.name)) tiles

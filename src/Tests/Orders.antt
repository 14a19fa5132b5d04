-- ===== src/Tests/Orders.antt =====
-- Sorting link groups and links.
use mathlib.Core.List.{Perm}
use mathlib.Core.List.Perm
use cupboard.Prelude.{◌^◌, ◌-◌, true, [], ◌∷◌, ◌≡◌, refl, arith}
use cupboard.Prelude.Int.{pos, negsuc, is_neg}
use cupboard.Text.{codes, ◌==◌}
use cupboard.Text.Trim.{trim_space}
use cupboard.Text.Case.{to_lower}
use cupboard.GoMap.{GoMap}
use cupboard.Sort.Laws.{IsSorted}
use cupboard.Dashboard.Types.{DashboardLinkGroup}
use cupboard.Dashboard.Order.{
  sort_link_groups, map_values, priority_class_rank, compare_link_groups,
}
use cupboard.Dashboard.Order.Key.{sort_key}
use cupboard.Dashboard.Order.Laws.{
  sort_link_groups-IsSorted, sort_link_groups-deterministic, compare_link_groups-overflow,
}
use cupboard.Tests.Fixtures.{tools, docs, ascii}

abbrev details : GoMap DashboardLinkGroup
details = (codes "docs", docs) ∷ (codes "tools", tools) ∷ []

abbrev visited : GoMap DashboardLinkGroup
visited = (codes "tools", tools) ∷ (codes "docs", docs) ∷ []

sort_link_groups-IsSorted_example :
    Perm (sort_link_groups details) (map_values details)
    × IsSorted sort_key (sort_link_groups details)
unfolding map_values
sort_link_groups-IsSorted_example =
    sort_link_groups-IsSorted details ((omega arith, omega arith), ((omega arith, omega arith), tt))

sort_link_groups-deterministic_example : sort_link_groups details ≡ sort_link_groups visited
unfolding map_values sort_key priority_class_rank ◌==◌ to_lower trim_space
sort_link_groups-deterministic_example =
    sort_link_groups-deterministic details visited (Perm.swap tools docs [])
      ((omega arith, omega arith), ((omega arith, omega arith), tt))
      ((omega arith, omega arith), ((omega arith, omega arith), tt)) ((refl, tt), (tt, tt))

compare_link_groups-overflow_example :
    is_neg (
      compare_link_groups
        (record docs { priority = pos (2 ^ 63 - 1) })
        (record docs { priority = negsuc 0 }))
    ≡ true
compare_link_groups-overflow_example =
    compare_link_groups-overflow (record docs { priority = pos (2 ^ 63 - 1) })
      (record docs { priority = negsuc 0 }) refl refl refl

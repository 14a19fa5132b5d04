-- ===== src/Dashboard/Response/Sorted.antt =====
-- The order of the links in a response.
use cupboard.Prelude.{Bool, List, [], ◌∷◌, ok, ◌≡◌}
use cupboard.Prelude.Lists.{All, All-unless, keep}
use cupboard.Text.{Text}
use cupboard.Text.Case.{Unicode, to_lower}
use cupboard.Sort.Laws.{sort_by-IsSorted, sort_by-stable, IsSorted, has_key}
use cupboard.Dashboard.Types.{DashboardLink, DashboardLinkGroup, DashboardGroup, DashboardResponse}
use cupboard.Dashboard.Groups.{filter_links_for_groups}
use cupboard.Dashboard.Maps.{Maps, slice_at}
use cupboard.Dashboard.Order.{sort_links}
use cupboard.Dashboard.Response.{
  DashboardCollector, collect_dashboard, respond, response_groups, response_group, is_left_out,
  shown_links,
}
use cupboard.Dashboard.Response.Invariant.{final_maps}
use cupboard.Dashboard.Response.Visible.{collect_dashboard-ok}

module _ ⦃u : Unicode⦄ where
  -- The name that links are sorted by.
  abbrev pub sort_name : DashboardLink → Text
  sort_name link = to_lower link.name

  -- Links ascend by their names in lower case, and those of one such name stand in the order that they
  -- have among the links of the group that the user can see.
  abbrev pub IsOrdered : List Text → Maps → DashboardGroup → Type 0
  IsOrdered ug m g =
      IsSorted sort_name g.links
      × ((name : Text)
          → keep (has_key sort_name name) g.links
            ≡ keep (has_key sort_name name)
                (filter_links_for_groups (slice_at g.link_group m.groups) ug))

  response_group-IsOrdered :
      (ug : List Text) (m : Maps) (d : DashboardLinkGroup) → IsOrdered ug m (response_group ug m d)
  unfolding sort_links
  response_group-IsOrdered ug m d = (
    sort_by-IsSorted sort_name (shown_links ug m d),
    λ name. sort_by-stable sort_name name (shown_links ug m d),
  )

  response_groups-IsOrdered :
      (lo : Bool) (ug : List Text) (m : Maps) (ds : List DashboardLinkGroup)
      → All (IsOrdered ug m) (response_groups lo ug m ds)
  unfolding response_groups
  response_groups-IsOrdered lo ug m [] = tt
  response_groups-IsOrdered lo ug m (d ∷ ds) =
      All-unless (IsOrdered ug m) (is_left_out lo ug m d) (response_group ug m d)
        (response_groups lo ug m ds) (response_group-IsOrdered ug m d)
        (response_groups-IsOrdered lo ug m ds)

  -- In each group of a successful response the links ascend by their names in lower case, and those of
  -- one such name stand in the order in which they were collected.
  pub collect_dashboard-IsOrdered :
      (c : DashboardCollector) (user_groups : List Text) (local_only : Bool) (r : DashboardResponse)
      → collect_dashboard c user_groups local_only ≡ ok r
      → All (IsOrdered user_groups (final_maps c local_only)) r.groups
  collect_dashboard-IsOrdered c ug lo r h =
      rw (collect_dashboard-ok c ug lo r h)
        (unfold respond in response_groups-IsOrdered lo ug (final_maps c lo) _)

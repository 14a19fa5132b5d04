-- ===== src/Tests/Responses.antt =====
-- `collectDashboard` on the example cluster.
use cupboard.Prelude.{Bool, true, false, List, [], ◌∷◌, none, some, ok, ◌≡◌, inl, refl}
use cupboard.Prelude.Lists.{All, Any}
use cupboard.Text.{Text, codes}
use cupboard.Sort.Determinism.{Distinct}
use cupboard.Dashboard.Types.{DashboardLink, DashboardResponse}
use cupboard.Dashboard.Groups.Access.{CanSee}
use cupboard.Dashboard.Maps.{slice_at}
use cupboard.Dashboard.Maps.WellFormed.{IsWellFormed}
use cupboard.Dashboard.Merge.{collect_foreign_links, no_maps}
use cupboard.Dashboard.Collect.Bookmarks.{collect_bookmark_groups, group_replicate}
use cupboard.Dashboard.Collect.Withheld.{reachable_links, collect_bookmark_groups-reachable_links}
use cupboard.Kube.Bookmark.{Bookmark, BookmarkGroup}
use cupboard.Dashboard.Merge.Foreign.{foreign_links, collect_foreign_links-foreign_links}
use cupboard.Dashboard.Response.Sorted.{IsOrdered, collect_dashboard-IsOrdered}
use cupboard.Dashboard.Response.{collect_dashboard, respond}
use cupboard.Dashboard.Response.Invariant.{final_maps, final_maps-IsWellFormed}
use cupboard.Dashboard.Response.Visible.{
  IsLinkIn, collect_dashboard_sound, collect_dashboard_complete,
}
use cupboard.Dashboard.Response.Export.{collect_dashboard-exported, collect_dashboard-local}
use cupboard.Dashboard.Response.Ordered.{collect_dashboard-once}
use cupboard.Dashboard.Response.Total.{collect_dashboard-succeeds}
use cupboard.Tests.Fixtures.{
  bookmark_group, bookmark, reader-IsReadable, collector, reader, discovery, ascii,
}

abbrev users : List Text
users = codes " staff" ∷ codes "admins" ∷ []

-- The response to a user, or to a peer.
abbrev response : Bool → DashboardResponse
response local_only = respond local_only users (final_maps collector local_only)

collect_dashboard-succeeds_example : collect_dashboard collector users false ≡ ok (response false)
collect_dashboard-succeeds_example =
    collect_dashboard-succeeds collector users false reader-IsReadable

collect_dashboard_sound_example :
    All
      (λ g.
        All
          (λ link.
            IsLinkIn link (slice_at g.link_group (final_maps collector false).groups)
            × CanSee users link)
          g.links)
      (response false).groups
collect_dashboard_sound_example =
    collect_dashboard_sound collector users false (response false)
      (collect_dashboard-succeeds collector users false reader-IsReadable)

-- The link of the first bookmark.
abbrev git : DashboardLink
git = record {
  name = codes "git";
  link_group = codes "";
  url = codes "https://example.com";
  target = codes "_self";
  icon = codes "";
  source = codes "bookmark";
  metadata = codes "";
  groups = [];
  replicate = true;
}

git-collected : IsLinkIn git (slice_at (codes "tools") (final_maps collector true).groups)
unfolding slice_at cupboard.GoMap.lookup cupboard.Dashboard.Response.finish_maps
    cupboard.Dashboard.Response.only_replicated cupboard.Dashboard.Response.collect_local
    cupboard.Dashboard.Collector.and_then
    cupboard.Dashboard.Collect.Bookmarks.collect_bookmark_groups
    cupboard.Dashboard.Collector.collect_list cupboard.Dashboard.Collector.when
    cupboard.Dashboard.Collector.resource_available cupboard.Dashboard.Groups.member
    cupboard.Text.◌==◌ cupboard.Dashboard.Collect.Resources.collect_ingresses
    cupboard.Dashboard.Merge.first_available cupboard.Dashboard.Collect.Resources.collect_services
    cupboard.Dashboard.Collect.Resources.collect_endpoint_slices
    cupboard.Dashboard.Collect.Tiles.collect_info_tiles
    cupboard.Dashboard.Collect.Tiles.add_info_tile cupboard.Dashboard.Collect.Resources.add_ingress
    cupboard.Dashboard.Collector.add_resource cupboard.Dashboard.Collect.Resources.derive_url
    cupboard.Dashboard.Collect.Resources.host_url cupboard.Webhook.Host.first_host
    cupboard.Text.Trim.is_blank cupboard.Text.Trim.trim_space
    cupboard.Dashboard.Meta.resource_meta_from cupboard.Kube.text_at
    cupboard.Dashboard.Maps.add_link cupboard.GoMap.insert
    cupboard.Dashboard.Collect.Bookmarks.add_bookmark
    cupboard.Dashboard.Collect.Bookmarks.add_bookmark_group cupboard.Dashboard.Response.configured
    cupboard.Dashboard.Collect.Config.collect_static_links
    cupboard.Dashboard.Groups.filter_links_for_replication cupboard.Prelude.Lists.keep
    cupboard.Dashboard.Collect.Bookmarks.bookmark_link
    cupboard.Dashboard.Collect.Bookmarks.group_replicate cupboard.Dashboard.Groups.normalized_groups
git-collected = inl refl

collect_dashboard_complete_example :
    Any (λ g. (g.link_group ≡ codes "tools") × IsLinkIn git g.links) (response true).groups
collect_dashboard_complete_example =
    collect_dashboard_complete collector users true (response true)
      (collect_dashboard-succeeds collector users true reader-IsReadable) (codes "tools") git
      git-collected (inl refl)

collect_dashboard-exported_example :
    All
      (λ g. All (λ l. l.replicate ≡ true) g.links × All (λ t. t.replicate ≡ true) g.tiles)
      (response true).groups
collect_dashboard-exported_example =
    collect_dashboard-exported collector users (response true)
      (collect_dashboard-succeeds collector users true reader-IsReadable)

collect_dashboard-local_example :
    collect_dashboard (record collector { sync_client = none; foreign_clusters = none }) users true
    ≡ collect_dashboard collector users true
collect_dashboard-local_example = collect_dashboard-local collector users none none

final_maps-IsWellFormed_example : IsWellFormed (final_maps collector false)
final_maps-IsWellFormed_example = final_maps-IsWellFormed collector false

collect_dashboard-once_example :
    Distinct (λ d. d.name) (response false).link_groups
    × Distinct (λ g. g.link_group) (response false).groups
collect_dashboard-once_example =
    collect_dashboard-once collector users false (response false)
      (collect_dashboard-succeeds collector users false reader-IsReadable)

collect_dashboard-IsOrdered_example :
    All (IsOrdered users (final_maps collector false)) (response false).groups
collect_dashboard-IsOrdered_example =
    collect_dashboard-IsOrdered collector users false (response false)
      (collect_dashboard-succeeds collector users false reader-IsReadable)

collect_foreign_links-foreign_links_example :
    collect_foreign_links reader (some discovery) no_maps
    ≡ foreign_links reader (some discovery) no_maps
collect_foreign_links-foreign_links_example =
    collect_foreign_links-foreign_links reader (some discovery) no_maps

-- The groups and the bookmarks of the example cluster.
abbrev groups : List BookmarkGroup
groups = bookmark_group (codes "tools") true ∷ bookmark_group (codes "docs") false ∷ []

abbrev bookmarks : List Bookmark
bookmarks =
    bookmark (codes "git") (codes "tools") [] (some true)
    ∷ bookmark (codes "vault") (codes "tools") (codes "admins" ∷ []) (some true)
    ∷ bookmark (codes "old") (codes "docs") [] none
    ∷ []

collect_bookmark_groups-reachable_links_example :
    slice_at (codes "tools") (collect_bookmark_groups reader no_maps).1.groups
    ≡ reachable_links (codes "tools") (group_replicate groups []) bookmarks
collect_bookmark_groups-reachable_links_example =
    collect_bookmark_groups-reachable_links reader groups bookmarks (codes "tools") refl refl

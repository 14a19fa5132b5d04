-- ===== src/Dashboard/Response/Export.antt =====
-- What the sync endpoint hands to peers: `collectDashboard` with `localOnly`.
use cupboard.Prelude.{true, List, [], ◌∷◌, Option, ◌≡◌, refl, arith, ok}
use cupboard.Prelude.Lists.{All, keep, All-keep, All-keep_self, All-unless}
use cupboard.Text.{Text}
use cupboard.Text.Case.{Unicode}
use cupboard.GoMap.{GoMap, lookup}
use cupboard.Sort.Laws.{sort_by-All}
use cupboard.Dashboard.Types.{
  DashboardLink, DashboardLinkGroup, DashboardGroup, DashboardInfoTile, DashboardResponse,
}
use cupboard.Dashboard.Groups.{
  filter_links_for_groups, filter_links_for_replication, filter_tiles_for_replication,
}
use cupboard.Dashboard.Maps.{Maps, slice_at}
use cupboard.Dashboard.Order.{sort_links, sort_tiles}
use cupboard.Dashboard.Merge.{ClusterInfo}
use cupboard.Dashboard.Response.{
  DashboardCollector, collect_dashboard, configured, collect_local, respond, response_groups,
  response_group, is_left_out, map_slices, only_replicated, finish_maps,
}
use cupboard.Dashboard.Response.Visible.{collect_dashboard-ok}

-- Reading a key after a change of all entries is changing what the key reads as.
slice_at-map_slices {ℓ} :
    {A : Type ℓ} (f : List A → List A) (k : Text) (m : GoMap (List A))
    → f [] ≡ []
    → slice_at k (map_slices f m) ≡ f (slice_at k m)
unfolding slice_at lookup map_slices
slice_at-map_slices f k [] h = rw h
slice_at-map_slices f k ((j, xs) ∷ m) h = ground (arith, slice_at-map_slices f k m h)

links-replicated :
    (k : Text) (m : GoMap (List DashboardLink))
    → All (λ l. l.replicate ≡ true) (slice_at k (map_slices filter_links_for_replication m))
unfolding filter_links_for_replication keep
links-replicated k m =
    rw (slice_at-map_slices filter_links_for_replication k m refl)
      (All-keep_self (λ l. l.replicate) (slice_at k m))

tiles-replicated :
    (k : Text) (m : GoMap (List DashboardInfoTile))
    → All (λ t. t.replicate ≡ true) (slice_at k (map_slices filter_tiles_for_replication m))
unfolding filter_tiles_for_replication keep
tiles-replicated k m =
    rw (slice_at-map_slices filter_tiles_for_replication k m refl)
      (All-keep_self (λ t. t.replicate) (slice_at k m))

-- Everything in a group of a response is marked for replication.
abbrev pub IsExportable : DashboardGroup → Type 0
IsExportable g = All (λ l. l.replicate ≡ true) g.links × All (λ t. t.replicate ≡ true) g.tiles

module _ ⦃u : Unicode⦄ where
  response_group-IsExportable :
      (ug : List Text) (m : Maps) (d : DashboardLinkGroup)
      → IsExportable (response_group ug (only_replicated m) d)
  unfolding only_replicated filter_links_for_groups sort_links sort_tiles
  response_group-IsExportable ug m d = (
    sort_by-All _ (λ l. l.replicate ≡ true) _ (All-keep _ _ _ (links-replicated d.name m.groups)),
    sort_by-All _ (λ t. t.replicate ≡ true) _ (tiles-replicated d.name m.tiles),
  )

  response_groups-IsExportable :
      (ug : List Text) (m : Maps) (ds : List DashboardLinkGroup)
      → All IsExportable (response_groups true ug (only_replicated m) ds)
  unfolding response_groups
  response_groups-IsExportable ug m [] = tt
  response_groups-IsExportable ug m (d ∷ ds) =
      All-unless IsExportable (is_left_out true ug (only_replicated m) d)
        (response_group ug (only_replicated m) d) (response_groups true ug (only_replicated m) ds)
        (response_group-IsExportable ug m d) (response_groups-IsExportable ug m ds)

  -- A response to a peer holds only links and tiles that are marked for replication.
  pub collect_dashboard-exported :
      (c : DashboardCollector) (user_groups : List Text) (r : DashboardResponse)
      → collect_dashboard c user_groups true ≡ ok r
      → All
          (λ g. All (λ l. l.replicate ≡ true) g.links × All (λ t. t.replicate ≡ true) g.tiles)
          r.groups
  unfolding finish_maps respond
  collect_dashboard-exported c ug r h =
      rw (collect_dashboard-ok c ug true r h) (response_groups-IsExportable ug _ _)

  -- A response to a peer does not depend on what the peers and the foreign clusters hold, so that
  -- data does not travel from one peer through another.
  pub collect_dashboard-local :
      (c : DashboardCollector) (user_groups : List Text)
      (sync_client : Option (GoMap DashboardResponse))
      (foreign_clusters : Option (List ClusterInfo))
      → collect_dashboard
          (record c { sync_client = sync_client; foreign_clusters = foreign_clusters })
          user_groups
          true
        ≡ collect_dashboard c user_groups true
  unfolding collect_dashboard finish_maps configured collect_local
  collect_dashboard-local c ug s f = refl

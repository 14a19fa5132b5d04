-- ===== src/Dashboard/Response/Invariant.antt =====
-- The maps from which the response is made are well-formed.
use cupboard.Prelude.{
  Bool, true, false, List, [], ◌∷◌, Option, none, some, ◌≡◌, refl, arith, Bool-cases, inl, inr,
}
use cupboard.Text.{Text, codes, ◌==◌}
use cupboard.Text.Trim.{trim_space}
use cupboard.Text.Case.{Unicode}
use cupboard.GoMap.{GoMap, lookup, has, IsMap, insert-IsMap}
use cupboard.Dashboard.Types.{DashboardLinkGroup, LinkGroup, DashboardResponse}
use cupboard.Dashboard.Maps.{Maps}
use cupboard.Dashboard.Maps.WellFormed.{IsWellFormed, AreNamed, AreNamed-insert}
use cupboard.Dashboard.Collector.Keeps.{Keeps}
use cupboard.Dashboard.Collect.Config.{init_link_group, init_link_groups, init_from}
use cupboard.Dashboard.Collect.Keeps.{collector_rules, collect_static_links-IsWellFormed}
use cupboard.Dashboard.Merge.{ClusterInfo}
use cupboard.Dashboard.Merge.Keeps.{
  first_available-Keeps, merge_remote_data-IsWellFormed, merge_foreign_cluster_data-IsWellFormed,
}
use cupboard.Dashboard.Response.{
  DashboardCollector, configured, collect_local, finish_maps, only_replicated, map_slices,
  merge_peers, merge_fleet,
}

init_from-named :
    (groups : List LinkGroup) (result : GoMap DashboardLinkGroup)
    → AreNamed result
    → IsMap result
    → AreNamed (init_from groups result) × IsMap (init_from groups result)
unfolding init_from init_link_group
init_from-named [] result n o = (n, o)
init_from-named (group ∷ groups) result n o =
    elim (Bool-cases (trim_space group.name == codes "")) [
      | inl e ↦ rw e (init_from-named groups result n o)
      | inr e ↦ rw e (
          init_from-named groups _ (AreNamed-insert (trim_space group.name) _ result refl n)
            (insert-IsMap (trim_space group.name) _ result o))
    ]

has-map_slices {ℓ} :
    {A : Type ℓ} (f : List A → List A) (k : Text) (m : GoMap (List A))
    → has k (map_slices f m) ≡ has k m
unfolding has map_slices
has-map_slices f k [] = refl
has-map_slices f k ((j, xs) ∷ m) = ground (arith, has-map_slices f k m)

only_replicated-IsWellFormed : (m : Maps) → IsWellFormed m → IsWellFormed (only_replicated m)
unfolding only_replicated
only_replicated-IsWellFormed m w = record {
  links_covered = λ k e. w.links_covered k (rw has-map_slices at e);
  tiles_covered = λ k e. w.tiles_covered k (rw has-map_slices at e);
  named = w.named;
  once = w.once;
}

module _ ⦃u : Unicode⦄ where
  configured-IsWellFormed : (c : DashboardCollector) → IsWellFormed (configured c)
  unfolding configured init_link_groups
  configured-IsWellFormed c = (collect_static_links-IsWellFormed c.static_links).at _ (record {
    links_covered = λ k e. unfold has in cc e;
    tiles_covered = λ k e. unfold has in cc e;
    named = (init_from-named c.link_groups [] (λ k d e. unfold lookup in cc e) tt).0;
    once = (init_from-named c.link_groups [] (λ k d e. unfold lookup in cc e) tt).1;
  })

  collect_local-Keeps : (c : DashboardCollector) → Keeps IsWellFormed (collect_local c)
  unfolding collect_local
  collect_local-Keeps c = search (collector_rules, first_available-Keeps) depth 16

  merge_peers-IsWellFormed :
      (o : Option (GoMap DashboardResponse)) (m : Maps)
      → IsWellFormed m
      → IsWellFormed (merge_peers o m)
  unfolding merge_peers
  merge_peers-IsWellFormed none m w = w
  merge_peers-IsWellFormed (some remote) m w = merge_remote_data-IsWellFormed remote m w

  merge_fleet-IsWellFormed :
      (o : Option (List ClusterInfo)) (m : Maps) → IsWellFormed m → IsWellFormed (merge_fleet o m)
  unfolding merge_fleet
  merge_fleet-IsWellFormed none m w = w
  merge_fleet-IsWellFormed (some clusters) m w =
      merge_foreign_cluster_data-IsWellFormed clusters m w

  finish_maps-IsWellFormed :
      (c : DashboardCollector) (local_only : Bool) (m : Maps)
      → IsWellFormed m
      → IsWellFormed (finish_maps c local_only m)
  unfolding finish_maps
  finish_maps-IsWellFormed c true m w = only_replicated-IsWellFormed m w
  finish_maps-IsWellFormed c false m w =
      merge_fleet-IsWellFormed c.foreign_clusters _ (merge_peers-IsWellFormed c.sync_client m w)

  -- The maps that the response of a successful call is made from.
  abbrev pub final_maps : DashboardCollector → Bool → Maps
  final_maps c local_only = finish_maps c local_only (collect_local c (configured c)).1

  -- These maps are well-formed: each group with links or tiles has its details, the details of a key
  -- bear it as their name, and no key stands twice.
  pub final_maps-IsWellFormed :
      (c : DashboardCollector) (local_only : Bool) → IsWellFormed (final_maps c local_only)
  final_maps-IsWellFormed c local_only =
      finish_maps-IsWellFormed c local_only _
        ((collect_local-Keeps c).at (configured c) (configured-IsWellFormed c))

-- ===== src/Dashboard/Merge/Keeps.antt =====
-- The merges keep the invariant of the maps.
use cupboard.Prelude.{
  Bool, false, true, List, [], ◌∷◌, ◌++◌, Option, some, ◌≡◌, refl, arith, Option-cases, inl, inr,
}
use cupboard.Text.{Text, codes, eq_iff}
use cupboard.Text.Case.{Unicode}
use cupboard.GoMap.{GoMap, lookup, has, lookup-insert}
use cupboard.Kube.{GroupVersion}
use cupboard.Kube.Reader.{Reader, Discovery}
use cupboard.Dashboard.Types.{DashboardLink, DashboardLinkGroup, DashboardGroup, DashboardResponse}
use cupboard.Dashboard.Meta.{or_else}
use cupboard.Dashboard.Groups.{filter_links_for_replication}
use cupboard.Dashboard.Maps.{Maps}
use cupboard.Dashboard.Maps.WellFormed.{
  IsWellFormed, AreNamed, set_if_new-IsWellFormed, has-set_if_new, set_if_new,
  append_link-IsWellFormed,
}
use cupboard.Dashboard.Collector.{Collector, resource_available, log_error}
use cupboard.Dashboard.Collect.Resources.{collect_ingresses, collect_services}
use cupboard.Dashboard.Collect.Routes.{
  collect_http_routes, collect_grpc_routes, collect_tls_routes, collect_tcp_routes,
}
use cupboard.Dashboard.Collect.Forecastle.{collect_forecastle_apps}
use cupboard.Dashboard.Collector.Keeps.{log_error-Preserves, Keeps-if, Keeps, keeps_rules}
use cupboard.Dashboard.Collect.Keeps.{collector_rules}
use cupboard.Dashboard.Merge.{
  if_so, append_links, by_name, remote_detail, merge_remote_group, merge_remote_groups, merge_peer,
  merge_remote_data, first_available, collect_foreign_links, foreign_detail, add_foreign_links,
  merge_foreign_group, merge_foreign_groups, merge_cluster, merge_foreign_cluster_data, ClusterInfo,
  no_maps,
}

append_links-IsWellFormed :
    (k : Text) (source : DashboardLink → Text) (links : List DashboardLink) (m : Maps)
    → has k m.details ≡ true
    → IsWellFormed m
    → IsWellFormed (record m { groups = append_links k source links m.groups })
unfolding append_links
append_links-IsWellFormed k source [] m h w = w
append_links-IsWellFormed k source (link ∷ links) m h w =
    append_links-IsWellFormed k source links _ h
      (append_link-IsWellFormed k (record link { source = source link }) m h w)

by_name-AreNamed :
    (lgs : List DashboardLinkGroup) (result : GoMap DashboardLinkGroup)
    → AreNamed result
    → AreNamed (by_name lgs result)
unfolding by_name
by_name-AreNamed [] result h = h
by_name-AreNamed (lg ∷ lgs) result h =
    by_name-AreNamed lgs _
      (λ k d e. ground (arith, lookup-insert lg.name k lg result, eq_iff lg.name k, h k d))

remote_detail-name :
    (k source : Text) (remote : GoMap DashboardLinkGroup)
    → AreNamed remote
    → (remote_detail k source remote).name ≡ k
unfolding remote_detail
remote_detail-name k source remote h = elim (Option-cases (lookup k remote)) [
  | inl e ↦ rw (e, remote_detail) refl
  | inr (d, e) ↦ rw (e, remote_detail) (h k d e)
]

foreign_detail-name :
    (k source : Text) (temp : GoMap DashboardLinkGroup)
    → AreNamed temp
    → (foreign_detail k source temp).name ≡ k
unfolding foreign_detail
foreign_detail-name k source temp h = elim (Option-cases (lookup k temp)) [
  | inl e ↦ rw (e, foreign_detail) refl
  | inr (d, e) ↦ rw (e, foreign_detail) (h k d e)
]

merge_remote_group-IsWellFormed :
    (source : Text) (remote : GoMap DashboardLinkGroup) (group : DashboardGroup) (m : Maps)
    → AreNamed remote
    → IsWellFormed m
    → IsWellFormed (merge_remote_group source remote group m)
unfolding merge_remote_group
merge_remote_group-IsWellFormed source remote group m h w =
    let k = or_else group.link_group group.name in
    let d = remote_detail k source remote in
    append_links-IsWellFormed k (λ link. source) group.links (set_if_new k d m)
      (has-set_if_new k d m)
      (set_if_new-IsWellFormed k d m (remote_detail-name k source remote h) w)

merge_remote_groups-IsWellFormed :
    (source : Text) (remote : GoMap DashboardLinkGroup) (groups : List DashboardGroup) (m : Maps)
    → AreNamed remote
    → IsWellFormed m
    → IsWellFormed (merge_remote_groups source remote groups m)
unfolding merge_remote_groups
merge_remote_groups-IsWellFormed source remote [] m h w = w
merge_remote_groups-IsWellFormed source remote (group ∷ groups) m h w =
    merge_remote_groups-IsWellFormed source remote groups _ h
      (merge_remote_group-IsWellFormed source remote group m h w)

pub merge_remote_data-IsWellFormed :
    (data' : GoMap DashboardResponse) (m : Maps)
    → IsWellFormed m
    → IsWellFormed (merge_remote_data data' m)
unfolding merge_remote_data merge_peer
merge_remote_data-IsWellFormed [] m w = w
merge_remote_data-IsWellFormed ((peer, resp) ∷ rest) m w = merge_remote_data-IsWellFormed rest _ (
    merge_remote_groups-IsWellFormed (codes "sync:" ++ peer) (by_name resp.link_groups [])
      resp.groups m (by_name-AreNamed resp.link_groups [] (λ k d e. unfold lookup in cc e)) w)

pub first_available-Keeps :
    (discovery : Option Discovery) (kind : Text) (collect : GroupVersion → Collector)
    (gvs : List GroupVersion)
    → ((gv : GroupVersion) → Keeps IsWellFormed (collect gv))
    → Keeps IsWellFormed (first_available discovery kind collect gvs)
unfolding first_available
first_available-Keeps discovery kind collect [] h = search keeps_rules
first_available-Keeps discovery kind collect (gv ∷ gvs) h =
    Keeps-if (resource_available discovery gv kind) (h gv)
      (first_available-Keeps discovery kind collect gvs h)

no_maps-IsWellFormed : IsWellFormed no_maps
no_maps-IsWellFormed = record {
  links_covered = λ k e. unfold has in cc e;
  tiles_covered = λ k e. unfold has in cc e;
  named = λ k d e. unfold lookup in cc e;
  once = tt;
}

module _ ⦃u : Unicode⦄ where
  log_error-IsWellFormed :
      (f : Collector)
      → Keeps IsWellFormed f
      → (m : Maps) → IsWellFormed m
      → IsWellFormed (log_error f m)
  log_error-IsWellFormed f k m w = (log_error-Preserves f k).at m w

  if_so-IsWellFormed :
      (test : Bool) (f : Collector)
      → Keeps IsWellFormed f
      → (m : Maps) → IsWellFormed m
      → IsWellFormed (if_so test (log_error f) m)
  unfolding if_so
  if_so-IsWellFormed true f k m w = log_error-IsWellFormed f k m w
  if_so-IsWellFormed false f k m w = w

  collect_foreign_links-IsWellFormed :
      (c : Reader) (discovery : Option Discovery) (m : Maps)
      → IsWellFormed m
      → IsWellFormed (collect_foreign_links c discovery m)
  unfolding collect_foreign_links
  collect_foreign_links-IsWellFormed c discovery m w =
      if_so-IsWellFormed _ (collect_forecastle_apps c (codes "")) (search collector_rules) _ (
        log_error-IsWellFormed _ (search (collector_rules, first_available-Keeps)) _ (
          if_so-IsWellFormed _ (collect_tcp_routes c) (search collector_rules) _ (
            if_so-IsWellFormed _ (collect_tls_routes c) (search collector_rules) _ (
              if_so-IsWellFormed _ (collect_grpc_routes c) (search collector_rules) _ (
                if_so-IsWellFormed _ (collect_http_routes c) (search collector_rules) _ (
                  log_error-IsWellFormed (collect_services c) (search collector_rules) _ (
                    log_error-IsWellFormed (collect_ingresses c) (search collector_rules) m w)))))))

  add_foreign_links-IsWellFormed :
      (source k : Text) (temp : GoMap DashboardLinkGroup) (links : List DashboardLink) (m : Maps)
      → AreNamed temp
      → IsWellFormed m
      → IsWellFormed (add_foreign_links source k temp links m)
  unfolding add_foreign_links
  add_foreign_links-IsWellFormed source k temp [] m h w = w
  add_foreign_links-IsWellFormed source k temp (link ∷ links) m h w =
      let d = foreign_detail k source temp in
      append_links-IsWellFormed k _ (link ∷ links) (set_if_new k d m) (has-set_if_new k d m)
        (set_if_new-IsWellFormed k d m (foreign_detail-name k source temp h) w)

  merge_foreign_groups-IsWellFormed :
      (source : Text) (temp : GoMap DashboardLinkGroup) (groups : GoMap (List DashboardLink))
      (m : Maps)
      → AreNamed temp
      → IsWellFormed m
      → IsWellFormed (merge_foreign_groups source temp groups m)
  unfolding merge_foreign_groups merge_foreign_group
  merge_foreign_groups-IsWellFormed source temp [] m h w = w
  merge_foreign_groups-IsWellFormed source temp ((k, links) ∷ rest) m h w =
      merge_foreign_groups-IsWellFormed source temp rest _ h
        (add_foreign_links-IsWellFormed source k temp (filter_links_for_replication links) m h w)

  pub merge_foreign_cluster_data-IsWellFormed :
      (clusters : List ClusterInfo) (m : Maps)
      → IsWellFormed m
      → IsWellFormed (merge_foreign_cluster_data clusters m)
  unfolding merge_foreign_cluster_data merge_cluster
  merge_foreign_cluster_data-IsWellFormed [] m w = w
  merge_foreign_cluster_data-IsWellFormed (fc ∷ fcs) m w =
      let temp = collect_foreign_links fc.client (some fc.discovery) no_maps in
      let named =
        (collect_foreign_links-IsWellFormed fc.client (some fc.discovery) no_maps
          no_maps-IsWellFormed).named in
      merge_foreign_cluster_data-IsWellFormed fcs _ (
        merge_foreign_groups-IsWellFormed (codes "foreign:" ++ fc.name) temp.details temp.groups m
          named w)

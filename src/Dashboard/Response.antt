-- ===== src/Dashboard/Response.antt =====
-- `collectDashboard`: the collectors in their order, the merges, and the response.
pub mod Export
pub mod Invariant
pub mod Ordered
pub mod Sorted
pub mod Total
pub mod Visible
use cupboard.Prelude.{
  Bool, true, false, not, ◌&&◌, ◌||◌, List, [], ◌∷◌, Option, none, some, Result, ok, err,
  if◌then◌else◌,
}
use cupboard.Text.{Text, codes}
use cupboard.Text.Trim.{trim_space}
use cupboard.Text.Case.{Unicode}
use cupboard.GoMap.{GoMap}
use cupboard.Kube.{KubeError, GroupVersion}
use cupboard.Kube.Reader.{Reader, Discovery}
use cupboard.Webhook.UrlResolver.{traefik_io, traefik_containo_us}
use cupboard.Dashboard.Types.{
  DashboardLink, DashboardLinkGroup, DashboardGroup, DashboardResponse, LinkGroup, StaticLink,
}
use cupboard.Dashboard.Groups.{
  filter_links_for_groups, filter_links_for_replication, filter_tiles_for_replication,
}
use cupboard.Dashboard.Maps.{Maps, slice_at}
use cupboard.Dashboard.Order.{sort_link_groups, sort_links, sort_tiles}
use cupboard.Dashboard.Collector.{Collector, and_then, when, resource_available}
use cupboard.Dashboard.Collect.Config.{init_link_groups, collect_static_links}
use cupboard.Dashboard.Collect.Bookmarks.{collect_bookmark_groups}
use cupboard.Dashboard.Collect.Forecastle.{collect_forecastle_apps}
use cupboard.Dashboard.Collect.Resources.{
  collect_ingresses, collect_services, collect_endpoint_slices,
}
use cupboard.Dashboard.Collect.Routes.{
  collect_http_routes, collect_grpc_routes, collect_tls_routes, collect_tcp_routes,
  collect_ingress_routes, collect_dns_endpoints, gateway_v1alpha2, dns_endpoint_version,
}
use cupboard.Dashboard.Collect.Tiles.{collect_info_tiles}
use cupboard.Dashboard.Merge.{
  ClusterInfo, merge_remote_data, merge_foreign_cluster_data, first_available, gateway_group,
  forecastle_version,
}

-- `dashboardCollector`. The sync client and the fleet manager stand for what they return at the
-- call: the cached responses of the peers, and the reachable clusters.
pub record DashboardCollector : Type 0 where
  pub reader : Reader
  pub discovery : Option Discovery
  pub forecastle_instance : Text
  pub link_groups : List LinkGroup
  pub static_links : List StaticLink
  pub sync_client : Option (GoMap DashboardResponse)
  pub foreign_clusters : Option (List ClusterInfo)

-- `newDashboardCollector`
unfoldable pub new_dashboard_collector :
    Reader
    → Option Discovery
    → Text
    → List LinkGroup
    → List StaticLink
    → Option (GoMap DashboardResponse)
    → Option (List ClusterInfo)
    → DashboardCollector
new_dashboard_collector reader discovery wanted link_groups static_links sync_client clusters =
    record {
      reader = reader;
      discovery = discovery;
      forecastle_instance = trim_space wanted;
      link_groups = link_groups;
      static_links = static_links;
      sync_client = sync_client;
      foreign_clusters = clusters;
    }

abbrev pub networking_v1 : GroupVersion
networking_v1 = record { group = codes "networking.k8s.io"; version = codes "v1" }

-- `links, ok := f(links)` on each entry of a map.
unfoldable pub map_slices {ℓ} : {A : Type ℓ} → (List A → List A) → GoMap (List A) → GoMap (List A)
map_slices f [] = []
map_slices f ((k, xs) ∷ m) = (k, f xs) ∷ map_slices f m

-- The two filter loops under `if localOnly`.
unfoldable pub only_replicated : Maps → Maps
unfolding map_slices
only_replicated m = record m {
  groups = map_slices filter_links_for_replication m.groups;
  tiles = map_slices filter_tiles_for_replication m.tiles;
}

abbrev pub is_nil {ℓ} : {A : Type ℓ} → List A → Bool
is_nil [] = true
is_nil (x ∷ xs) = false

module _ ⦃u : Unicode⦄ where
  -- The maps before the first list call.
  unfoldable pub configured : DashboardCollector → Maps
  configured c =
      collect_static_links c.static_links
        (record { groups = []; details = init_link_groups c.link_groups; tiles = [] })

  -- The list calls of `collectDashboard`, in their order; the first error ends them.
  unfoldable pub collect_local : DashboardCollector → Collector
  collect_local c =
      let available = resource_available c.discovery in
      and_then (collect_bookmark_groups c.reader) (
        and_then
          (when (available forecastle_version (codes "ForecastleApp"))
            (collect_forecastle_apps c.reader c.forecastle_instance))
          (and_then (when (available networking_v1 (codes "Ingress")) (collect_ingresses c.reader))
            (and_then
              (when (available gateway_group (codes "HTTPRoute")) (collect_http_routes c.reader))
              (and_then
                (when (available gateway_group (codes "GRPCRoute")) (collect_grpc_routes c.reader))
                (and_then
                  (when (available gateway_group (codes "TLSRoute")) (collect_tls_routes c.reader))
                  (and_then
                    (when (available gateway_v1alpha2 (codes "TCPRoute"))
                      (collect_tcp_routes c.reader))
                    (and_then
                      (first_available c.discovery (codes "IngressRoute")
                        (collect_ingress_routes c.reader) (traefik_io ∷ traefik_containo_us ∷ []))
                      (and_then (collect_services c.reader) (
                        and_then (collect_endpoint_slices c.reader) (
                          and_then
                            (when (available dns_endpoint_version (codes "DNSEndpoint"))
                              (collect_dns_endpoints c.reader))
                            (collect_info_tiles c.reader)))))))))))

  merge_peers : Option (GoMap DashboardResponse) → Maps → Maps
  merge_peers none m = m
  merge_peers (some remote) m = merge_remote_data remote m

  merge_fleet : Option (List ClusterInfo) → Maps → Maps
  merge_fleet none m = m
  merge_fleet (some clusters) m = merge_foreign_cluster_data clusters m

  -- The merges, and in the sync path the filter for replication.
  unfoldable pub finish_maps : DashboardCollector → Bool → Maps → Maps
  unfolding merge_peers merge_fleet
  finish_maps c local_only m =
      if local_only
      then only_replicated m
      else merge_fleet c.foreign_clusters (merge_peers c.sync_client m)

  -- The links of a group that the user can see.
  abbrev pub shown_links : List Text → Maps → DashboardLinkGroup → List DashboardLink
  shown_links user_groups m group =
      filter_links_for_groups (slice_at group.name m.groups) user_groups

  -- `len(links) == 0 && len(tiles) == 0 && !(localOnly && group.Replicate)`
  abbrev pub is_left_out : Bool → List Text → Maps → DashboardLinkGroup → Bool
  is_left_out local_only user_groups m group =
      is_nil (shown_links user_groups m group)
      && is_nil (slice_at group.name m.tiles)
      && (not local_only || not group.replicate)

  -- The entry that the loop appends.
  abbrev pub response_group : List Text → Maps → DashboardLinkGroup → DashboardGroup
  response_group user_groups m group = record {
    name = group.display_name;
    link_group = group.name;
    links = sort_links (shown_links user_groups m group);
    tiles = sort_tiles (slice_at group.name m.tiles);
    source = group.source;
  }

  -- The loop over the sorted groups.
  unfoldable pub response_groups :
      Bool → List Text → Maps → List DashboardLinkGroup → List DashboardGroup
  response_groups local_only user_groups m [] = []
  response_groups local_only user_groups m (group ∷ rest) =
      let others = response_groups local_only user_groups m rest in
      if is_left_out local_only user_groups m group
      then others
      else response_group user_groups m group ∷ others

  unfoldable pub respond : Bool → List Text → Maps → DashboardResponse
  respond local_only user_groups m =
      let ordered = sort_link_groups m.details in
      record { link_groups = ordered; groups = response_groups local_only user_groups m ordered }

  -- `collectDashboard`
  unfoldable pub collect_dashboard :
      DashboardCollector → List Text → Bool → Result KubeError DashboardResponse
  collect_dashboard c user_groups local_only =
      let r = collect_local c (configured c) in
      elim r.0 [
        | some e ↦ err e
        | none ↦ ok (respond local_only user_groups (finish_maps c local_only r.1))
      ]

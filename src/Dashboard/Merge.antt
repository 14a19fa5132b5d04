-- ===== src/Dashboard/Merge.antt =====
-- `mergeRemoteData`, `mergeForeignClusterData` and `collectForeignLinks`: what peers and foreign
-- clusters add to the maps.
pub mod Foreign
pub mod Keeps
pub mod Laws
use cupboard.Prelude.{Bool, false, List, [], ◌∷◌, ◌++◌, Option, none, some, if◌then◌else◌}
use cupboard.Text.{Text, codes}
use cupboard.Text.Case.{Unicode}
use cupboard.GoMap.{GoMap, lookup, has, insert}
use cupboard.Kube.{GroupVersion}
use cupboard.Kube.Reader.{Reader, Discovery}
use cupboard.Webhook.UrlResolver.{traefik_io, traefik_containo_us}
use cupboard.Dashboard.Types.{DashboardLink, DashboardLinkGroup, DashboardGroup, DashboardResponse}
use cupboard.Dashboard.Meta.{or_else}
use cupboard.Dashboard.Groups.{filter_links_for_replication}
use cupboard.Dashboard.Maps.{Maps, append_at, named_group}
use cupboard.Dashboard.Collector.{Collector, done, log_error, resource_available}
use cupboard.Dashboard.Collect.Resources.{collect_ingresses, collect_services}
use cupboard.Dashboard.Collect.Routes.{
  collect_http_routes, collect_grpc_routes, collect_tls_routes, collect_tcp_routes,
  collect_ingress_routes, gateway_v1alpha2,
}
use cupboard.Dashboard.Collect.Forecastle.{collect_forecastle_apps}

-- `for _, link := range links { link.Source = ...; groups[name] = append(groups[name], link) }`
unfoldable pub append_links :
    Text
    → (DashboardLink → Text)
    → List DashboardLink
    → GoMap (List DashboardLink)
    → GoMap (List DashboardLink)
append_links name source [] groups = groups
append_links name source (link ∷ links) groups =
    append_links name source links (append_at name (record link { source = source link }) groups)

-- `remoteLinkGroups`: the last entry of a name stands.
unfoldable pub by_name :
    List DashboardLinkGroup → GoMap DashboardLinkGroup → GoMap DashboardLinkGroup
by_name [] result = result
by_name (lg ∷ lgs) result = by_name lgs (insert lg.name lg result)

-- The entry that `mergeRemoteData` makes for a group that is not there yet.
unfoldable pub remote_detail : Text → Text → GoMap DashboardLinkGroup → DashboardLinkGroup
remote_detail name source remote = elim (lookup name remote) [
  | none ↦ named_group name source
  | some lg ↦ record {
    name = lg.name;
    priority = lg.priority;
    priority_class = lg.priority_class;
    display_name = lg.display_name;
    properties = lg.properties;
    source = source;
    replicate = false;
  }
]

-- The body of the loop over the groups of a peer.
unfoldable pub merge_remote_group : Text → GoMap DashboardLinkGroup → DashboardGroup → Maps → Maps
merge_remote_group source remote group m =
    let name = or_else group.link_group group.name in
    record m {
      details =
          if has name m.details
          then m.details
          else insert name (remote_detail name source remote) m.details;
      groups = append_links name (λ link. source) group.links m.groups;
    }

merge_remote_groups : Text → GoMap DashboardLinkGroup → List DashboardGroup → Maps → Maps
merge_remote_groups source remote [] m = m
merge_remote_groups source remote (group ∷ groups) m =
    merge_remote_groups source remote groups (merge_remote_group source remote group m)

-- The body of the loop over the peers.
unfoldable pub merge_peer : Text → DashboardResponse → Maps → Maps
unfolding merge_remote_groups by_name
merge_peer peer resp m =
    merge_remote_groups (codes "sync:" ++ peer) (by_name resp.link_groups []) resp.groups m

-- `mergeRemoteData`, from the data of `GetRemoteData`.
unfoldable pub merge_remote_data : GoMap DashboardResponse → Maps → Maps
unfolding merge_peer
merge_remote_data [] m = m
merge_remote_data ((peer, resp) ∷ rest) m = merge_remote_data rest (merge_peer peer resp m)

abbrev pub gateway_group : GroupVersion
gateway_group = record { group = codes "gateway.networking.k8s.io"; version = codes "v1" }

abbrev pub forecastle_version : GroupVersion
forecastle_version = record { group = codes "forecastle.stakater.com"; version = codes "v1alpha1" }

-- The loop over Traefik's group versions, with its `break`.
unfoldable pub first_available :
    Option Discovery → Text → (GroupVersion → Collector) → List GroupVersion → Collector
first_available discovery kind collect [] = done
first_available discovery kind collect (gv ∷ gvs) =
    if resource_available discovery gv kind
    then collect gv
    else first_available discovery kind collect gvs

-- A statement under `if`, which changes the maps.
unfoldable pub if_so : Bool → (Maps → Maps) → Maps → Maps
if_so test change m = if test then change m else m

module _ ⦃u : Unicode⦄ where
  -- `collectForeignLinks` with the reader and the discovery client of a cluster. The collector that
  -- `mergeForeignClusterData` makes has no Forecastle instance.
  unfoldable pub collect_foreign_links : Reader → Option Discovery → Maps → Maps
  collect_foreign_links c discovery m =
      let available = resource_available discovery in
      let m = log_error (collect_ingresses c) m in
      let m = log_error (collect_services c) m in
      let m =
        if_so (available gateway_group (codes "HTTPRoute")) (log_error (collect_http_routes c)) m in
      let m =
        if_so (available gateway_group (codes "GRPCRoute")) (log_error (collect_grpc_routes c)) m in
      let m =
        if_so (available gateway_group (codes "TLSRoute")) (log_error (collect_tls_routes c)) m in
      let m =
        if_so (available gateway_v1alpha2 (codes "TCPRoute")) (log_error (collect_tcp_routes c))
          m in
      let m =
        log_error
          (first_available discovery (codes "IngressRoute") (collect_ingress_routes c)
            (traefik_io ∷ traefik_containo_us ∷ []))
          m in
      if_so (available forecastle_version (codes "ForecastleApp"))
        (log_error (collect_forecastle_apps c (codes ""))) m

-- `ClusterInfo` of a reachable foreign cluster.
pub record ClusterInfo : Type 0 where
  pub name : Text
  pub client : Reader
  pub discovery : Discovery

-- The entry for a group that is not there yet.
unfoldable pub foreign_detail : Text → Text → GoMap DashboardLinkGroup → DashboardLinkGroup
foreign_detail name source temp = elim (lookup name temp) [
  | none ↦ named_group name source
  | some detail ↦ record detail { source = source }
]

add_foreign_links : Text → Text → GoMap DashboardLinkGroup → List DashboardLink → Maps → Maps
add_foreign_links source name temp [] m = m
add_foreign_links source name temp (link ∷ links) m = record m {
  details =
      if has name m.details
      then m.details
      else insert name (foreign_detail name source temp) m.details;
  groups = append_links name (λ l. source ++ codes ":" ++ l.source) (link ∷ links) m.groups;
}

-- The body of the loop over the groups of a cluster.
unfoldable pub merge_foreign_group :
    Text → GoMap DashboardLinkGroup → Text → List DashboardLink → Maps → Maps
unfolding add_foreign_links
merge_foreign_group source temp name links m =
    add_foreign_links source name temp (filter_links_for_replication links) m

unfoldable pub merge_foreign_groups :
    Text → GoMap DashboardLinkGroup → GoMap (List DashboardLink) → Maps → Maps
merge_foreign_groups source temp [] m = m
merge_foreign_groups source temp ((name, links) ∷ rest) m =
    merge_foreign_groups source temp rest (merge_foreign_group source temp name links m)

abbrev pub no_maps : Maps
no_maps = record { groups = []; details = []; tiles = [] }

module _ ⦃u : Unicode⦄ where
  -- The body of the loop over the clusters.
  unfoldable pub merge_cluster : ClusterInfo → Maps → Maps
  merge_cluster fc m =
      let temp = collect_foreign_links fc.client (some fc.discovery) no_maps in
      merge_foreign_groups (codes "foreign:" ++ fc.name) temp.details temp.groups m

  -- `mergeForeignClusterData`, from the clusters of `ActiveClusters`.
  unfoldable pub merge_foreign_cluster_data : List ClusterInfo → Maps → Maps
  merge_foreign_cluster_data [] m = m
  merge_foreign_cluster_data (fc ∷ fcs) m = merge_foreign_cluster_data fcs (merge_cluster fc m)

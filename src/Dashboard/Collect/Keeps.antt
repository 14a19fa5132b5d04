-- ===== src/Dashboard/Collect/Keeps.antt =====
-- Every collector keeps the invariant of the maps.
use cupboard.Prelude.{
  Bool, true, false, List, ◌≡◌, refl, arith, if◌then◌else◌, Option-cases, inl, inr,
}
use cupboard.Text.{Text, codes}
use cupboard.Text.Trim.{trim_space}
use cupboard.Text.Case.{Unicode}
use cupboard.GoMap.{GoMap, lookup, has, has_iff_lookup}
use cupboard.Kube.{GroupVersion, ObjectMeta, Ingress, Service, Unstructured}
use cupboard.Kube.Bookmark.{Bookmark, BookmarkGroup}
use cupboard.Kube.ForecastleApp.{ForecastleApp}
use cupboard.Kube.InfoTile.{InfoTile}
use cupboard.Kube.Reader.{Reader}
use cupboard.Dashboard.Types.{DashboardLinkGroup, StaticLink}
use cupboard.Dashboard.Meta.{ResourceMeta, or_else}
use cupboard.Dashboard.Maps.{Maps, named_group, ensure_link_group}
use cupboard.Dashboard.Maps.WellFormed.{
  IsWellFormed, AreNamed, set_detail-IsWellFormed, set_if_new-IsWellFormed, has-set_if_new,
  set_if_new, append_tile-IsWellFormed, add_link-IsWellFormed,
}
use cupboard.Dashboard.Collector.{add_resource}
use cupboard.Dashboard.Collector.Keeps.{Preserves, Keeps, keeps_rules, Preserves-for_items}
use cupboard.Dashboard.Collect.Config.{collect_static_links, add_static_link}
use cupboard.Dashboard.Collect.Bookmarks.{
  collect_bookmark_groups, add_bookmark_group, add_bookmark, with_spec, detail_at,
}
use cupboard.Dashboard.Collect.Forecastle.{collect_forecastle_apps, add_forecastle_app}
use cupboard.Dashboard.Collect.Resources.{
  collect_ingresses, collect_services, collect_endpoint_slices, add_ingress, add_service,
  add_endpoint_slice,
}
use cupboard.Dashboard.Collect.Routes.{
  collect_http_routes, collect_grpc_routes, collect_tls_routes, collect_tcp_routes,
  collect_ingress_routes, collect_dns_endpoints, add_route, add_tcp_route, add_ingress_route,
  add_dns_endpoint,
}
use cupboard.Dashboard.Collect.Tiles.{collect_info_tiles, add_info_tile, info_tile}

IsWellFormed-if :
    (b : Bool) {m n : Maps} → IsWellFormed m → IsWellFormed n → IsWellFormed (if b then m else n)
IsWellFormed-if true p q = p
IsWellFormed-if false p q = q

add_resource-IsWellFormed :
    (source : Text) (meta : ResourceMeta) → Preserves IsWellFormed (add_resource source meta)
unfolding add_resource
add_resource-IsWellFormed source meta = record {
  at = λ m w. search (IsWellFormed-if, add_link-IsWellFormed);
}

add_ingress-IsWellFormed : (ing : Ingress) → Preserves IsWellFormed (add_ingress ing)
unfolding add_ingress
add_ingress-IsWellFormed ing = add_resource-IsWellFormed _ _

add_service-IsWellFormed : (svc : Service) → Preserves IsWellFormed (add_service svc)
unfolding add_service
add_service-IsWellFormed svc = add_resource-IsWellFormed _ _

add_endpoint_slice-IsWellFormed :
    (eps : ObjectMeta) → Preserves IsWellFormed (add_endpoint_slice eps)
unfolding add_endpoint_slice
add_endpoint_slice-IsWellFormed eps = add_resource-IsWellFormed _ _

add_route-IsWellFormed :
    (source : Text) (route : Unstructured) → Preserves IsWellFormed (add_route source route)
unfolding add_route
add_route-IsWellFormed source route = add_resource-IsWellFormed _ _

add_tcp_route-IsWellFormed : (route : Unstructured) → Preserves IsWellFormed (add_tcp_route route)
unfolding add_tcp_route
add_tcp_route-IsWellFormed route = add_resource-IsWellFormed _ _

add_ingress_route-IsWellFormed :
    (route : Unstructured) → Preserves IsWellFormed (add_ingress_route route)
unfolding add_ingress_route
add_ingress_route-IsWellFormed route = add_resource-IsWellFormed _ _

add_dns_endpoint-IsWellFormed : (ep : Unstructured) → Preserves IsWellFormed (add_dns_endpoint ep)
unfolding add_dns_endpoint
add_dns_endpoint-IsWellFormed ep = add_resource-IsWellFormed _ _

detail_at-named :
    (k : Text) (details : GoMap DashboardLinkGroup)
    → has k details ≡ true
    → AreNamed details
    → (detail_at k details).name ≡ k
unfolding detail_at
detail_at-named k details h n = elim (Option-cases (lookup k details)) [
  | inl e ↦ absurd (ground (arith, has_iff_lookup k details))
  | inr (d, e) ↦ rw (e, detail_at) (n k d e)
]

add_bookmark_group-IsWellFormed :
    (item : BookmarkGroup) → Preserves IsWellFormed (add_bookmark_group item)
unfolding add_bookmark_group ensure_link_group with_spec
add_bookmark_group-IsWellFormed item = record {
  at = λ m w.
      let k = item.meta.name in
      let d = named_group k (codes "local") in
      let w' = set_if_new-IsWellFormed k d m refl w in
      set_detail-IsWellFormed k _ (set_if_new k d m)
        (detail_at-named k (set_if_new k d m).details (has-set_if_new k d m) w'.named) w';
}

add_bookmark-IsWellFormed :
    (replicate : GoMap Bool) (b : Bookmark) → Preserves IsWellFormed (add_bookmark replicate b)
unfolding add_bookmark
add_bookmark-IsWellFormed replicate b = record {
  at = λ m w. elim (Option-cases b.status.url_reachable) [
    | inl e ↦ rw e w
    | inr (r, e) ↦ rw e (IsWellFormed-if r (add_link-IsWellFormed _ _ m w) w)
  ];
}

add_info_tile-IsWellFormed : (item : InfoTile) → Preserves IsWellFormed (add_info_tile item)
unfolding add_info_tile
add_info_tile-IsWellFormed item = record {
  at = λ m w.
      let k = or_else (trim_space item.spec.group) item.meta.name in
      let d = named_group k (codes "infotile") in
      append_tile-IsWellFormed k (info_tile item) (set_if_new k d m) (has-set_if_new k d m)
        (set_if_new-IsWellFormed k d m refl w);
}

module _ ⦃u : Unicode⦄ where
  add_static_link-IsWellFormed : (link : StaticLink) → Preserves IsWellFormed (add_static_link link)
  unfolding add_static_link
  add_static_link-IsWellFormed link = record {
    at = λ m w. search (IsWellFormed-if, add_link-IsWellFormed);
  }

  pub collect_static_links-IsWellFormed :
      (links : List StaticLink) → Preserves IsWellFormed (collect_static_links links)
  unfolding collect_static_links
  collect_static_links-IsWellFormed links = Preserves-for_items links add_static_link-IsWellFormed

  add_forecastle_app-IsWellFormed :
      (c : Reader) (wanted : Text) (item : ForecastleApp)
      → Preserves IsWellFormed (add_forecastle_app c wanted item)
  unfolding add_forecastle_app
  add_forecastle_app-IsWellFormed c wanted item = record {
    at = λ m w. search (IsWellFormed-if, add_link-IsWellFormed) depth 7;
  }

  pub collect_forecastle_apps-Keeps :
      (c : Reader) (wanted : Text) → Keeps IsWellFormed (collect_forecastle_apps c wanted)
  unfolding collect_forecastle_apps
  collect_forecastle_apps-Keeps c wanted = search (keeps_rules, add_forecastle_app-IsWellFormed)

module _ (c : Reader) where
  pub collect_bookmark_groups-Keeps : Keeps IsWellFormed (collect_bookmark_groups c)
  unfolding collect_bookmark_groups
  collect_bookmark_groups-Keeps =
      search (keeps_rules, add_bookmark_group-IsWellFormed, add_bookmark-IsWellFormed)

  pub collect_ingresses-Keeps : Keeps IsWellFormed (collect_ingresses c)
  unfolding collect_ingresses
  collect_ingresses-Keeps = search (keeps_rules, add_ingress-IsWellFormed)

  pub collect_services-Keeps : Keeps IsWellFormed (collect_services c)
  unfolding collect_services
  collect_services-Keeps = search (keeps_rules, add_service-IsWellFormed)

  pub collect_endpoint_slices-Keeps : Keeps IsWellFormed (collect_endpoint_slices c)
  unfolding collect_endpoint_slices
  collect_endpoint_slices-Keeps = search (keeps_rules, add_endpoint_slice-IsWellFormed)

  pub collect_http_routes-Keeps : Keeps IsWellFormed (collect_http_routes c)
  unfolding collect_http_routes
  collect_http_routes-Keeps = search (keeps_rules, add_route-IsWellFormed)

  pub collect_grpc_routes-Keeps : Keeps IsWellFormed (collect_grpc_routes c)
  unfolding collect_grpc_routes
  collect_grpc_routes-Keeps = search (keeps_rules, add_route-IsWellFormed)

  pub collect_tls_routes-Keeps : Keeps IsWellFormed (collect_tls_routes c)
  unfolding collect_tls_routes
  collect_tls_routes-Keeps = search (keeps_rules, add_route-IsWellFormed)

  pub collect_tcp_routes-Keeps : Keeps IsWellFormed (collect_tcp_routes c)
  unfolding collect_tcp_routes
  collect_tcp_routes-Keeps = search (keeps_rules, add_tcp_route-IsWellFormed)

  pub collect_ingress_routes-Keeps :
      (gv : GroupVersion) → Keeps IsWellFormed (collect_ingress_routes c gv)
  unfolding collect_ingress_routes
  collect_ingress_routes-Keeps gv = search (keeps_rules, add_ingress_route-IsWellFormed)

  pub collect_dns_endpoints-Keeps : Keeps IsWellFormed (collect_dns_endpoints c)
  unfolding collect_dns_endpoints
  collect_dns_endpoints-Keeps = search (keeps_rules, add_dns_endpoint-IsWellFormed)

  pub collect_info_tiles-Keeps : Keeps IsWellFormed (collect_info_tiles c)
  unfolding collect_info_tiles
  collect_info_tiles-Keeps = search (keeps_rules, add_info_tile-IsWellFormed)

pub ruleset collector_rules = (
  keeps_rules, collect_bookmark_groups-Keeps, collect_forecastle_apps-Keeps,
  collect_ingresses-Keeps, collect_services-Keeps, collect_endpoint_slices-Keeps,
  collect_http_routes-Keeps, collect_grpc_routes-Keeps, collect_tls_routes-Keeps,
  collect_tcp_routes-Keeps, collect_ingress_routes-Keeps, collect_dns_endpoints-Keeps,
  collect_info_tiles-Keeps,
)

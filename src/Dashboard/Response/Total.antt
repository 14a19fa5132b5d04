-- ===== src/Dashboard/Response/Total.antt =====
-- When `collectDashboard` returns no error.
use cupboard.Prelude.{List, Result, ok, err, ◌≡◌, refl}
use cupboard.Text.{Text}
use cupboard.Text.Case.{Unicode}
use cupboard.Kube.{KubeError, GroupVersionKind}
use cupboard.Kube.InfoTile.{InfoTile}
use cupboard.Kube.Reader.{Reader}
use cupboard.Dashboard.Collector.Succeeds.{Succeeds, succeeds_rules, IsListed, IsListedOrMissing}
use cupboard.Dashboard.Collector.{enabled_labels}
use cupboard.Dashboard.Collect.Bookmarks.{collect_bookmark_groups}
use cupboard.Dashboard.Collect.Forecastle.{collect_forecastle_apps}
use cupboard.Dashboard.Collect.Resources.{
  collect_ingresses, collect_services, collect_endpoint_slices,
}
use cupboard.Dashboard.Collect.Routes.{
  collect_http_routes, collect_grpc_routes, collect_tls_routes, collect_tcp_routes,
  collect_ingress_routes, collect_dns_endpoints,
}
use cupboard.Dashboard.Collect.Tiles.{collect_info_tiles, wrap_error}
use cupboard.Dashboard.Response.{
  Bool, DashboardCollector, collect_dashboard, collect_local, respond, configured,
}
use cupboard.Dashboard.Response.Invariant.{final_maps}

-- The list calls answer: those of the kinds that every cluster has, and of the program's own, with
-- items, the others with items or that the kind is not found.
pub record IsReadable (c : Reader) : Type 0 where
  pub bookmark_groups : IsListed c.list_bookmark_groups
  pub bookmarks : IsListed c.list_bookmarks
  pub info_tiles : IsListed c.list_info_tiles
  pub ingresses : IsListed (c.list_ingresses enabled_labels)
  pub services : IsListed (c.list_services enabled_labels)
  pub endpoint_slices : IsListed (c.list_endpoint_slices enabled_labels)
  pub forecastle_apps : IsListedOrMissing c.list_forecastle_apps
  pub unstructured :
      (kind : GroupVersionKind) → IsListedOrMissing (c.list_unstructured kind enabled_labels)

wrap_error-IsListed :
    (items : Result KubeError (List InfoTile)) → IsListed items → IsListed (wrap_error items)
unfolding wrap_error
wrap_error-IsListed (ok items) h = tt
wrap_error-IsListed (err e) h = elim h [ ]

module _ ⦃u : Unicode⦄ where
  collect_local-Succeeds :
      (c : DashboardCollector) → IsReadable c.reader → Succeeds (collect_local c)
  unfolding collect_local collect_bookmark_groups collect_forecastle_apps collect_ingresses
      collect_services collect_endpoint_slices collect_http_routes collect_grpc_routes
      collect_tls_routes collect_tcp_routes collect_ingress_routes collect_dns_endpoints
      collect_info_tiles
  collect_local-Succeeds c r = search (succeeds_rules, r.unstructured, wrap_error-IsListed) depth 18

  -- If the list calls answer, `collectDashboard` returns a response, and no error: a kind that the
  -- cluster does not know stops nothing.
  pub collect_dashboard-succeeds :
      (c : DashboardCollector) (user_groups : List Text) (local_only : Bool)
      → IsReadable c.reader
      → collect_dashboard c user_groups local_only
        ≡ ok (respond local_only user_groups (final_maps c local_only))
  unfolding collect_dashboard
  collect_dashboard-succeeds c ug lo r =
      rw (collect_dashboard, (collect_local-Succeeds c r).at (configured c)) refl

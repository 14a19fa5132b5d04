-- ===== src/Dashboard/Merge/Foreign.antt =====
-- What is collected from a foreign cluster, said without errors.
use cupboard.Prelude.{
  Bool, true, false, List, [], ◌∷◌, Option, Result, ok, err, ◌≡◌, refl, if◌then◌else◌, Bool-cases,
  inl, inr,
}
use cupboard.Text.{Text, codes}
use cupboard.Text.Case.{Unicode}
use cupboard.Kube.{KubeError, GroupVersion, GroupVersionKind}
use cupboard.Kube.Reader.{Reader, Discovery}
use cupboard.Webhook.UrlResolver.{traefik_io, traefik_containo_us}
use cupboard.Dashboard.Maps.{Maps}
use cupboard.Dashboard.Collector.{
  done, for_items, collect_list, collect_list_if_found, log_error, resource_available,
  enabled_labels,
}
use cupboard.Dashboard.Collect.Resources.{
  collect_ingresses, collect_services, add_ingress, add_service,
}
use cupboard.Dashboard.Collect.Routes.{
  collect_http_routes, collect_grpc_routes, collect_tls_routes, collect_tcp_routes,
  collect_ingress_routes, add_route, add_tcp_route, add_ingress_route, gateway_v1alpha2,
}
use cupboard.Dashboard.Collect.Forecastle.{collect_forecastle_apps, add_forecastle_app}
use cupboard.Dashboard.Merge.{
  collect_foreign_links, first_available, if_so, gateway_group, forecastle_version,
}

-- The items of a list call; there are none if it fails.
abbrev pub items_of {ℓ} : {A : Type ℓ} → Result KubeError (List A) → List A
items_of (err e) = []
items_of (ok items) = items

-- The items of a kind that the cluster serves.
abbrev pub served {ℓ} : {A : Type ℓ} → Bool → Result KubeError (List A) → List A
served test answer = if test then items_of answer else []

log_error-collect_list :
    {A : Type 0} (answer : Result KubeError (List A)) (body : A → Maps → Maps) (m : Maps)
    → log_error (collect_list answer body) m ≡ for_items body (items_of answer) m
unfolding log_error collect_list for_items
log_error-collect_list (err e) body m = refl
log_error-collect_list (ok items) body m = refl

log_error-if_found :
    {A : Type 0} (answer : Result KubeError (List A)) (body : A → Maps → Maps) (m : Maps)
    → log_error (collect_list_if_found answer body) m ≡ for_items body (items_of answer) m
unfolding log_error collect_list_if_found for_items
log_error-if_found (err e) body m = refl
log_error-if_found (ok items) body m = refl

if_so-served :
    {A : Type 0} (test : Bool) (answer : Result KubeError (List A)) (body : A → Maps → Maps)
    (m : Maps)
    → if_so test (log_error (collect_list_if_found answer body)) m
      ≡ for_items body (served test answer) m
unfolding if_so for_items
if_so-served true answer body m = log_error-if_found answer body m
if_so-served false answer body m = refl

abbrev pub gateway_kind : Text → GroupVersionKind
gateway_kind kind = record { group_version = gateway_group; kind = kind }

module _ ⦃u : Unicode⦄ where
  -- Each kind is listed on its own: all items of the kinds that the cluster serves are added, those of
  -- the first group of Traefik that it serves, and a list call that fails counts as one without items.
  abbrev pub foreign_links : Reader → Option Discovery → Maps → Maps
  foreign_links c discovery m =
      let has = resource_available discovery in
      let untyped = λ (kind : GroupVersionKind). c.list_unstructured kind enabled_labels in
      let routes = λ (gv : GroupVersion).
        untyped (record { group_version = gv; kind = codes "IngressRouteList" }) in
      let m = for_items add_ingress (items_of (c.list_ingresses enabled_labels)) m in
      let m = for_items add_service (items_of (c.list_services enabled_labels)) m in
      let m =
        for_items (add_route (codes "httproute"))
          (served (has gateway_group (codes "HTTPRoute"))
            (untyped (gateway_kind (codes "HTTPRouteList"))))
          m in
      let m =
        for_items (add_route (codes "grpcroute"))
          (served (has gateway_group (codes "GRPCRoute"))
            (untyped (gateway_kind (codes "GRPCRouteList"))))
          m in
      let m =
        for_items (add_route (codes "tlsroute"))
          (served (has gateway_group (codes "TLSRoute"))
            (untyped (gateway_kind (codes "TLSRouteList"))))
          m in
      let m =
        for_items add_tcp_route
          (served (has gateway_v1alpha2 (codes "TCPRoute"))
            (untyped (record { group_version = gateway_v1alpha2; kind = codes "TCPRouteList" })))
          m in
      let m =
        for_items add_ingress_route
          (if has traefik_io (codes "IngressRoute")
            then items_of (routes traefik_io)
            else served (has traefik_containo_us (codes "IngressRoute"))
                (routes traefik_containo_us))
          m in
      for_items (add_forecastle_app c (codes ""))
        (served (has forecastle_version (codes "ForecastleApp")) c.list_forecastle_apps) m

  first_available-served :
      (c : Reader) (discovery : Option Discovery) (m : Maps)
      → log_error
          (first_available discovery
            (codes "IngressRoute")
            (collect_ingress_routes c)
            (traefik_io ∷ traefik_containo_us ∷ []))
          m
        ≡ for_items add_ingress_route
            (if resource_available discovery traefik_io (codes "IngressRoute")
              then items_of (
                  c.list_unstructured
                    (record { group_version = traefik_io; kind = codes "IngressRouteList" })
                    enabled_labels)
              else served
                  (resource_available discovery traefik_containo_us (codes "IngressRoute"))
                  (c.list_unstructured
                    (record {
                      group_version = traefik_containo_us;
                      kind = codes "IngressRouteList";
                    })
                    enabled_labels))
            m
  unfolding first_available collect_ingress_routes
  first_available-served c discovery m =
      elim (Bool-cases (resource_available discovery traefik_io (codes "IngressRoute"))) [
        | inl e ↦ rw e (log_error-if_found _ add_ingress_route m)
        | inr e ↦
            elim (Bool-cases
              (resource_available discovery traefik_containo_us (codes "IngressRoute"))) [
                | inl k ↦ rw (e, k) (log_error-if_found _ add_ingress_route m)
                | inr k ↦ rw (e, k) (unfold log_error done for_items in refl)
              ]
      ]

  -- Collecting from a foreign cluster adds all items of the kinds that it serves and lists, whichever
  -- list calls of other kinds fail.
  pub collect_foreign_links-foreign_links :
      (c : Reader) (discovery : Option Discovery) (m : Maps)
      → collect_foreign_links c discovery m ≡ foreign_links c discovery m
  unfolding collect_foreign_links collect_ingresses collect_services collect_http_routes
      collect_grpc_routes collect_tls_routes collect_tcp_routes collect_forecastle_apps
  collect_foreign_links-foreign_links c discovery m =
      rw
        (
          log_error-collect_list, log_error-collect_list, if_so-served, if_so-served, if_so-served,
          if_so-served, if_so-served, first_available-served,
        )
        refl

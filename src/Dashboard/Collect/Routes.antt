-- ===== src/Dashboard/Collect/Routes.antt =====
-- The collectors of untyped resources: Gateway API routes, Traefik routes and DNS endpoints.
use cupboard.Prelude.{List, [], ◌∷◌, Option, none, some, Result, ok, err}
use cupboard.Text.{Text, codes}
use cupboard.Any.{Any, get, as_string, as_object}
use cupboard.Kube.{GroupVersion, Unstructured}
use cupboard.Kube.Reader.{Reader}
use cupboard.Webhook.Host.{first_host, first_route_host}
use cupboard.Webhook.UrlResolver.{gateway_v1}
use cupboard.Dashboard.Meta.{resource_meta_from}
use cupboard.Dashboard.Maps.{Maps}
use cupboard.Dashboard.Collector.{Collector, collect_list_if_found, add_resource, enabled_labels}
use cupboard.Dashboard.Collect.Resources.{derive_url, host_url}

-- What an accessor found; its error counts as nothing found.
found {ℓ} : {A : Type ℓ} → Result Text (Option (List A)) → List A
found (err e) = []
found (ok none) = []
found (ok (some xs)) = xs

abbrev spec_path : Text → List Text
spec_path field = codes "spec" ∷ field ∷ []

-- The loop body for a route with `spec.hostnames`.
unfoldable pub add_route : Text → Unstructured → Maps → Maps
unfolding found
add_route source route = add_resource source (
    derive_url
      (host_url (first_host (found (route.nested_string_slice (spec_path (codes "hostnames"))))))
      (resource_meta_from route.meta))

-- `collectHTTPRoutes`
unfoldable pub collect_http_routes : Reader → Collector
collect_http_routes c =
    collect_list_if_found (c.list_unstructured (gateway_v1 (codes "HTTPRouteList")) enabled_labels)
      (add_route (codes "httproute"))

-- `collectGRPCRoutes`
unfoldable pub collect_grpc_routes : Reader → Collector
collect_grpc_routes c =
    collect_list_if_found (c.list_unstructured (gateway_v1 (codes "GRPCRouteList")) enabled_labels)
      (add_route (codes "grpcroute"))

-- `collectTLSRoutes`
unfoldable pub collect_tls_routes : Reader → Collector
collect_tls_routes c =
    collect_list_if_found (c.list_unstructured (gateway_v1 (codes "TLSRouteList")) enabled_labels)
      (add_route (codes "tlsroute"))

unfoldable pub add_tcp_route : Unstructured → Maps → Maps
add_tcp_route route = add_resource (codes "tcproute") (resource_meta_from route.meta)

abbrev pub gateway_v1alpha2 : GroupVersion
gateway_v1alpha2 = record { group = codes "gateway.networking.k8s.io"; version = codes "v1alpha2" }

-- `collectTCPRoutes`
unfoldable pub collect_tcp_routes : Reader → Collector
collect_tcp_routes c =
    collect_list_if_found
      (c.list_unstructured
        (record { group_version = gateway_v1alpha2; kind = codes "TCPRouteList" }) enabled_labels)
      add_tcp_route

unfoldable pub add_ingress_route : Unstructured → Maps → Maps
unfolding found
add_ingress_route route = add_resource (codes "ingressroute") (
    derive_url
      (host_url (first_route_host (found (route.nested_slice (spec_path (codes "routes"))))))
      (resource_meta_from route.meta))

-- `collectIngressRoutes`
unfoldable pub collect_ingress_routes : Reader → GroupVersion → Collector
collect_ingress_routes c gv =
    collect_list_if_found
      (c.list_unstructured (record { group_version = gv; kind = codes "IngressRouteList" })
        enabled_labels)
      add_ingress_route

-- `endpointMap["dnsName"].(string)`, "" where the code goes on to the next endpoint.
dns_name : Any → Text
dns_name endpoint = elim (as_object endpoint) [
  | none ↦ codes ""
  | some fields ↦ elim (get (codes "dnsName") fields) [
    | none ↦ codes ""
    | some value ↦ elim (as_string value) [ none ↦ codes "" | some name ↦ name ]
  ]
]

dns_names : List Any → List Text
unfolding dns_name
dns_names [] = []
dns_names (endpoint ∷ endpoints) = dns_name endpoint ∷ dns_names endpoints

unfoldable pub add_dns_endpoint : Unstructured → Maps → Maps
unfolding found dns_names
add_dns_endpoint ep = add_resource (codes "dnsendpoint") (
    derive_url
      (host_url (first_host (dns_names (found (ep.nested_slice (spec_path (codes "endpoints")))))))
      (resource_meta_from ep.meta))

abbrev pub dns_endpoint_version : GroupVersion
dns_endpoint_version = record { group = codes "externaldns.k8s.io"; version = codes "v1alpha1" }

-- `collectDNSEndpoints`
unfoldable pub collect_dns_endpoints : Reader → Collector
collect_dns_endpoints c =
    collect_list_if_found
      (c.list_unstructured
        (record { group_version = dns_endpoint_version; kind = codes "DNSEndpointList" })
        enabled_labels)
      add_dns_endpoint

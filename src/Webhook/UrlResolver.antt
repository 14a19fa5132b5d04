-- ===== src/Webhook/UrlResolver.antt =====
-- internal/webhook/dashboard/v1alpha1/url_resolver.go. A `fmt.Errorf` error is a constructor with
-- the values that it is made from.
pub mod Laws
use cupboard.Prelude.{List, [], ◌∷◌, Option, none, some, Result, ok, err, if◌then◌else◌}
use cupboard.Text.{Text, codes}
use cupboard.Text.Trim.{is_blank}
use cupboard.Any.{Any}
use cupboard.Kube.{KubeError, GroupVersion, GroupVersionKind, Unstructured}
use cupboard.Kube.Bookmark.{UrlSource, LocalObjectReference}
use cupboard.Kube.Reader.{Reader}
use cupboard.Webhook.Host.{first_host, https_url, first_route_host, service_url}

pub data Reference : Type 0 where
  ingress http_route grpc_route service route ingress_route : Reference

pub data ResolveError : Type 0 where
  -- "urlFrom must not be nil" and "urlFrom must set one reference"
  missing_source no_reference : ResolveError
  -- `"%sRef %q: %w"` around an error of the client, and around one of an accessor
  lookup_failed : Reference → Text → KubeError → ResolveError
  malformed : Reference → Text → Text → ResolveError
  -- "has no host rules", "has no hostnames", "has no spec.host", "has no parsable host"
  no_host : Reference → Text → ResolveError
  -- "has no ports", "has no routes", "not found"
  no_ports no_routes not_found : Text → ResolveError

abbrev pub Resolved : Type 0
Resolved = Result ResolveError Text

abbrev pub gateway_v1 : Text → GroupVersionKind
gateway_v1 kind = record {
  group_version = record { group = codes "gateway.networking.k8s.io"; version = codes "v1" };
  kind = kind;
}

abbrev spec_path : Text → List Text
spec_path field = codes "spec" ∷ field ∷ []

found_host : Reference → Text → Option Text → Resolved
found_host ref name none = err (no_host ref name)
found_host ref name (some host) = ok (https_url host)

-- `resolveIngressURL`
unfoldable pub resolve_ingress_url : Reader → Text → Text → Resolved
unfolding found_host
resolve_ingress_url c namespace name = elim (c.get_ingress namespace name) [
  | err e ↦ err (lookup_failed ingress name e)
  | ok object ↦ found_host ingress name (first_host object.hosts)
]

-- The hostnames of an untyped route.
hostnames_url : Reference → Text → Unstructured → Resolved
unfolding found_host
hostnames_url ref name object = elim (object.nested_string_slice (spec_path (codes "hostnames"))) [
  | err e ↦ err (malformed ref name e)
  | ok none ↦ found_host ref name none
  | ok (some hostnames) ↦ found_host ref name (first_host hostnames)
]

-- `resolveHTTPRouteURL`
unfoldable pub resolve_http_route_url : Reader → Text → Text → Resolved
unfolding hostnames_url
resolve_http_route_url c namespace name =
    elim (c.get_unstructured (gateway_v1 (codes "HTTPRoute")) namespace name) [
      | err e ↦ err (lookup_failed http_route name e)
      | ok object ↦ hostnames_url http_route name object
    ]

-- `resolveGRPCRouteURL`
unfoldable pub resolve_grpc_route_url : Reader → Text → Text → Resolved
unfolding hostnames_url
resolve_grpc_route_url c namespace name =
    elim (c.get_unstructured (gateway_v1 (codes "GRPCRoute")) namespace name) [
      | err e ↦ err (lookup_failed grpc_route name e)
      | ok object ↦ hostnames_url grpc_route name object
    ]

-- `resolveServiceURL`
unfoldable pub resolve_service_url : Reader → Text → Text → Resolved
resolve_service_url c namespace name = elim (c.get_service namespace name) [
  | err e ↦ err (lookup_failed service name e)
  | ok object ↦ elim object.ports [
    | [] ↦ err (no_ports name)
    | port ∷ _ ↦ ok (service_url object.meta port)
  ]
]

-- `resolveOpenShiftRouteURL`
unfoldable pub resolve_open_shift_route_url : Reader → Text → Text → Resolved
resolve_open_shift_route_url c namespace name =
    elim (c.get_unstructured
      (record {
        group_version = record { group = codes "route.openshift.io"; version = codes "v1" };
        kind = codes "Route";
      })
      namespace name) [
        | err e ↦ err (lookup_failed route name e)
        | ok object ↦ elim (object.nested_string (spec_path (codes "host"))) [
          | err e ↦ err (malformed route name e)
          | ok none ↦ err (no_host route name)
          | ok (some host) ↦ if is_blank host then err (no_host route name) else ok (https_url host)
        ]
      ]

routes_url : Text → List Any → Resolved
unfolding found_host
routes_url name [] = err (no_routes name)
routes_url name (r ∷ routes) = found_host ingress_route name (first_route_host (r ∷ routes))

traefik_url : Text → Unstructured → Resolved
unfolding routes_url
traefik_url name object = elim (object.nested_slice (spec_path (codes "routes"))) [
  | err e ↦ err (malformed ingress_route name e)
  | ok none ↦ err (no_routes name)
  | ok (some routes) ↦ routes_url name routes
]

-- The loop over the group versions: the first one with such an object decides.
first_traefik_url : Reader → Text → Text → List GroupVersion → Resolved
unfolding traefik_url
first_traefik_url c namespace name [] = err (not_found name)
first_traefik_url c namespace name (gv ∷ gvs) =
    elim (c.get_unstructured (record { group_version = gv; kind = codes "IngressRoute" }) namespace
      name) [ err e ↦ first_traefik_url c namespace name gvs | ok object ↦ traefik_url name object ]

abbrev pub traefik_io : GroupVersion
traefik_io = record { group = codes "traefik.io"; version = codes "v1alpha1" }

abbrev pub traefik_containo_us : GroupVersion
traefik_containo_us = record { group = codes "traefik.containo.us"; version = codes "v1alpha1" }

-- `resolveTraefikIngressRouteURL`
unfoldable pub resolve_traefik_ingress_route_url : Reader → Text → Text → Resolved
unfolding first_traefik_url
resolve_traefik_ingress_route_url c namespace name =
    first_traefik_url c namespace name (traefik_containo_us ∷ traefik_io ∷ [])

-- `if ref != nil { return resolve(ref.Name) }`, and what follows.
abbrev or_next : Option LocalObjectReference → (Text → Resolved) → Resolved → Resolved
or_next none resolve next = next
or_next (some ref) resolve next = resolve ref.name

-- `ResolveURLFromSource`
unfoldable pub resolve_url_from_source : Reader → Text → Option UrlSource → Resolved
resolve_url_from_source c namespace none = err missing_source
resolve_url_from_source c namespace (some source) =
    or_next source.ingress_ref (resolve_ingress_url c namespace) (
      or_next source.http_route_ref (resolve_http_route_url c namespace) (
        or_next source.grpc_route_ref (resolve_grpc_route_url c namespace) (
          or_next source.service_ref (resolve_service_url c namespace) (
            or_next source.route_ref (resolve_open_shift_route_url c namespace) (
              or_next source.ingress_route_ref (resolve_traefik_ingress_route_url c namespace)
                (err no_reference))))))

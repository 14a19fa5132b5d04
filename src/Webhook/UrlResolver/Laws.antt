-- ===== src/Webhook/UrlResolver/Laws.antt =====
-- What a resolved reference is.
use cupboard.Prelude.{
  true, false, List, [], ◌∷◌, Option, none, some, Result, ok, err, ◌≡◌, ◌⊎◌, inl, inr, refl, subst,
  if◌then◌else◌, ◌==◌ as nat_eq, ℕ, Bool-cases,
}
use cupboard.Text.{Text, codes}
use cupboard.Text.Trim.{is_blank}
use cupboard.Text.Search.{has_prefix, has_prefix-append}
use cupboard.Any.{Any}
use cupboard.Kube.{KubeError, ObjectMeta, GroupVersion, Unstructured}
use cupboard.Kube.Bookmark.{UrlSource, LocalObjectReference}
use cupboard.Kube.Reader.{Reader}
use cupboard.Webhook.Host.{first_host, https_url, first_route_host, service_url}
use cupboard.Webhook.UrlResolver.{
  traefik_containo_us, traefik_io, Reference, ingress, http_route, grpc_route, service, route,
  ingress_route, Resolved, ResolveError, lookup_failed, malformed, no_host, no_ports, no_routes,
  found_host, resolve_ingress_url, hostnames_url, resolve_http_route_url, resolve_grpc_route_url,
  resolve_service_url, resolve_open_shift_route_url, routes_url, traefik_url, first_traefik_url,
  resolve_traefik_ingress_route_url, or_next, resolve_url_from_source,
}

-- A URL of HTTP or HTTPS.
abbrev pub IsWebUrl : Text → Type 0
IsWebUrl url =
    (has_prefix url (codes "https://") ≡ true) ⊎ (has_prefix url (codes "http://") ≡ true)

-- An error, or such a URL.
abbrev IsWeb : Resolved → Type 0
IsWeb (err e) = Unit
IsWeb (ok url) = IsWebUrl url

https_url-IsWebUrl : (host : Text) → IsWebUrl (https_url host)
unfolding https_url
https_url-IsWebUrl host = inl (has_prefix-append (codes "https://") host)

service_url-IsWebUrl : (meta : ObjectMeta) (port : ℕ) → IsWebUrl (service_url meta port)
unfolding service_url has_prefix
service_url-IsWebUrl meta port = elim (Bool-cases (nat_eq port 443)) [
  | inl e ↦ rw e (inl refl)
  | inr e ↦ rw e (inr refl)
]

found_host-IsWeb :
    (ref : Reference) (name : Text) (host : Option Text) → IsWeb (found_host ref name host)
unfolding found_host
found_host-IsWeb ref name none = tt
found_host-IsWeb ref name (some host) = https_url-IsWebUrl host

-- A call that fails, and what follows it.
IsWeb-result :
    {A E : Type 0} (fails : E → ResolveError) (next : A → Resolved) (r : Result E A)
    → ((a : A) → IsWeb (next a))
    → IsWeb (elim r as (λ _. Resolved) [ err e ↦ err (fails e) | ok a ↦ next a ])
IsWeb-result fails next (err e) h = tt
IsWeb-result fails next (ok a) h = h a

-- An answer that may be absent, and what follows it.
IsWeb-option :
    {A : Type 0} (absent : Resolved) (next : A → Resolved) (o : Option A)
    → IsWeb absent
    → ((a : A) → IsWeb (next a))
    → IsWeb (elim o as (λ _. Resolved) [ none ↦ absent | some a ↦ next a ])
IsWeb-option absent next none h k = h
IsWeb-option absent next (some a) h k = k a

hostnames_url-IsWeb :
    (ref : Reference) (name : Text) (object : Unstructured) → IsWeb (hostnames_url ref name object)
unfolding hostnames_url
hostnames_url-IsWeb ref name object =
    go (object.nested_string_slice (codes "spec" ∷ codes "hostnames" ∷ []))
  where
    go :
        (r : Result Text (Option (List Text)))
        → IsWeb (elim r as (λ _. Resolved) [
          | err e ↦ err (malformed ref name e)
          | ok none ↦ found_host ref name none
          | ok (some hostnames) ↦ found_host ref name (first_host hostnames)
        ])
    go (err e) = tt
    go (ok none) = tt
    go (ok (some hostnames)) = found_host-IsWeb ref name (first_host hostnames)

module _ (c : Reader) (namespace name : Text) where
  resolve_ingress_url-IsWeb : IsWeb (resolve_ingress_url c namespace name)
  unfolding resolve_ingress_url
  resolve_ingress_url-IsWeb =
      IsWeb-result (lookup_failed ingress name) _ (c.get_ingress namespace name)
        (λ object. found_host-IsWeb ingress name (first_host object.hosts))

  resolve_http_route_url-IsWeb : IsWeb (resolve_http_route_url c namespace name)
  unfolding resolve_http_route_url
  resolve_http_route_url-IsWeb =
      IsWeb-result (lookup_failed http_route name) _ (c.get_unstructured _ namespace name)
        (hostnames_url-IsWeb http_route name)

  resolve_grpc_route_url-IsWeb : IsWeb (resolve_grpc_route_url c namespace name)
  unfolding resolve_grpc_route_url
  resolve_grpc_route_url-IsWeb =
      IsWeb-result (lookup_failed grpc_route name) _ (c.get_unstructured _ namespace name)
        (hostnames_url-IsWeb grpc_route name)

  ports_url-IsWeb :
      (meta : ObjectMeta) (ports : List ℕ)
      → IsWeb (elim ports as (λ _. Resolved) [
        | [] ↦ err (no_ports name)
        | port ∷ _ ↦ ok (service_url meta port)
      ])
  ports_url-IsWeb meta [] = tt
  ports_url-IsWeb meta (port ∷ ports) = service_url-IsWebUrl meta port

  resolve_service_url-IsWeb : IsWeb (resolve_service_url c namespace name)
  unfolding resolve_service_url
  resolve_service_url-IsWeb =
      IsWeb-result (lookup_failed service name) _ (c.get_service namespace name)
        (λ object. ports_url-IsWeb object.meta object.ports)

  host_url-IsWeb :
      (r : Result Text (Option Text))
      → IsWeb (elim r as (λ _. Resolved) [
        | err e ↦ err (malformed route name e)
        | ok none ↦ err (no_host route name)
        | ok (some host) ↦ if is_blank host then err (no_host route name) else ok (https_url host)
      ])
  host_url-IsWeb (err e) = tt
  host_url-IsWeb (ok none) = tt
  host_url-IsWeb (ok (some host)) =
      elim (is_blank host)
        as (λ b. IsWeb (if b then err (no_host route name) else ok (https_url host))) [
          | true ↦ tt
          | false ↦ https_url-IsWebUrl host
        ]

  resolve_open_shift_route_url-IsWeb : IsWeb (resolve_open_shift_route_url c namespace name)
  unfolding resolve_open_shift_route_url
  resolve_open_shift_route_url-IsWeb =
      IsWeb-result (lookup_failed route name) _ (c.get_unstructured _ namespace name)
        (λ object. host_url-IsWeb (object.nested_string (codes "spec" ∷ codes "host" ∷ [])))

  routes_url-IsWeb : (routes : List Any) → IsWeb (routes_url name routes)
  unfolding routes_url
  routes_url-IsWeb [] = tt
  routes_url-IsWeb (r ∷ routes) =
      found_host-IsWeb ingress_route name (first_route_host (r ∷ routes))

  traefik_routes-IsWeb :
      (r : Result Text (Option (List Any)))
      → IsWeb (elim r as (λ _. Resolved) [
        | err e ↦ err (malformed ingress_route name e)
        | ok none ↦ err (no_routes name)
        | ok (some routes) ↦ routes_url name routes
      ])
  traefik_routes-IsWeb (err e) = tt
  traefik_routes-IsWeb (ok none) = tt
  traefik_routes-IsWeb (ok (some routes)) = routes_url-IsWeb routes

  traefik_url-IsWeb : (object : Unstructured) → IsWeb (traefik_url name object)
  unfolding traefik_url
  traefik_url-IsWeb object =
      traefik_routes-IsWeb (object.nested_slice (codes "spec" ∷ codes "routes" ∷ []))

  attempt-IsWeb :
      (next : Resolved) (r : Result KubeError Unstructured)
      → IsWeb next
      → IsWeb (elim r as (λ _. Resolved) [ err e ↦ next | ok object ↦ traefik_url name object ])
  attempt-IsWeb next (err e) h = h
  attempt-IsWeb next (ok object) h = traefik_url-IsWeb object

  first_traefik_url-IsWeb :
      (gvs : List GroupVersion) → IsWeb (first_traefik_url c namespace name gvs)
  unfolding first_traefik_url
  first_traefik_url-IsWeb [] = tt
  first_traefik_url-IsWeb (gv ∷ gvs) =
      attempt-IsWeb (first_traefik_url c namespace name gvs) (c.get_unstructured _ namespace name)
        (first_traefik_url-IsWeb gvs)

  resolve_traefik_ingress_route_url-IsWeb :
      IsWeb (resolve_traefik_ingress_route_url c namespace name)
  unfolding resolve_traefik_ingress_route_url
  resolve_traefik_ingress_route_url-IsWeb =
      first_traefik_url-IsWeb (traefik_containo_us ∷ traefik_io ∷ [])

or_next-IsWeb :
    (ref : Option LocalObjectReference) (resolve : Text → Resolved) (next : Resolved)
    → ((name : Text) → IsWeb (resolve name))
    → IsWeb next
    → IsWeb (or_next ref resolve next)
or_next-IsWeb none resolve next h k = k
or_next-IsWeb (some ref) resolve next h k = h ref.name

source-IsWeb :
    (c : Reader) (namespace : Text) (source : Option UrlSource)
    → IsWeb (resolve_url_from_source c namespace source)
unfolding resolve_url_from_source
source-IsWeb c namespace none = tt
source-IsWeb c namespace (some source) =
    or_next-IsWeb source.ingress_ref _ _ (resolve_ingress_url-IsWeb c namespace) (
      or_next-IsWeb source.http_route_ref _ _ (resolve_http_route_url-IsWeb c namespace) (
        or_next-IsWeb source.grpc_route_ref _ _ (resolve_grpc_route_url-IsWeb c namespace) (
          or_next-IsWeb source.service_ref _ _ (resolve_service_url-IsWeb c namespace) (
            or_next-IsWeb source.route_ref _ _ (resolve_open_shift_route_url-IsWeb c namespace) (
              or_next-IsWeb source.ingress_route_ref _ _
                (resolve_traefik_ingress_route_url-IsWeb c namespace) tt)))))

-- A reference that is resolved gives a URL that starts with "https://" or "http://".
pub resolve_url_from_source-IsWebUrl :
    (c : Reader) (namespace : Text) (source : Option UrlSource) (url : Text)
    → resolve_url_from_source c namespace source ≡ ok url
    → IsWebUrl url
resolve_url_from_source-IsWebUrl c namespace source url h =
    subst IsWeb h (source-IsWeb c namespace source)

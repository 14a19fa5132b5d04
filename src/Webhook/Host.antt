-- ===== src/Webhook/Host.antt =====
-- Hosts and URLs taken from Kubernetes objects: the parser of Traefik's match rules, which
-- web/dashboard.go and url_resolver.go each have a copy of, the first usable host of a list, and
-- the URL of a service.
pub mod Laws
use cupboard.Prelude.{
  ℕ, ◌+◌, List, [], ◌∷◌, ◌++◌, Option, none, some, if◌then◌else◌, ◌==◌ as nat_eq,
}
use cupboard.Prelude.Lists.{length, take, drop}
use cupboard.Prelude.Decimal.{format}
use cupboard.Text.{Text, codes}
use cupboard.Text.Trim.{trim_space, is_blank}
use cupboard.Text.Search.{index}
use cupboard.Any.{Any, get, as_string, as_object}
use cupboard.Kube.{ObjectMeta}

abbrev pub host_open : Text
host_open = codes "Host(`"

abbrev pub host_close : Text
host_close = codes "`)"

-- `ExtractHostFromTraefikMatch`; an index of -1 is `none`.
unfoldable pub extract_host_from_traefik_match : Text → Text
extract_host_from_traefik_match rule = elim (index rule host_open) [
  | none ↦ codes ""
  | some start ↦
      let rest = drop (start + length host_open) rule in
      elim (index rest host_close) [ none ↦ codes "" | some end ↦ trim_space (take end rest) ]
]

-- The first host that is not blank.
unfoldable pub first_host : List Text → Option Text
first_host [] = none
first_host (host ∷ hosts) = if is_blank host then first_host hosts else some host

unfoldable pub https_url : Text → Text
https_url host = codes "https://" ++ host

-- The host of one element of `spec.routes`: "" if it is no object or has no match rule.
unfoldable pub route_host : Any → Text
unfolding as_object as_string
route_host route = elim (as_object route) [
  | none ↦ codes ""
  | some fields ↦ elim (get (codes "match") fields) [
    | none ↦ extract_host_from_traefik_match (codes "")
    | some rule ↦ elim (as_string rule) [
      | none ↦ extract_host_from_traefik_match (codes "")
      | some text ↦ extract_host_from_traefik_match text
    ]
  ]
]

-- The first element of `spec.routes` with a host.
unfoldable pub first_route_host : List Any → Option Text
first_route_host [] = none
first_route_host (route ∷ routes) = elim (route_host route) [
  | [] ↦ first_route_host routes
  | c ∷ host ↦ some (c ∷ host)
]

-- `fmt.Sprintf("%s://%s.%s.svc.cluster.local:%d", scheme, name, namespace, port)` with the scheme
-- that the port selects.
unfoldable pub service_url : ObjectMeta → ℕ → Text
service_url meta port =
    (if nat_eq port 443 then codes "https" else codes "http")
    ++ codes "://"
    ++ meta.name
    ++ codes "."
    ++ meta.namespace
    ++ codes ".svc.cluster.local:"
    ++ format port

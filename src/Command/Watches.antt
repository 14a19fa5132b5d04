-- ===== src/Command/Watches.antt =====
-- `setupDashboardWatches`: the kinds of resources whose changes notify the clients.
use cupboard.Prelude.{Bool, false, List, [], ◌∷◌, ok, err, if◌then◌else◌}
use cupboard.Prelude.Lists.{keep}
use cupboard.Text.{Text, codes}
use cupboard.Kube.{GroupVersion}
use cupboard.Kube.Reader.{Discovery}
use cupboard.Webhook.UrlResolver.{traefik_io, traefik_containo_us}
use cupboard.Dashboard.Groups.{member}
use cupboard.Dashboard.Merge.{gateway_group, forecastle_version}
use cupboard.Dashboard.Collect.Routes.{gateway_v1alpha2, dns_endpoint_version}

-- The kinds of resources that the dashboard shows.
pub data Kind : Type 0 where
  bookmark_group bookmark info_tile ingress service endpoint_slice forecastle_app : Kind
  http_route grpc_route tls_route tcp_route dns_endpoint : Kind
  -- Traefik's, of the group "traefik.io" and of the legacy one
  ingress_route legacy_ingress_route : Kind

-- `resourceAvailable`
unfoldable pub available : Discovery → GroupVersion → Text → Bool
available discovery group_version kind = elim (discovery.server_resources group_version) [
  | err e ↦ false
  | ok kinds ↦ member kind kinds
]

-- `if test { addWatch(kind) }`, and what follows.
unfoldable pub optional : Bool → Kind → List Kind → List Kind
optional test kind rest = if test then kind ∷ rest else rest

-- The loop over the groups of Traefik, which ends with the first that is available.
unfoldable pub first_ingress_route : Discovery → List Kind → List Kind
unfolding optional
first_ingress_route d rest =
    if available d traefik_io (codes "IngressRoute")
    then ingress_route ∷ rest
    else optional (available d traefik_containo_us (codes "IngressRoute")) legacy_ingress_route rest

-- The calls of `addWatch`, in their order.
unfoldable pub wanted_watches : Discovery → List Kind
wanted_watches d =
    bookmark_group
    ∷ ingress
    ∷ service
    ∷ optional (available d forecastle_version (codes "ForecastleApp")) forecastle_app (
        optional (available d gateway_group (codes "HTTPRoute")) http_route (
          optional (available d gateway_group (codes "GRPCRoute")) grpc_route (
            optional (available d gateway_group (codes "TLSRoute")) tls_route (
              optional (available d gateway_v1alpha2 (codes "TCPRoute")) tcp_route (
                first_ingress_route d (
                  optional (available d dns_endpoint_version (codes "DNSEndpoint")) dns_endpoint
                    (endpoint_slice ∷ [])))))))

-- `setupDashboardWatches`; a kind for which no informer is set up is logged and left out.
unfoldable pub setup_dashboard_watches : (Kind → Bool) → Discovery → List Kind
setup_dashboard_watches sets_up d = keep sets_up (wanted_watches d)

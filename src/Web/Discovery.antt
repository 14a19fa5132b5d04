-- ===== src/Web/Discovery.antt =====
-- `serveOpenIDConfiguration`: the discovery document of the provider, with the issuer replaced.
use cupboard.Prelude.{ℕ, Option, none, some, Result, ok, err, not, if◌then◌else◌}
use cupboard.Text.{Text, codes, ◌==◌}
use cupboard.Any.{Fields, string, put}
use cupboard.Auth.Service.{AuthService, oidc_discovery_url}
use cupboard.Auth.Request.{Request, request_base_url}
use cupboard.Auth.Oidc.{Provider, HttpResponse, issuer_and_discovery_reachable}
use cupboard.Web.Answer.{Answer, Body, answer, not_found}
use cupboard.Web.Server.{Proxy}

-- The `ErrorHandler` of the proxy.
abbrev pub bad_gateway : Text → Answer
bad_gateway e = answer 502 (Body.message e)

unfoldable pub rewritten : ℕ → Result Text Text → Answer
rewritten status (err e) = bad_gateway e
rewritten status (ok body) = answer status (Body.upstream body)

-- `ModifyResponse`: a body that is no JSON object stays as it is; null is a nil map, to which the
-- assignment panics.
unfoldable pub modify_response : Proxy → Text → ℕ → Text → Result Text (Option Fields) → Answer
modify_response p issuer status body (err e) = answer status (Body.upstream body)
modify_response p issuer status body (ok none) = answer 0 Body.panic
modify_response p issuer status body (ok (some payload)) =
    rewritten status (p.marshal (put (codes "issuer") (string issuer) payload))

-- The answer of the upstream server, as `ReverseProxy` passes it on.
unfoldable pub forwarded : Proxy → Text → Result Text HttpResponse → Answer
forwarded p issuer (err e) = bad_gateway e
forwarded p issuer (ok resp) =
    modify_response p issuer resp.status_code resp.body (p.unmarshal resp.body)

unfoldable pub proxied : Proxy → Text → Result Text Text → Answer
proxied p issuer (err e) = answer 500 (Body.message e)
proxied p issuer (ok target) = forwarded p issuer (p.forward target)

-- `serveOpenIDConfiguration`
unfoldable pub serve_open_id_configuration :
    Provider → Proxy → ℕ → Request → AuthService → AuthService × Answer
serve_open_id_configuration p x now r a =
    let discovery_url = oidc_discovery_url a.issuer_url in
    let check = issuer_and_discovery_reachable p now a.issuer_url discovery_url a in
    if not a.enabled
    then (a, not_found)
    else if a.issuer_url == codes ""
    then (a, answer 503 (Body.message (codes "OIDC_ISSUER_URL must be configured")))
    else if not check.1
    then (check.0, not_found)
    else (check.0, proxied x (request_base_url r) (x.parse_url discovery_url))

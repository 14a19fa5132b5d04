-- ===== src/Auth/Oidc.antt =====
-- The identity provider: `isReachable`, `issuerAndDiscoveryReachable`, `userInfoEndpoint` and
-- `fetchUserInfo`. An operation returns the service after it and its result.
pub mod Laws
use cupboard.Prelude.{
  ℕ, ◌-◌, Bool, true, false, not, ◌&&◌, ◌++◌, Option, none, some, Result, ok, err, if◌then◌else◌,
  ltb, leb,
}
use cupboard.Text.{Text, codes, ◌==◌}
use cupboard.Text.Trim.{trim_space, is_blank}
use cupboard.Any.{Fields}
use cupboard.Auth.Service.{AuthService, well_known}

pub record HttpResponse : Type 0 where
  pub status_code : ℕ
  pub body : Text

-- What the HTTP client, and JSON, answer during a call.
pub record Provider : Type 0 where
  -- `NewRequestWithContext` and `Do` of a GET, on the URL and the header "Authorization"
  pub do_get : Text → Text → Result Text HttpResponse
  -- "userinfo_endpoint" of a discovery document, "" where it is missing
  pub decode_discovery : Text → Result Text Text
  -- a `map[string]any`, `none` if it is nil
  pub decode_user_info : Text → Result Text (Option Fields)

-- The errors of `userInfoEndpoint` and of `fetchUserInfo`.
pub data OidcError : Type 0 where
  -- an error of the client, and one of the decoder
  request_failed decode_failed : Text → OidcError
  -- "oidc discovery failed with %d", and "userinfo request failed with %d: %s"
  discovery_failed : ℕ → OidcError
  user_info_failed : ℕ → Text → OidcError
  -- "OIDC_USERINFO_ENDPOINT or OIDC_ISSUER_URL must be configured", and "userinfo_endpoint missing
  -- from OIDC discovery"
  not_configured endpoint_missing : OidcError

-- `issuerCheckTTL`
abbrev pub issuer_check_ttl : ℕ
issuer_check_ttl = 30000000000

answers : Result Text HttpResponse → Bool
answers (err e) = false
answers (ok resp) = leb 200 resp.status_code && ltb resp.status_code 400

-- `isReachable`
unfoldable pub is_reachable : Provider → Text → Bool
unfolding answers
is_reachable p raw_url = if is_blank raw_url then false else answers (p.do_get raw_url (codes ""))

-- Both requests of a check; the second is made only if the first succeeds.
unfoldable pub check_issuer : Provider → Text → Text → Bool
check_issuer p issuer_url discovery_url = is_reachable p issuer_url && is_reachable p discovery_url

-- Whether the cached answer is one to a check of these URLs that is not too old.
unfoldable pub is_cached : AuthService → ℕ → Text → Text → Bool
is_cached a now issuer_url discovery_url =
    a.cached_issuer_for_url == issuer_url
    && a.cached_discovery_for_url == discovery_url
    && leb (now - a.cached_issuer_checked_at) issuer_check_ttl

-- `issuerAndDiscoveryReachable`
unfoldable pub issuer_and_discovery_reachable :
    Provider → ℕ → Text → Text → AuthService → AuthService × Bool
issuer_and_discovery_reachable p now issuer_url discovery_url a =
    if is_cached a now issuer_url discovery_url
    then (a, a.cached_issuer_reachable)
    else let reachable = check_issuer p issuer_url discovery_url in
      (
        record a {
          cached_issuer_for_url = issuer_url;
          cached_discovery_for_url = discovery_url;
          cached_issuer_reachable = reachable;
          cached_issuer_checked_at = now;
        },
        reachable,
      )

-- The discovery document is decoded, and its endpoint is cached.
unfoldable pub discovered_endpoint :
    Provider → AuthService → Result Text HttpResponse → AuthService × Result OidcError Text
discovered_endpoint p a (err e) = (a, err (request_failed e))
discovered_endpoint p a (ok resp) =
    if leb 400 resp.status_code
    then (a, err (discovery_failed resp.status_code))
    else elim (p.decode_discovery resp.body) [
      | err e ↦ (a, err (decode_failed e))
      | ok endpoint ↦
          if is_blank endpoint
          then (a, err endpoint_missing)
          else (record a { cached_user_info_ep = endpoint }, ok endpoint)
    ]

-- `userInfoEndpoint`
unfoldable pub user_info_endpoint : Provider → AuthService → AuthService × Result OidcError Text
unfolding discovered_endpoint
user_info_endpoint p a =
    if not (a.cached_user_info_ep == codes "")
    then (a, ok a.cached_user_info_ep)
    else if not (a.user_info_endpoint_override == codes "")
    then (
      record a { cached_user_info_ep = a.user_info_endpoint_override },
      ok a.user_info_endpoint_override,
    )
    else if a.issuer_url == codes ""
    then (a, err not_configured)
    else discovered_endpoint p a (p.do_get (well_known a.issuer_url) (codes ""))

-- The answer of the endpoint.
unfoldable pub user_info_of : Provider → Result Text HttpResponse → Result OidcError (Option Fields)
user_info_of p (err e) = err (request_failed e)
user_info_of p (ok resp) =
    if leb 400 resp.status_code
    then err (user_info_failed resp.status_code (trim_space resp.body))
    else elim (p.decode_user_info resp.body) [
      | err e ↦ err (decode_failed e)
      | ok user_info ↦ ok user_info
    ]

-- The endpoint is asked with the token, if there is an endpoint.
unfoldable pub ask_endpoint :
    Provider → Text → Result OidcError Text → Result OidcError (Option Fields)
ask_endpoint p token (err e) = err e
ask_endpoint p token (ok endpoint) = user_info_of p (p.do_get endpoint (codes "Bearer " ++ token))

-- `fetchUserInfo`
unfoldable pub fetch_user_info :
    Provider → Text → AuthService → AuthService × Result OidcError (Option Fields)
fetch_user_info p token a = let r = user_info_endpoint p a in (r.0, ask_endpoint p token r.1)

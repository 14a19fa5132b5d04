-- ===== src/Auth/Service.antt =====
-- `authService`, `newAuthService`, and the texts that the service is configured by.
use cupboard.Prelude.{ℕ, Bool, false, List, [], ◌∷◌, ◌++◌, if◌then◌else◌, ◌==◌ as nat_eq}
use cupboard.Text.{Text, codes}
use cupboard.Text.Trim.{trim_space, is_blank, trim_right_by}

-- `AuthOptions`
pub record AuthOptions : Type 0 where
  pub enabled : Bool
  pub cookie_secret : Text
  pub issuer_url : Text
  pub client_id : Text
  pub redirect_path : Text
  pub scopes : Text
  pub user_info_endpoint_url : Text

-- `authService`, without the lock and the HTTP client. The time is in nanoseconds; 0 is the zero
-- time.
pub record AuthService : Type 0 where
  pub enabled : Bool
  pub cookie_name : Text
  pub secret : Text
  pub issuer_url : Text
  pub client_id : Text
  pub redirect_path : Text
  pub scopes : Text
  pub user_info_endpoint_override : Text
  pub cached_user_info_ep : Text
  pub cached_issuer_reachable : Bool
  pub cached_issuer_checked_at : ℕ
  pub cached_issuer_for_url : Text
  pub cached_discovery_for_url : Text

-- `sessionCookieName`
abbrev pub session_cookie_name : Text
session_cookie_name = codes "cupboard_userinfo"

-- `firstNonEmptyString`
unfoldable pub first_non_empty_string : List Text → Text
first_non_empty_string [] = codes ""
first_non_empty_string (value ∷ values) =
    let rest = first_non_empty_string values in if is_blank value then rest else value

-- `newAuthService`
unfoldable pub new_auth_service : AuthOptions → AuthService
new_auth_service options =
    let secret = trim_space options.cookie_secret in
    record {
      enabled = options.enabled;
      cookie_name = session_cookie_name;
      secret = if is_blank secret then codes "local-dev-cookie-secret-change-me" else secret;
      issuer_url = trim_space options.issuer_url;
      client_id = trim_space options.client_id;
      redirect_path = first_non_empty_string (options.redirect_path ∷ codes "/auth/callback" ∷ []);
      scopes = first_non_empty_string (options.scopes ∷ codes "openid profile email" ∷ []);
      user_info_endpoint_override = trim_space options.user_info_endpoint_url;
      cached_user_info_ep = codes "";
      cached_issuer_reachable = false;
      cached_issuer_checked_at = 0;
      cached_issuer_for_url = codes "";
      cached_discovery_for_url = codes "";
    }

-- `strings.TrimRight(s, "/")`
unfoldable pub trim_right_slash : Text → Text
trim_right_slash s = trim_right_by (λ c. nat_eq c b'/') s

-- The discovery document of an issuer.
unfoldable pub well_known : Text → Text
well_known issuer_url = trim_right_slash issuer_url ++ codes "/.well-known/openid-configuration"

-- `oidcDiscoveryURL`
unfoldable pub oidc_discovery_url : Text → Text
oidc_discovery_url issuer_url = if is_blank issuer_url then codes "" else well_known issuer_url

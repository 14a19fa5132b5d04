-- ===== src/Auth/Config.antt =====
-- `authConfig`: what the frontend is told of the identity provider.
use cupboard.Prelude.{ℕ, Bool, false, not, ◌&&◌, if◌then◌else◌}
use cupboard.Text.{Text, codes, ◌==◌}
use cupboard.Auth.Service.{AuthService, oidc_discovery_url, well_known}
use cupboard.Auth.Oidc.{Provider, issuer_and_discovery_reachable}

pub record AuthConfigResponse : Type 0 where
  pub enabled : Bool
  pub issuer_url : Text
  pub open_id_configuration_url : Text
  pub client_id : Text
  pub redirect_path : Text
  pub scopes : Text

abbrev pub disabled_config : AuthConfigResponse
disabled_config = record {
  enabled = false;
  issuer_url = codes "";
  open_id_configuration_url = codes "";
  client_id = codes "";
  redirect_path = codes "";
  scopes = codes "";
}

unfoldable pub config_for : AuthService → Text → Text → AuthConfigResponse
config_for a issuer_url discovery_url = record {
  enabled = a.enabled;
  issuer_url = issuer_url;
  open_id_configuration_url = discovery_url;
  client_id = a.client_id;
  redirect_path = a.redirect_path;
  scopes = a.scopes;
}

-- `authConfig`
unfoldable pub auth_config : Provider → ℕ → Text → AuthService → AuthService × AuthConfigResponse
auth_config p now request_issuer_url a =
    let discovery_url = oidc_discovery_url a.issuer_url in
    let configured = config_for a a.issuer_url discovery_url in
    let check = issuer_and_discovery_reachable p now a.issuer_url discovery_url a in
    if not a.enabled
    then (a, disabled_config)
    else if not (a.issuer_url == codes "") && not (discovery_url == codes "")
    then (
      check.0,
      if check.1
          then config_for a request_issuer_url (well_known request_issuer_url)
          else configured,
    )
    else (a, configured)

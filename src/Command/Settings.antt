-- ===== src/Command/Settings.antt =====
-- The options of the program: what `main` makes of the command line and the configuration.
use cupboard.Prelude.{Bool, true, false, List, [], ◌∷◌, ◌++◌, Result, ok, ◌>>=◌, if◌then◌else◌}
use cupboard.Text.{Text, codes}
use cupboard.Text.Trim.{trim_space}
use cupboard.Dashboard.Types.{LinkGroup, StaticLink, SyncOptions}
use cupboard.Auth.Service.{AuthOptions}
use cupboard.Web.Server.{PageOptions}
use cupboard.Command.Flags.{
  CommandLine, Viper, explicit_flags, or_default, is_set, resolve_string_flag, resolve_bool_flag,
  split_comma_flag, first_non_empty,
}

-- The variables of `main` after they are resolved.
pub record Settings : Type 0 where
  pub metrics_addr : Text
  pub probe_addr : Text
  pub web_addr : Text
  pub webhook_cert_path : Text
  pub webhook_cert_name : Text
  pub webhook_cert_key : Text
  pub metrics_cert_path : Text
  pub metrics_cert_name : Text
  pub metrics_cert_key : Text
  pub forecastle_instance : Text
  pub sync_addr : Text
  pub sync_tls_ca : Text
  pub sync_tls_cert : Text
  pub sync_tls_key : Text
  pub sync_tls_auth_cert : Text
  pub sync_tls_auth_key : Text
  pub fleet_trust_store : Text
  pub fleet_kubeconfig : Text
  pub enable_leader_election : Bool
  pub secure_metrics : Bool
  pub enable_http2 : Bool
  pub enable_auth : Bool
  pub skip_oidc_probe : Bool

-- A flag's variable: the flag, then the configuration, then the default.
unfoldable pub string_setting : Viper → CommandLine → Text → Text → Text → Text
string_setting config line flag_name config_key default =
    resolve_string_flag config (explicit_flags line) flag_name config_key
      (or_default (line.string_flag flag_name) default)

unfoldable pub bool_setting : Viper → CommandLine → Text → Text → Bool → Bool
bool_setting config line flag_name config_key default =
    resolve_bool_flag config (explicit_flags line) flag_name config_key
      (or_default (line.bool_flag flag_name) default)

unfoldable pub settings : Viper → CommandLine → Settings
settings config line = record {
  metrics_addr =
      string_setting config line (codes "metrics-bind-address") (codes "metrics.bindAddress")
        (codes "0");
  probe_addr =
      string_setting config line (codes "health-probe-bind-address")
        (codes "health.probeBindAddress") (codes ":8081");
  web_addr =
      string_setting config line (codes "web-bind-address") (codes "web.bindAddress")
        (codes ":8082");
  webhook_cert_path =
      string_setting config line (codes "webhook-cert-path") (codes "webhook.cert.path") (codes "");
  webhook_cert_name =
      string_setting config line (codes "webhook-cert-name") (codes "webhook.cert.name")
        (codes "tls.crt");
  webhook_cert_key =
      string_setting config line (codes "webhook-cert-key") (codes "webhook.cert.key")
        (codes "tls.key");
  metrics_cert_path =
      string_setting config line (codes "metrics-cert-path") (codes "metrics.cert.path") (codes "");
  metrics_cert_name =
      string_setting config line (codes "metrics-cert-name") (codes "metrics.cert.name")
        (codes "tls.crt");
  metrics_cert_key =
      string_setting config line (codes "metrics-cert-key") (codes "metrics.cert.key")
        (codes "tls.key");
  forecastle_instance =
      string_setting config line (codes "forecastle-instance") (codes "forecastle.instance")
        (codes "");
  sync_addr =
      string_setting config line (codes "sync-bind-address") (codes "sync.bindAddress")
        (codes ":8083");
  sync_tls_ca = string_setting config line (codes "sync-tls-ca") (codes "sync.tls.ca") (codes "");
  sync_tls_cert =
      string_setting config line (codes "sync-tls-cert") (codes "sync.tls.cert") (codes "");
  sync_tls_key =
      string_setting config line (codes "sync-tls-key") (codes "sync.tls.key") (codes "");
  sync_tls_auth_cert =
      string_setting config line (codes "sync-tls-auth-cert") (codes "sync.tls.authCert")
        (codes "");
  sync_tls_auth_key =
      string_setting config line (codes "sync-tls-auth-key") (codes "sync.tls.authKey") (codes "");
  fleet_trust_store =
      string_setting config line (codes "fleet-trust-store") (codes "fleet.trustStore") (codes "");
  fleet_kubeconfig =
      string_setting config line (codes "fleet-kubeconfig") (codes "fleet.kubeconfig") (codes "");
  enable_leader_election =
      bool_setting config line (codes "leader-elect") (codes "leaderElection.enabled") false;
  secure_metrics = bool_setting config line (codes "metrics-secure") (codes "metrics.secure") true;
  enable_http2 = bool_setting config line (codes "enable-http2") (codes "http2.enabled") false;
  enable_auth = bool_setting config line (codes "enable-auth") (codes "auth.enabled") true;
  skip_oidc_probe =
      bool_setting config line (codes "skip-oidc-probe") (codes "auth.skipProbe") false;
}

-- A list of peers: comma-separated in the flag, a list in the configuration.
unfoldable pub list_setting : Viper → CommandLine → Text → Text → List Text
list_setting config line flag_name config_key =
    if is_set (line.string_flag flag_name)
    then split_comma_flag (or_default (line.string_flag flag_name) (codes ""))
    else if config.is_set config_key
    then config.get_string_slice config_key
    else []

-- The list of foreign clusters, comma-separated in both.
unfoldable pub fleet_cluster_entries : Viper → CommandLine → List Text
fleet_cluster_entries config line =
    if is_set (line.string_flag (codes "fleet-clusters"))
    then split_comma_flag (or_default (line.string_flag (codes "fleet-clusters")) (codes ""))
    else if config.is_set (codes "fleet.clusters")
    then split_comma_flag (config.get_string (codes "fleet.clusters"))
    else []

unfoldable pub enable_webhooks : Viper → Bool
enable_webhooks config =
    if config.is_set (codes "enableWebhooks")
    then config.get_bool (codes "enableWebhooks")
    else true

unfoldable pub watch_namespace : Viper → Text
watch_namespace config = trim_space (config.get_string (codes "watchNamespace"))

unfoldable pub read_key {ℓ} :
    {A : Type ℓ} → Viper → (Text → Result Text (List A)) → Text → Result Text (List A)
read_key config read key = if config.is_set key then read key else ok []

-- The values of two keys, the second behind the first.
unfoldable pub both_keys {ℓ} :
    {A : Type ℓ} → Viper → (Text → Result Text (List A)) → Text → Text → Result Text (List A)
both_keys config read first second =
    read_key config read first >>= λ xs. read_key config read second >>= λ ys. ok (xs ++ ys)

unfoldable pub link_groups : Viper → Result Text (List LinkGroup)
link_groups config =
    both_keys config config.link_groups (codes "linkGroups") (codes "dashboard.linkGroups")

unfoldable pub static_links : Viper → Result Text (List StaticLink)
static_links config =
    both_keys config config.static_links (codes "staticLinks") (codes "dashboard.staticLinks")

unfoldable pub sync_options : Viper → CommandLine → SyncOptions
sync_options config line =
    let s = settings config line in
    record {
      bind_address = s.sync_addr;
      urls = list_setting config line (codes "sync-urls") (codes "sync.urls");
      srv_records = list_setting config line (codes "sync-srv-records") (codes "sync.srvRecords");
      tls = record {
        ca = s.sync_tls_ca;
        cert = s.sync_tls_cert;
        key = s.sync_tls_key;
        auth_cert = s.sync_tls_auth_cert;
        auth_key = s.sync_tls_auth_key;
      };
    }

unfoldable pub auth_options : Viper → CommandLine → AuthOptions
auth_options config line = record {
  enabled = (settings config line).enable_auth;
  cookie_secret = config.get_string (codes "auth.cookieSecret");
  issuer_url = config.get_string (codes "auth.issuerURL");
  client_id = config.get_string (codes "auth.clientID");
  redirect_path = config.get_string (codes "auth.redirectPath");
  scopes = config.get_string (codes "auth.scopes");
  user_info_endpoint_url = config.get_string (codes "auth.userInfoEndpoint");
}

-- A key of the page, or the older one of the same meaning.
unfoldable pub page_setting : Viper → Text → Text → Text
page_setting config key older =
    first_non_empty (config.get_string key ∷ config.get_string older ∷ [])

unfoldable pub template_set : Viper → Text
template_set config = page_setting config (codes "page.templateSet") (codes "web.templateSet")

unfoldable pub page_options : Viper → PageOptions
page_options config = record {
  title = page_setting config (codes "page.title") (codes "web.title");
  favicon_url = page_setting config (codes "page.faviconURL") (codes "web.faviconURL");
  content_layout = page_setting config (codes "page.contentLayout") (codes "web.contentLayout");
}

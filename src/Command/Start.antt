-- ===== src/Command/Start.antt =====
-- `main`, from the configuration to the start of the manager: what it adds to the manager, in its
-- order, or the error that it exits with.
pub mod Issuer
pub mod Laws
use cupboard.Prelude.{
  ℕ, Bool, true, false, not, ◌&&◌, ◌||◌, List, [], ◌∷◌, ◌++◌, Option, none, some, Result, ok, err,
  ◌>>=◌, if◌then◌else◌,
}
use cupboard.Text.{Text, codes, ◌==◌}
use cupboard.Text.Trim.{trim_space, is_blank}
use cupboard.Dashboard.Types.{LinkGroup, StaticLink, SyncOptions, SyncTlsOptions}
use cupboard.Auth.Service.{well_known}
use cupboard.Fleet.Client.{load_fleet_ca_pool}
use cupboard.Fleet.Config.{ClusterConfig, parse_cluster_list}
use cupboard.Kube.Reader.{Discovery}
use cupboard.Sync.Tls.{Files, TlsConfig, build_sync_server_tls_config, build_sync_http_client}
use cupboard.Web.Templates.{Sources, Parse, Parsed, TemplateError, load_page_template}
use cupboard.Command.Flags.{CommandLine, Viper, bound_keys, setup_cache_namespaces}
use cupboard.Command.Manager.{ManagerOptions, manager_options}
use cupboard.Command.Probe.{Answers, probe}
use cupboard.Command.Settings.{
  Settings, settings, link_groups, static_links, sync_options, fleet_cluster_entries,
  enable_webhooks, watch_namespace, template_set,
}

-- What is added to the manager, or registered with it.
pub data Runnable : Type 0 where
  dashboard_notifier : Runnable
  sync_client : SyncOptions → Runnable
  fleet_manager : List ClusterConfig → Runnable
  web_interface : Text → Runnable
  sync_endpoint : Text → Option TlsConfig → Runnable
  bookmark_group_controller bookmark_controller info_tile_controller : Runnable
  bookmark_group_webhook bookmark_webhook : Runnable
  healthz readyz : Runnable

-- How `main` ends before the manager runs: an error and `os.Exit(1)`, or it still probes.
pub data Exit : Type 0 where
  failed : Text → Exit
  probing : Exit

-- What the libraries and the machine answer during the start.
pub record Machine : Type 0 where
  -- "CUPBOARD_CONFIG"; for the keys that are bound, a `viper.Viper` without a file, and
  -- `ReadInConfig` of one
  pub config_env : Text
  pub environment : List (Text × Text) → Viper
  pub read_config : List (Text × Text) → Text → Result Text Viper
  -- `GetConfigOrDie`, and `ClientConfig` of the context kind-cupboard of the home file, if it is read
  pub cluster_config : Result Text Text
  pub kind_config : Option Text
  -- the error of `NewManager`, and of `NewDiscoveryClientForConfig`, if any
  pub new_manager : ManagerOptions → Option Text
  pub new_discovery_client : Option Text
  -- the error of adding to the manager, if any
  pub adding : Runnable → Option Text
  pub files : Files
  pub probe_answers : Text → Answers
  pub templates : Sources
  pub parse_template : Parse

-- `if err != nil { os.Exit(1) }`
unfoldable pub or_exit {ℓ} : {A : Type ℓ} → Result Text A → Result Exit A
or_exit (err e) = err (failed e)
or_exit (ok x) = ok x

unfoldable pub unless_error {ℓ} : {A : Type ℓ} → Option Text → A → Result Exit A
unless_error none x = ok x
unless_error (some e) x = err (failed e)

-- `mgr.Add`, and the set-up of controllers, webhooks and checks.
unfoldable pub add : Machine → Runnable → List Runnable → Result Exit (List Runnable)
add m r added = unless_error (m.adding r) (added ++ r ∷ [])

unfoldable pub add_all : Machine → List Runnable → List Runnable → Result Exit (List Runnable)
add_all m [] added = ok added
add_all m (r ∷ rs) added = add m r added >>= λ more. add_all m rs more

-- `loadViperConfig`
unfoldable pub load_viper_config : Machine → Text → Result Text Viper
load_viper_config m config_file =
    let file = if is_blank config_file then m.config_env else config_file in
    if is_blank file then ok (m.environment bound_keys) else m.read_config bound_keys file

-- `setupRuntimeConfig`
unfoldable pub setup_runtime_config : Machine → Bool → Result Text Text
setup_runtime_config m local_testing =
    if not local_testing then m.cluster_config else elim m.kind_config [
      | some config ↦ ok config
      | none ↦ err (codes "LOCAL_TESTING=true requires kubeconfig context kind-cupboard")
    ]

abbrev pub is_nil {ℓ} : {A : Type ℓ} → List A → Bool
is_nil [] = true
is_nil (x ∷ xs) = false

-- The sync client, if there are peers; `NewSyncClient` fails with its HTTP client.
unfoldable pub add_sync_client : Machine → SyncOptions → List Runnable → Result Exit (List Runnable)
add_sync_client m options added =
    if is_nil options.urls && is_nil options.srv_records
    then ok added
    else (or_exit (build_sync_http_client m.files options.tls) >>= λ client.
        add m (sync_client options) added)

-- The probe of the identity provider, for at most some rounds.
unfoldable pub wait_for_issuer :
    Machine → ℕ → Bool → Text → List Runnable → Result Exit (List Runnable)
wait_for_issuer m rounds skip issuer_url added =
    if issuer_url == codes "" || skip
    then ok added
    else elim (probe rounds 0 (m.probe_answers (well_known issuer_url))) [
      | none ↦ err probing
      | some n ↦ ok added
    ]

unfoldable pub add_fleet : Machine → Text → List Text → List Runnable → Result Exit (List Runnable)
add_fleet m trust_store entries added =
    if is_nil entries
    then ok added
    else (or_exit (parse_cluster_list entries) >>= λ configs.
        or_exit (load_fleet_ca_pool m.files trust_store) >>= λ pool.
        add m (fleet_manager configs) added)

unfoldable pub template_failure : Result TemplateError Parsed → Result Exit Parsed
template_failure (err e) = err (failed (codes "Failed to initialize embedded web interface"))
template_failure (ok parsed) = ok parsed

-- `NewHandler`, which fails with the page templates, and its server.
unfoldable pub add_web_interface :
    Machine → Text → Text → List Runnable → Result Exit (List Runnable)
unfolding template_failure
add_web_interface m set address added =
    template_failure (load_page_template m.templates m.parse_template set) >>= λ parsed.
    add m (web_interface address) added

unfoldable pub add_sync_endpoint :
    Machine → SyncOptions → List Runnable → Result Exit (List Runnable)
add_sync_endpoint m options added =
    if is_blank options.bind_address
    then ok added
    else (or_exit (build_sync_server_tls_config m.files options.tls) >>= λ tls.
        add m (sync_endpoint options.bind_address tls) added)

abbrev pub controllers : List Runnable
controllers = bookmark_group_controller ∷ bookmark_controller ∷ info_tile_controller ∷ []

abbrev pub webhooks : Bool → List Runnable
webhooks enabled = if enabled then bookmark_group_webhook ∷ bookmark_webhook ∷ [] else []

-- The steps after the manager and the discovery client are made.
unfoldable pub add_components : Machine → ℕ → Viper → CommandLine → Result Exit (List Runnable)
add_components m rounds config line =
    let s = settings config line in
    let peers = sync_options config line in
    let issuer_url = config.get_string (codes "auth.issuerURL") in
    add m dashboard_notifier [] >>= λ added. add_sync_client m peers added >>= λ added.
    wait_for_issuer m rounds s.skip_oidc_probe issuer_url added >>= λ added.
    add_fleet m s.fleet_trust_store (fleet_cluster_entries config line) added >>= λ added.
    add_web_interface m (template_set config) s.web_addr added >>= λ added.
    add_sync_endpoint m peers added >>= λ added.
    add_all m (controllers ++ (webhooks (enable_webhooks config) ++ (healthz ∷ readyz ∷ []))) added

abbrev pub new_manager_with : Machine → CommandLine → Viper → Option Text
new_manager_with m line config =
    m.new_manager
      (manager_options (settings config line) (setup_cache_namespaces (watch_namespace config)))

-- The configuration, the lists of the page, and the clients.
unfoldable pub start_with : Machine → ℕ → CommandLine → Viper → Result Exit (List Runnable)
start_with m rounds line config = or_exit (link_groups config) >>= λ groups.
    or_exit (static_links config) >>= λ links.
    or_exit (setup_runtime_config m (config.get_bool (codes "localTesting"))) >>= λ cfg.
    unless_error (new_manager_with m line config) cfg >>= λ cfg.
    unless_error m.new_discovery_client cfg >>= λ cfg. add_components m rounds config line

-- `main` until the manager starts, with the value of the flag "config".
unfoldable pub start : Machine → ℕ → CommandLine → Text → Result Exit (List Runnable)
start m rounds line config_file =
    or_exit (load_viper_config m config_file) >>= λ config. start_with m rounds line config

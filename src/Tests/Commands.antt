-- ===== src/Tests/Commands.antt =====
-- A start of the program with one peer, on a machine on which everything succeeds.
use cupboard.Prelude.{
  ◌⊎◌, zero, suc, suc, true, false, List, [], ◌∷◌, none, some, ok, err, ◌≡◌, ◌↔◌, refl,
  if◌then◌else◌,
}
use cupboard.Prelude.Lists.{All}
use cupboard.Text.{codes, ◌==◌}
use cupboard.Text.Split.{split}
use cupboard.Text.Trim.{trim_space}
use cupboard.Command.Flags.{CommandLine, Viper, split_comma_flag}
use cupboard.Command.Probe.{Answers}
use cupboard.Command.Settings.{sync_options}
use cupboard.Command.Start.{
  wait_for_issuer, Machine, Runnable, dashboard_notifier, sync_client, fleet_manager, web_interface,
  sync_endpoint, bookmark_group_controller, bookmark_controller, info_tile_controller,
  bookmark_group_webhook, bookmark_webhook, healthz, readyz,
}
use cupboard.Command.Start.Issuer.{IsReached, wait_for_issuer_iff}
use cupboard.Command.Start.Laws.{IsSafe, start_with-IsSafe}
use cupboard.Web.Templates.{contents, absent}

-- The provider answers with an error, with 503, and then with 200.
abbrev answers : Answers
answers zero = err (codes "no route")
answers (suc zero) = ok 503
answers (suc (suc n)) = ok 200

-- The flags give a peer and a key pair for the sync endpoint, and a CA.
abbrev line : CommandLine
line = record {
  string_flag = λ name.
      if name == codes "sync-urls"
      then some (codes "https://peer:8083")
      else if name == codes "sync-tls-ca"
      then some (codes "ca.pem")
      else if name == codes "sync-tls-cert"
      then some (codes "tls.crt")
      else if name == codes "sync-tls-key"
      then some (codes "tls.key")
      else if name == codes "fleet-clusters"
      then some (codes "https://home=ctx")
      else none;
  bool_flag = λ name. none;
}

abbrev config : Viper
config = record {
  is_set = λ key. false;
  get_string = λ key. codes "";
  get_bool = λ key. false;
  get_string_slice = λ key. [];
  link_groups = λ key. ok [];
  static_links = λ key. ok [];
}

abbrev machine : Machine
machine = record {
  config_env = codes "";
  environment = λ keys. config;
  read_config = λ keys path. ok config;
  cluster_config = ok (codes "cluster");
  kind_config = none;
  new_manager = λ options. none;
  new_discovery_client = none;
  adding = λ r. none;
  files = record {
    read_file = λ path. ok path;
    has_certs = λ pem. true;
    load_key_pair = λ cert key. ok cert;
  };
  probe_answers = λ url. answers;
  templates = record { filesystem = λ path. absent; embedded = λ path. contents path };
  parse_template = λ name text. none;
}

-- Five requests to a provider that is ready at the third.
wait_for_issuer_iff_example : (wait_for_issuer machine 5 false (codes "https://id/") [] ≡ ok []) ↔ (
    (codes "https://id/" ≡ codes "") ⊎ ((false ≡ true) ⊎ IsReached machine 5 (codes "https://id/")))
wait_for_issuer_iff_example = wait_for_issuer_iff machine 5 false (codes "https://id/") []

-- What is added on that start.
abbrev started : List Runnable
started =
    dashboard_notifier
    ∷ sync_client (sync_options config line)
    ∷ fleet_manager (
        record {
          endpoint = codes "https://home";
          auth_method = codes "ctx";
          azure_scope = codes "";
        }
        ∷ [])
    ∷ web_interface (codes ":8082")
    ∷ sync_endpoint (codes ":8083") (
        some (record {
          root_cas = none;
          certificates = some (codes "tls.crt");
          client_cas = some (codes "ca.pem");
          requires_client_cert = true;
        }))
    ∷ bookmark_group_controller
    ∷ bookmark_controller
    ∷ info_tile_controller
    ∷ bookmark_group_webhook
    ∷ bookmark_webhook
    ∷ healthz
    ∷ readyz
    ∷ []

start_with-IsSafe_example : All (IsSafe machine (sync_options config line)) started
unfolding cupboard.Command.Start.start_with cupboard.Command.Start.or_exit
    cupboard.Command.Settings.link_groups cupboard.Command.Settings.both_keys
    cupboard.Command.Settings.read_key cupboard.Command.Settings.static_links
    cupboard.Command.Start.setup_runtime_config cupboard.Command.Start.unless_error
    cupboard.Command.Start.add_components cupboard.Command.Start.add
    cupboard.Command.Start.add_sync_client sync_options cupboard.Command.Settings.list_setting
    cupboard.Command.Flags.is_set ◌==◌ split_comma_flag split cupboard.Command.Flags.or_default
    trim_space cupboard.Sync.Tls.build_sync_http_client cupboard.Command.Settings.settings
    cupboard.Command.Settings.string_setting cupboard.Command.Flags.resolve_string_flag
    cupboard.Command.Flags.explicit_flags cupboard.Sync.Tls.build_client_tls_config
    cupboard.Sync.Tls.load_cert_pool cupboard.Sync.Tls.client_pair
    cupboard.Command.Start.wait_for_issuer cupboard.Command.Start.add_fleet
    cupboard.Command.Settings.fleet_cluster_entries cupboard.Fleet.Config.parse_cluster_list
    cupboard.Fleet.Config.parse_cluster cupboard.Text.Split.cut cupboard.Text.Trim.is_blank
    cupboard.Fleet.Client.load_fleet_ca_pool cupboard.Command.Start.add_web_interface
    cupboard.Web.Templates.load_page_template cupboard.Web.Templates.parse_all
    cupboard.Web.Templates.parse_one cupboard.Web.Templates.read_page_template_file
    cupboard.Web.Templates.read_paths cupboard.Web.Templates.page_template_path
    cupboard.Text.Search.contains cupboard.Web.Templates.selected_set
    cupboard.Command.Settings.template_set cupboard.Command.Settings.page_setting
    cupboard.Command.Flags.first_non_empty cupboard.Web.Path.join cupboard.Prelude.Lists.keep
    cupboard.Web.Path.clean cupboard.Web.Path.assemble cupboard.Web.Path.is_rooted
    cupboard.Web.Path.backwards cupboard.Web.Path.clean_parts cupboard.Web.Templates.read_candidates
    cupboard.Web.Templates.candidates cupboard.Command.Start.add_sync_endpoint
    cupboard.Sync.Tls.build_sync_server_tls_config cupboard.Command.Start.add_all
    cupboard.Command.Settings.enable_webhooks cupboard.Fleet.Config.is_azure_workload_identity
start_with-IsSafe_example = start_with-IsSafe machine 9 line config started refl

-- ===== src/Command/Manager.antt =====
-- The options of the controller manager in `main`, and those of its metrics and webhook servers.
use cupboard.Prelude.{Bool, List, Option, not, if◌then◌else◌}
use cupboard.Text.{Text, codes, ◌==◌}
use cupboard.Command.Settings.{Settings}

-- What both servers take; `TLSOpts` is `disableHTTP2`, or nothing.
pub record ServerOptions : Type 0 where
  pub disables_http2 : Bool
  pub cert_dir : Text
  pub cert_name : Text
  pub key_name : Text

pub record MetricsOptions : Type 0 where
  pub bind_address : Text
  pub secure_serving : Bool
  -- `FilterProvider` is `WithAuthenticationAndAuthorization`
  pub authorizes : Bool
  pub server : ServerOptions

-- `ctrl.Options`, without the scheme, which does not vary.
pub record ManagerOptions : Type 0 where
  pub metrics : MetricsOptions
  pub webhook_server : ServerOptions
  pub health_probe_bind_address : Text
  pub leader_election : Bool
  pub leader_election_id : Text
  -- the namespaces of `cache.Options`
  pub cache : Option (List Text)

-- The options of a server, with a certificate if there is a path to one.
unfoldable pub server_options : Bool → Text → Text → Text → ServerOptions
server_options enable_http2 path name key =
    if path == codes ""
    then record {
      disables_http2 = not enable_http2;
      cert_dir = codes "";
      cert_name = codes "";
      key_name = codes "";
    }
    else record {
      disables_http2 = not enable_http2;
      cert_dir = path;
      cert_name = name;
      key_name = key;
    }

unfoldable pub metrics_options : Settings → MetricsOptions
metrics_options s = record {
  bind_address = s.metrics_addr;
  secure_serving = s.secure_metrics;
  authorizes = s.secure_metrics;
  server = server_options s.enable_http2 s.metrics_cert_path s.metrics_cert_name s.metrics_cert_key;
}

unfoldable pub manager_options : Settings → Option (List Text) → ManagerOptions
manager_options s namespaces = record {
  metrics = metrics_options s;
  webhook_server =
      server_options s.enable_http2 s.webhook_cert_path s.webhook_cert_name s.webhook_cert_key;
  health_probe_bind_address = s.probe_addr;
  leader_election = s.enable_leader_election;
  leader_election_id = codes "7cd7701f.netztronaut.de";
  cache = namespaces;
}

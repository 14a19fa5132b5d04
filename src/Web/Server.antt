-- ===== src/Web/Server.antt =====
-- The server, and what the world answers while it serves a request.
use cupboard.Prelude.{Bool, ℕ, ◌/◌, Option, Result}
use cupboard.Text.{Text}
use cupboard.Any.{Fields}
use cupboard.Notifier.{Notifier}
use cupboard.Dashboard.Response.{DashboardCollector}
use cupboard.Auth.Service.{AuthService}
use cupboard.Auth.Session.{Services}
use cupboard.Auth.Oidc.{Provider, HttpResponse}
use cupboard.Auth.Config.{AuthConfigResponse}
use cupboard.Web.Answer.{PageTemplateData}

-- `PageOptions`, without the set of templates.
pub record PageOptions : Type 0 where
  pub title : Text
  pub favicon_url : Text
  pub content_layout : Text

-- What `NewHandler` builds, as far as it changes, and the notifier.
pub record Server : Type 0 where
  pub auth : AuthService
  pub notifier : Notifier
  pub page : PageOptions

-- `fs.Stat`: a file, `fs.ErrNotExist`, or another error.
pub data Stat : Type 0 where
  found absent broken : Stat

-- `httputil.ReverseProxy` and JSON, for the discovery document.
pub record Proxy : Type 0 where
  pub parse_url : Text → Result Text Text
  -- the request to the parsed URL, and `io.ReadAll` of the body
  pub forward : Text → Result Text HttpResponse
  -- a `map[string]any`, `none` if it is nil
  pub unmarshal : Text → Result Text (Option Fields)
  pub marshal : Fields → Result Text Text

pub record World : Type 0 where
  -- in nanoseconds
  pub now : ℕ
  pub services : Services
  pub provider : Provider
  pub collector : DashboardCollector
  pub proxy : Proxy
  -- "index.html" of the frontend, and its files
  pub index : Result Text Text
  pub stat : Text → Stat
  -- `json.Marshal` of the configuration, and the error of the template "page", if any
  pub marshal_config : AuthConfigResponse → Text
  pub template_error : PageTemplateData → Option Text
  -- `Host` of the URL that `url.Parse` returns
  pub origin_host : Text → Result Text Text
  -- the connection of an upgraded request, or the status of the error that the upgrader answers, on
  -- the result of `CheckOrigin`
  pub upgrade : Bool → Result ℕ ℕ
  -- the status and the text that the two file servers answer
  pub static_files : Text → ℕ × Text
  pub dist_files : Text → ℕ × Text

-- `Unix()` of the time
abbrev pub seconds : World → ℕ
seconds w = w.now / 1000000000

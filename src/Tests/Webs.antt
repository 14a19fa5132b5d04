-- ===== src/Tests/Webs.antt =====
-- A server with authentication, on the example cluster.
use cupboard.Prelude.{
  ◌↔◌, ◌++◌, if◌then◌else◌, ap, map, true, false, List, [], ◌∷◌, none, some, ok, err, ◌≡◌, inl,
  refl, arith,
}
use cupboard.Prelude.Lists.{All}
use cupboard.Text.{Text, codes, ◌==◌}
use cupboard.Text.Split.{split}
use cupboard.Notifier.{new_notifier}
use cupboard.Dashboard.Response.{respond}
use cupboard.Dashboard.Response.Invariant.{final_maps}
use cupboard.Dashboard.Response.Total.{collect_dashboard-succeeds}
use cupboard.Auth.Service.{new_auth_service}
use cupboard.Auth.Request.{bearer_token_from_request, Request, bearer_token_from_request}
use cupboard.Auth.Session.{AuthSession, Cookie, set_session_cookie, new_auth_session}
use cupboard.Web.Answer.{Body, answer}
use cupboard.Web.Assets.{IsInjected, inject_auth_config, inject_auth_config-injected}
use cupboard.GoMap.{lookup}
use cupboard.Auth.Authenticate.{authenticate_request, login}
use cupboard.Auth.Oidc.{fetch_user_info, ask_endpoint, user_info_of, user_info_endpoint}
use cupboard.Auth.Service.{new_auth_service}
use cupboard.Web.Handlers.{
  api_dashboard, require_authentication, authenticated, authenticate, dashboard_handler,
  dashboard_answer, api_session,
}
use cupboard.Web.Laws.Granted.{IsGuarded, Grants}
use cupboard.Web.Laws.Guarded.{serve_http-IsGuarded}
use cupboard.Web.Laws.Login.{api_session_round_trip}
use cupboard.Web.Laws.Visible.{AllVisible, serve_http-AllVisible}
use cupboard.Web.Path.Laws.{IsPlain}
use cupboard.Web.Routes.{serve_http, routed, subtree}
use cupboard.Web.Server.{Server, World, Proxy, found}
use cupboard.Web.Templates.{
  Sources, Parse, Parsed, contents, absent, page_template_path, load_page_template,
  page_template_file_names,
}
use cupboard.Web.Templates.Fallback.{IsLoaded, load_page_template_iff}
use cupboard.Web.Templates.Functions.{icon_asset_url}
use cupboard.Web.Templates.Icons.{IsIconAsset, icon_asset_url_iff}
use cupboard.Text.Trim.{trim_space}
use cupboard.Text.Search.{has_prefix}
use cupboard.Web.Templates.Laws.{path_in_set, page_template_path-confined}
use cupboard.Tests.Auths.{auth, services, provider, info, crypto-IsBase64}
use cupboard.Tests.Fixtures.{ascii, collector, reader-IsReadable}

abbrev server : Server
server = record {
  auth = auth;
  notifier = new_notifier;
  page = record { title = codes ""; favicon_url = codes ""; content_layout = codes "" };
}

abbrev proxy : Proxy
proxy = record {
  parse_url = λ url. ok url;
  forward = λ url. err (codes "no route");
  unmarshal = λ text. ok none;
  marshal = λ fields. ok (codes "{}");
}

-- The example sessions are from the hundredth second.
abbrev world : World
world = record {
  now = 100000000000;
  services = services;
  provider = provider;
  collector = collector;
  proxy = proxy;
  index = ok (codes "<head></head>");
  stat = λ path. found;
  marshal_config = λ config. codes "{}";
  template_error = λ page. none;
  origin_host = λ origin. ok origin;
  upgrade = λ allowed. ok 7;
  static_files = λ path. (200, path);
  dist_files = λ path. (200, path);
}

abbrev request : Text → Text → Request
request method path = record {
  method = method;
  path = path;
  host = codes "cupboard";
  tls = true;
  authorization = codes "Bearer abc";
  forwarded_proto = codes "";
  origin = codes "";
  forwarded_host = codes "";
  cookie = λ name. none;
}

abbrev get_dashboard : Request
get_dashboard = request (codes "GET") (codes "/api/dashboard")

serve_http-IsGuarded_example :
    IsGuarded world get_dashboard server (serve_http world get_dashboard server)
unfolding new_auth_service
serve_http-IsGuarded_example = serve_http-IsGuarded world get_dashboard server refl

inject_auth_config-injected_example :
    IsInjected
      (codes "<head></head>")
      (codes "{}")
      (codes "<head>\n    <script>window.config = {};</script></head>")
unfolding inject_auth_config cupboard.Text.Search.contains cupboard.Web.Assets.replace_first
    page_template_path ◌==◌ split cupboard.Web.Path.join cupboard.Prelude.Lists.keep
    cupboard.Web.Path.clean cupboard.Web.Path.assemble cupboard.Web.Path.is_rooted
    cupboard.Web.Path.backwards cupboard.Web.Path.clean_parts
inject_auth_config-injected_example =
    inject_auth_config-injected (codes "<head></head>") (codes "{}")
      (codes "<head>\n    <script>window.config = {};</script></head>") refl

page_template_path-confined_example :
    (codes "templates/team/blue/page.tmpl" ≡ path_in_set (codes "team/blue") (codes "page"))
    × All IsPlain (split (codes "team/blue") b'/')
unfolding page_template_path ◌==◌ cupboard.Text.Search.contains split cupboard.Web.Path.join
    cupboard.Prelude.Lists.keep cupboard.Web.Path.clean cupboard.Web.Path.assemble
    cupboard.Web.Path.is_rooted cupboard.Web.Path.backwards cupboard.Web.Path.clean_parts
    cupboard.Web.Templates.selected_set cupboard.Text.Trim.trim_space
    cupboard.Web.Templates.has_invalid_part
page_template_path-confined_example =
    page_template_path-confined (codes "team/blue") (codes "page")
      (codes "templates/team/blue/page.tmpl") (omega arith) refl

icon_asset_url_iff_example :
    (icon_asset_url (codes " lucide:house ") ≡ codes "/static/icons/lucide/house.svg")
    ↔ IsIconAsset (trim_space (codes " lucide:house ")) (codes "/static/icons/lucide/house.svg")
icon_asset_url_iff_example =
    icon_asset_url_iff (codes " lucide:house ") (codes "/static/icons/lucide/house.svg") (λ e. cc)

-- A page of the set in the file system; embedded are the default templates.
abbrev sources : Sources
sources = record {
  filesystem = λ path.
      if path == codes "templates/blue/page.tmpl" then contents (codes "<html>") else absent;
  embedded = λ path. if has_prefix path (codes "templates/default/") then contents path else absent;
}

abbrev parsed : Parsed
parsed =
    (codes "page", codes "<html>")
    ∷ map (λ name. (codes "_" ++ name, path_in_set (codes "default") name))
        (codes "header"
          ∷ codes "footer"
          ∷ codes "content"
          ∷ codes "group"
          ∷ codes "link"
          ∷ codes "tile"
          ∷ [])

load_page_template_iff_example :
    (load_page_template sources (λ name text. none) (codes " blue ") ≡ ok parsed)
    ↔ IsLoaded sources (λ name text. none) (codes "blue") page_template_file_names parsed
unfolding cupboard.Text.Search.contains cupboard.Web.Templates.selected_set ◌==◌
    cupboard.Text.Trim.trim_space cupboard.Web.Templates.has_invalid_part split
load_page_template_iff_example =
    load_page_template_iff sources (λ name text. none) (codes " blue ") (codes "blue") parsed
      (inl (refl, λ e. cc)) (refl, refl)

-- The cookie of the session that is created, and a request that brings it.
abbrev session_cookie : Cookie
session_cookie = set_session_cookie services auth 100 (new_auth_session info)

abbrev with_cookie : Request
with_cookie = record (request (codes "GET") (codes "/api/session")) {
  cookie = λ name. some session_cookie.value;
}

abbrev create : Request
create = request (codes "POST") (codes "/api/session")

abbrev world_later : World
world_later = record world { now = 200000000000 }

api_session_round_trip_example :
    (api_session world_later with_cookie (api_session world create server).0).1
    ≡ answer 200 (Body.session (new_auth_session info))
unfolding new_auth_service ◌==◌ bearer_token_from_request cupboard.Text.Split.cut
    cupboard.Text.Trim.trim_space cupboard.Text.Case.equal_fold cupboard.Auth.Oidc.fetch_user_info
    cupboard.Auth.Oidc.ask_endpoint cupboard.Auth.Oidc.user_info_endpoint
    cupboard.Auth.Oidc.user_info_of api_session cupboard.Web.Handlers.create_session
    cupboard.Auth.Authenticate.login
api_session_round_trip_example =
    api_session_round_trip world world_later create with_cookie server info session_cookie refl refl
      refl refl refl refl crypto-IsBase64 refl refl refl (omega arith)

-- The user's groups are those of the example's information.
serve_http-AllVisible_example :
    (session : AuthSession) × (Grants world get_dashboard server session
      × AllVisible session.groups
          (respond false (new_auth_session info).groups (final_maps collector false)))
unfolding new_auth_service serve_http routed subtree api_dashboard require_authentication
    authenticated authenticate dashboard_handler dashboard_answer authenticate_request login
    fetch_user_info ask_endpoint user_info_of user_info_endpoint bearer_token_from_request lookup
    ◌==◌ cupboard.Text.Split.cut cupboard.Dashboard.Response.collect_dashboard
    cupboard.Text.Trim.trim_space cupboard.Dashboard.Response.collect_local
    cupboard.Text.Case.equal_fold cupboard.Dashboard.Collector.and_then
serve_http-AllVisible_example =
    serve_http-AllVisible world get_dashboard server
      (respond false (new_auth_session info).groups (final_maps collector false)) refl
      (ap (λ r. (dashboard_answer r).body)
        (collect_dashboard-succeeds collector (new_auth_session info).groups false
          reader-IsReadable))

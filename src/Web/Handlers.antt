-- ===== src/Web/Handlers.antt =====
-- The handlers of `NewHandler` that depend on the session, and the index of the frontend.
use cupboard.Prelude.{
  ℕ, false, not, List, [], ◌∷◌, Option, none, some, Result, ok, err, if◌then◌else◌,
}
use cupboard.Text.{Text, codes, ◌==◌}
use cupboard.Text.Case.{Unicode}
use cupboard.Kube.{KubeError}
use cupboard.Notifier.{register}
use cupboard.Notifier.Origin.{check_origin}
use cupboard.Dashboard.Types.{DashboardGroup, DashboardResponse}
use cupboard.Dashboard.Response.{collect_dashboard}
use cupboard.Auth.Service.{AuthService, first_non_empty_string}
use cupboard.Auth.Request.{Request, bearer_token_from_request, request_base_url}
use cupboard.Auth.Session.{AuthSession, Cookie, user_info_from_cookie, clear_session_cookie}
use cupboard.Auth.Oidc.{fetch_user_info}
use cupboard.Auth.Config.{auth_config}
use cupboard.Auth.Authenticate.{Authenticated, authenticate_request, login, anonymous}
use cupboard.Web.Answer.{
  Answer, Body, PageTemplateData, answer, method_not_allowed, unauthorized, is_get,
}
use cupboard.Web.Assets.{inject_auth_config}
use cupboard.Web.Server.{Server, World, PageOptions, seconds}

-- The server after a request, and the answer.
abbrev pub Served : Type 0
Served = Server × Answer

-- The server with another state of its authentication.
abbrev pub with_auth : Server → AuthService → Server
with_auth s a = record s { auth = a }

-- `authSessionFromContext`, and the groups of the session.
abbrev pub groups_of : Option AuthSession → List Text
groups_of none = []
groups_of (some session) = session.groups

unfoldable pub dashboard_answer : Result KubeError DashboardResponse → Answer
dashboard_answer (err e) = answer 500 (Body.message e.message)
dashboard_answer (ok payload) = answer 200 (Body.dashboard payload)

unfoldable pub injected : Result Text Text → Answer
injected (err e) = answer 500 (Body.message e)
injected (ok index) = answer 200 (Body.html index)

-- `frontendIndexHandler`, on the index that is read.
unfoldable pub index_answer : World → Request → Server → Result Text Text → Served
unfolding injected
index_answer w r s (err e) = (s, answer 500 (Body.message e))
index_answer w r s (ok index) =
    let c = auth_config w.provider w.now (request_base_url r) s.auth in
    (with_auth s c.0, injected (inject_auth_config index (w.marshal_config c.1)))

-- `frontendIndexHandler`
unfoldable pub frontend_index : World → Request → Server → Served
frontend_index w r s =
    if not (is_get r.method) then (s, method_not_allowed) else index_answer w r s w.index

-- The answer with the session, and the cookie that is set.
unfoldable pub session_answer : Server → Authenticated → Served
session_answer s (a, err e, cookie) = (with_auth s a, unauthorized)
session_answer s (a, ok session, cookie) =
    (with_auth s a, record { status = 200; cookie = cookie; body = Body.session session })

unfoldable pub cookie_answer : Result Text AuthSession → Answer
cookie_answer (err e) = unauthorized
cookie_answer (ok session) = answer 200 (Body.session session)

module _ ⦃u : Unicode⦄ where
  -- `dashboardHandler`, with the session of the request's context
  unfoldable pub dashboard_handler : World → Option AuthSession → Request → Answer
  unfolding dashboard_answer
  dashboard_handler w session r =
      if not (is_get r.method)
      then method_not_allowed
      else dashboard_answer (collect_dashboard w.collector (groups_of session) false)

  -- `requireAuthentication`: the next handler's answer, with the cookie that is set before it.
  unfoldable pub authenticated : Server → (AuthSession → Answer) → Authenticated → Served
  authenticated s next (a, err e, cookie) = (with_auth s a, unauthorized)
  authenticated s next (a, ok session, cookie) =
      (with_auth s a, record (next session) { cookie = cookie })

  unfoldable pub authenticate : World → Request → Server → Authenticated
  authenticate w r s = authenticate_request w.services w.provider (seconds w) r s.auth

  unfoldable pub require_authentication : World → (AuthSession → Answer) → Request → Server → Served
  unfolding authenticated
  require_authentication w next r s = authenticated s next (authenticate w r s)

  -- The handler of "/api/dashboard".
  unfoldable pub api_dashboard : World → Request → Server → Served
  api_dashboard w r s =
      if s.auth.enabled
      then require_authentication w (λ session. dashboard_handler w (some session) r) r s
      else (s, dashboard_handler w none r)

  -- The POST of "/api/session".
  unfoldable pub create_session : World → Request → Server → Served
  unfolding session_answer
  create_session w r s =
      let token = bearer_token_from_request r in
      let f = fetch_user_info w.provider token s.auth in
      if token == codes ""
      then (s, answer 401 (Body.message (codes "missing bearer token")))
      else session_answer s (login w.services (seconds w) f.0 f.1)

  -- The handler of "/api/session".
  unfoldable pub api_session : World → Request → Server → Served
  unfolding cookie_answer
  api_session w r s =
      if not s.auth.enabled
      then (s, answer 200 (Body.session anonymous))
      else if r.method == codes "GET"
      then (
        s,
        cookie_answer
            (user_info_from_cookie w.services s.auth (seconds w) (r.cookie s.auth.cookie_name)),
      )
      else if r.method == codes "POST"
      then create_session w r s
      else if r.method == codes "DELETE"
      then (
        s,
        record { status = 204; cookie = some (clear_session_cookie s.auth); body = Body.empty },
      )
      else (s, method_not_allowed)

  -- `Upgrade`, whose answer goes past the `ResponseWriter`, and `register`. The goroutine that reads
  -- until the connection ends, and then calls `unregister`, is a step of the notifier.
  unfoldable pub upgraded : Server → Option Cookie → Result ℕ ℕ → Served
  upgraded s cookie (err status) =
      (s, record { status = status; cookie = cookie; body = Body.empty })
  upgraded s cookie (ok conn) =
      (record s { notifier = register conn s.notifier }, answer 101 Body.upgraded)

  unfoldable pub upgrade_authenticated : Server → Result ℕ ℕ → Authenticated → Served
  unfolding upgraded
  upgrade_authenticated s upgrade (a, err e, cookie) = (with_auth s a, unauthorized)
  upgrade_authenticated s upgrade (a, ok session, cookie) = upgraded (with_auth s a) cookie upgrade

  -- The handler of "/api/dashboard/updates".
  unfoldable pub dashboard_updates : World → Request → Server → Served
  unfolding upgrade_authenticated upgraded
  dashboard_updates w r s =
      let upgrade = w.upgrade (check_origin w.origin_host r.origin r.host) in
      if not (is_get r.method)
      then (s, method_not_allowed)
      else if s.auth.enabled
      then upgrade_authenticated s upgrade (authenticate w r s)
      else upgraded s none upgrade

  -- The groups of the page: none, if they can not be collected.
  unfoldable pub page_groups : Result KubeError DashboardResponse → List DashboardGroup
  page_groups (err e) = []
  page_groups (ok dashboard) = dashboard.groups

  unfoldable pub page_data : World → PageOptions → Option AuthSession → PageTemplateData
  unfolding page_groups
  page_data w options session = record {
    title = first_non_empty_string (options.title ∷ codes "cupboard" ∷ []);
    favicon_url = options.favicon_url;
    content_layout = first_non_empty_string (options.content_layout ∷ codes "list" ∷ []);
    groups = page_groups (collect_dashboard w.collector (groups_of session) false);
  }

  unfoldable pub page_answer : World → PageTemplateData → Answer
  page_answer w template_data = elim (w.template_error template_data) [
    | some e ↦ answer 500 (Body.message e)
    | none ↦ answer 200 (Body.page template_data)
  ]

  -- The page of a session from the cookie; without one, the index of the frontend.
  unfoldable pub page_for : World → Request → Server → Result Text AuthSession → Served
  unfolding page_answer
  page_for w r s (err e) = frontend_index w r s
  page_for w r s (ok session) = (s, page_answer w (page_data w s.page (some session)))

  -- `pageTemplateHandler`
  unfoldable pub page_template : World → Request → Server → Served
  unfolding page_for page_answer
  page_template w r s =
      if not (is_get r.method)
      then (s, method_not_allowed)
      else if s.auth.enabled
      then page_for w r s
          (user_info_from_cookie w.services s.auth (seconds w) (r.cookie s.auth.cookie_name))
      else (s, page_answer w (page_data w s.page none))

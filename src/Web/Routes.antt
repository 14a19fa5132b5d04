-- ===== src/Web/Routes.antt =====
-- The routes of `NewHandler`, by the pattern that `http.ServeMux` picks for a clean path.
use cupboard.Prelude.{Option, none, some, [], ◌∷◌, ℕ, not, ◌||◌, if◌then◌else◌}
use cupboard.Prelude.Lists.{drop, length}
use cupboard.Text.{Text, codes, ◌==◌}
use cupboard.Text.Case.{Unicode}
use cupboard.Text.Search.{has_prefix, trim_prefix}
use cupboard.GoMap.{GoMap, lookup}
use cupboard.Auth.Request.{Request}
use cupboard.Web.Answer.{Answer, Body, answer, method_not_allowed, is_get}
use cupboard.Web.Discovery.{serve_open_id_configuration}
use cupboard.Web.Handlers.{
  Served, with_auth, frontend_index, api_dashboard, api_session, dashboard_updates, page_template,
}
use cupboard.Web.Docs.{api_docs, open_api_spec}
use cupboard.Web.Path.{clean}
use cupboard.Web.Server.{Server, World, Stat, found, absent, broken}

-- A handler that takes only GET, and answers without the state.
unfoldable pub get_only : Answer → Request → Server → Served
get_only reply r s = if not (is_get r.method) then (s, method_not_allowed) else (s, reply)

-- The handler of "/.well-known/openid-configuration".
unfoldable pub well_known_configuration : World → Request → Server → Served
well_known_configuration w r s =
    let d = serve_open_id_configuration w.provider w.proxy w.now r s.auth in
    if not (is_get r.method) then (s, method_not_allowed) else (with_auth s d.0, d.1)

-- The answer of a file server.
abbrev pub file_answer : ℕ × Text → Answer
file_answer (status, text) = answer status (Body.file text)

unfoldable pub asset : World → Request → Server → Stat → Served
asset w r s found = (s, file_answer (w.dist_files r.path))
asset w r s absent = frontend_index w r s
asset w r s broken = (s, answer 500 (Body.message (codes "Internal Server Error")))

module _ ⦃u : Unicode⦄ where
  -- The handler of "/".
  unfoldable pub root : World → Request → Server → Served
  unfolding asset
  root w r s =
      let clean_path = clean r.path in
      let asset_path = trim_prefix clean_path (codes "/") in
      if clean_path == codes "." || clean_path == codes "/"
      then page_template w r s
      else if asset_path == codes "index.html"
      then frontend_index w r s
      else asset w r s (w.stat asset_path)

  -- The exact patterns. The page of the API's documentation stands for the text that it is.
  abbrev pub routes : GoMap (World → Request → Server → Served)
  routes =
      (codes "/favicon.ico", λ w. get_only (answer 301 (Body.location (codes "/static/logo.svg"))))
      ∷ (codes "/.well-known/openid-configuration", well_known_configuration)
      ∷ (codes "/api/openapi.json", λ w. get_only (answer 200 (Body.openapi open_api_spec)))
      ∷ (codes "/api/docs", λ w. get_only (answer 200 (Body.html api_docs)))
      ∷ (codes "/api/session", api_session)
      ∷ (codes "/api/dashboard", api_dashboard)
      ∷ (codes "/api/dashboard/updates", dashboard_updates)
      ∷ []

  -- The patterns that end in a slash, the longer one first.
  unfoldable pub subtree : World → Request → Server → Served
  subtree w r s =
      if has_prefix r.path (codes "/static/")
      then (s, file_answer (w.static_files (drop (length (codes "/static/")) r.path)))
      else root w r s

  unfoldable pub routed :
      Option (World → Request → Server → Served) → World → Request → Server → Served
  routed none w r s = subtree w r s
  routed (some handler) w r s = handler w r s

  -- `ServeHTTP`
  unfoldable pub serve_http : World → Request → Server → Served
  serve_http w r s = routed (lookup r.path routes) w r s

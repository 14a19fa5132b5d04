-- ===== src/Web/Laws/Guarded.antt =====
-- With authentication enabled, no route shows the dashboard, or lets a client wait for its changes,
-- without a session.
use cupboard.Prelude.{
  [], ◌∷◌, none, ◌||◌, Bool-cases, ℕ, Bool, true, Option, some, Result, ok, err, ◌≡◌, inl, inr,
  refl,
}
use cupboard.Text.{Text, codes, ◌==◌}
use cupboard.Text.Case.{Unicode}
use cupboard.Text.Search.{trim_prefix, has_prefix}
use cupboard.Web.Path.{clean}
use cupboard.Auth.Request.{Request}
use cupboard.Auth.Service.{AuthService}
use cupboard.Auth.Authenticate.{authenticate_request-IsAuthentic}
use cupboard.Any.{Fields}
use cupboard.GoMap.{GoMap, lookup}
use cupboard.Auth.Service.{oidc_discovery_url}
use cupboard.Auth.Oidc.{issuer_and_discovery_reachable, HttpResponse}
use cupboard.Prelude.Lists.{All}
use cupboard.Web.Discovery.{
  rewritten, modify_response, forwarded, proxied, serve_open_id_configuration,
}
use cupboard.Web.Routes.{
  subtree, routed, routes, serve_http, get_only, root, asset, well_known_configuration,
}
use cupboard.Web.Answer.{is_get, Answer}
use cupboard.Web.Server.{Stat, Server, World, seconds}
use cupboard.Web.Handlers.{
  require_authentication, api_dashboard, dashboard_updates, page_template, authenticate, Served,
}
use cupboard.Web.Laws.Granted.{
  IsAllowed, IsGuarded, guards, AreGranted, frontend_index-IsGuarded, authenticated-IsGuarded,
  upgrade-IsGuarded, api_session-IsGuarded, page_for-IsGuarded,
}

module _ ⦃u : Unicode⦄ (w : World) (r : Request) (s : Server)
    (enabled : s.auth.enabled ≡ true) where
  authenticate-AreGranted : AreGranted w r s (authenticate w r s)
  unfolding authenticate
  authenticate-AreGranted b session cookie e =
      authenticate_request-IsAuthentic w.services w.provider (seconds w) r s.auth b session cookie
        enabled e

  api_dashboard-IsGuarded : IsGuarded w r s (api_dashboard w r s)
  unfolding api_dashboard require_authentication
  api_dashboard-IsGuarded =
      simp (enabled) (authenticated-IsGuarded w r s (authenticate w r s) authenticate-AreGranted)

  dashboard_updates-IsGuarded : IsGuarded w r s (dashboard_updates w r s)
  unfolding dashboard_updates
  dashboard_updates-IsGuarded = elim (Bool-cases (is_get r.method)) [
    | inl m ↦
        simp (m, enabled)
          (upgrade-IsGuarded w r s _ (authenticate w r s) refl authenticate-AreGranted)
    | inr m ↦ rw (dashboard_updates, m) (guards w r s tt (inl refl))
  ]

  page_template-IsGuarded : IsGuarded w r s (page_template w r s)
  unfolding page_template
  page_template-IsGuarded = elim (Bool-cases (is_get r.method)) [
    | inl m ↦ simp (m, enabled) (page_for-IsGuarded w r s _ refl)
    | inr m ↦ rw (page_template, m) (guards w r s tt (inl refl))
  ]

  asset-IsGuarded : (stat : Stat) → IsGuarded w r s (asset w r s stat)
  unfolding asset
  asset-IsGuarded Stat.found = guards w r s tt (inl refl)
  asset-IsGuarded Stat.absent = frontend_index-IsGuarded w r s
  asset-IsGuarded Stat.broken = guards w r s tt (inl refl)

  root-IsGuarded : IsGuarded w r s (root w r s)
  unfolding root
  root-IsGuarded = elim (Bool-cases (clean r.path == codes "." || clean r.path == codes "/")) [
    | inl e ↦ rw (root, e) page_template-IsGuarded
    | inr e ↦ elim (Bool-cases (trim_prefix (clean r.path) (codes "/") == codes "index.html")) [
      | inl i ↦ rw (root, e, i) (frontend_index-IsGuarded w r s)
      | inr i ↦ rw (root, e, i) (asset-IsGuarded _)
    ]
  ]

  rewritten-IsAllowed :
      (status : ℕ) (body : Result Text Text) → IsAllowed w r s (rewritten status body).body
  unfolding rewritten
  rewritten-IsAllowed status (err e) = tt
  rewritten-IsAllowed status (ok body) = tt

  modify_response-IsAllowed :
      (issuer : Text) (status : ℕ) (body : Text) (payload : Result Text (Option Fields))
      → IsAllowed w r s (modify_response w.proxy issuer status body payload).body
  unfolding modify_response
  modify_response-IsAllowed issuer status body (err e) = tt
  modify_response-IsAllowed issuer status body (ok none) = tt
  modify_response-IsAllowed issuer status body (ok (some payload)) = rewritten-IsAllowed status _

  forwarded-IsAllowed :
      (issuer : Text) (resp : Result Text HttpResponse)
      → IsAllowed w r s (forwarded w.proxy issuer resp).body
  unfolding forwarded
  forwarded-IsAllowed issuer (err e) = tt
  forwarded-IsAllowed issuer (ok resp) =
      modify_response-IsAllowed issuer resp.status_code resp.body (w.proxy.unmarshal resp.body)

  proxied-IsAllowed :
      (issuer : Text) (parsed : Result Text Text)
      → IsAllowed w r s (proxied w.proxy issuer parsed).body
  unfolding proxied
  proxied-IsAllowed issuer (err e) = tt
  proxied-IsAllowed issuer (ok parsed) = forwarded-IsAllowed issuer (w.proxy.forward parsed)

  discovery-IsAllowed :
      IsAllowed w r s (serve_open_id_configuration w.provider w.proxy w.now r s.auth).1.body
  unfolding serve_open_id_configuration
  discovery-IsAllowed =
      let check : AuthService × Bool =
        issuer_and_discovery_reachable w.provider w.now s.auth.issuer_url
          (oidc_discovery_url s.auth.issuer_url) s.auth in
      elim (Bool-cases (s.auth.issuer_url == codes "")) [
        | inl i ↦ simp (serve_open_id_configuration, enabled, i) tt
        | inr i ↦ elim (Bool-cases check.1) [
          | inl c ↦ simp (serve_open_id_configuration, enabled, i, c) (proxied-IsAllowed _ _)
          | inr c ↦ simp (serve_open_id_configuration, enabled, i, c) tt
        ]
      ]

  well_known_configuration-IsGuarded : IsGuarded w r s (well_known_configuration w r s)
  unfolding well_known_configuration
  well_known_configuration-IsGuarded = elim (Bool-cases (is_get r.method)) [
    | inl m ↦ rw (well_known_configuration, m) (guards w r s discovery-IsAllowed (inl refl))
    | inr m ↦ rw (well_known_configuration, m) (guards w r s tt (inl refl))
  ]

  get_only-IsGuarded :
      (reply : Answer) → IsAllowed w r s reply.body → IsGuarded w r s (get_only reply r s)
  unfolding get_only
  get_only-IsGuarded reply a = elim (Bool-cases (is_get r.method)) [
    | inl m ↦ rw (get_only, m) (guards w r s a (inl refl))
    | inr m ↦ rw (get_only, m) (guards w r s tt (inl refl))
  ]

  subtree-IsGuarded : IsGuarded w r s (subtree w r s)
  unfolding subtree
  subtree-IsGuarded = elim (Bool-cases (has_prefix r.path (codes "/static/"))) [
    | inl e ↦ rw (subtree, e) (guards w r s tt (inl refl))
    | inr e ↦ rw (subtree, e) root-IsGuarded
  ]

  routed-IsGuarded :
      (handlers : GoMap (World → Request → Server → Served))
      → All (λ entry. IsGuarded w r s (entry.1 w r s)) handlers
      → IsGuarded w r s (routed (lookup r.path handlers) w r s)
  unfolding routed lookup
  routed-IsGuarded [] h = subtree-IsGuarded
  routed-IsGuarded ((pattern, handler) ∷ handlers) (g, h) = elim (Bool-cases (pattern == r.path)) [
    | inl e ↦ rw (lookup, e) g
    | inr e ↦ rw (lookup, e) (routed-IsGuarded handlers h)
  ]

  -- With authentication enabled, every answer of the server that shows dashboard groups shows what
  -- is collected for the groups of a session, which a token or a cookie of the request grants; and a
  -- request leaves the notifier as it is, or adds one client, with such a session, whom the upgrader
  -- accepted on the result of checking the origin.
  pub serve_http-IsGuarded : IsGuarded w r s (serve_http w r s)
  unfolding serve_http
  serve_http-IsGuarded = routed-IsGuarded routes (
    get_only-IsGuarded _ tt,
    (
      well_known_configuration-IsGuarded,
      (
        get_only-IsGuarded _ tt,
        (
          get_only-IsGuarded _ tt,
          (
            api_session-IsGuarded w r s,
            (api_dashboard-IsGuarded, (dashboard_updates-IsGuarded, tt)),
          ),
        ),
      ),
    ),
  )

-- ===== src/Web/Laws/Granted.antt =====
-- What the answers of the handlers may show, and what they show when a session is granted.
use cupboard.Prelude.{
  Bool-cases, Option-cases, ℕ, false, Option, some, Result, ok, err, ◌≡◌, ◌⊎◌, inl, inr, refl,
}
use cupboard.Text.{Text, codes, ◌==◌}
use cupboard.Text.Case.{Unicode}
use cupboard.Kube.{KubeError}
use cupboard.Notifier.Origin.{check_origin}
use cupboard.Notifier.{Notifier, register}
use cupboard.Dashboard.Types.{DashboardResponse}
use cupboard.Dashboard.Response.{collect_dashboard}
use cupboard.Auth.Request.{bearer_token_from_request, Request}
use cupboard.Auth.Service.{AuthService}
use cupboard.Auth.Session.{user_info_from_cookie, AuthSession, Cookie}
use cupboard.Auth.Session.Granted.{user_info_from_cookie-ok}
use cupboard.Auth.Authenticate.{granted_by_cookie, Authenticated, IsAuthentic}
use cupboard.Any.{Fields}
use cupboard.Auth.Oidc.{OidcError, fetch_user_info}
use cupboard.Auth.Authenticate.{login}
use cupboard.Web.Answer.{is_get, Body}
use cupboard.Web.Server.{Server, World, seconds}
use cupboard.Web.Handlers.{
  with_auth, page_data, cookie_answer, page_for, api_session, session_answer, create_session,
  page_answer, Served, dashboard_answer, injected, index_answer, frontend_index, dashboard_handler,
  authenticated, upgraded, upgrade_authenticated, page_groups,
}

module _ ⦃u : Unicode⦄ (w : World) (r : Request) (s : Server) where
  -- A session of the request that a token or a cookie grants.
  abbrev pub Grants : AuthSession → Type 0
  Grants session = IsAuthentic w.services w.provider (seconds w) r s.auth session

  -- What is shown is what is collected for the groups of such a session.
  abbrev pub IsAllowed : Body → Type 0
  IsAllowed (Body.dashboard payload) =
      (session : AuthSession) × (Grants session
        × (collect_dashboard w.collector session.groups false ≡ ok payload))
  IsAllowed (Body.page shown) =
      (session : AuthSession) × (Grants session
        × (shown.groups ≡ page_groups (collect_dashboard w.collector session.groups false)))
  IsAllowed body = Unit

  -- The notifier is as it was, or has one more client, with such a session, whom the upgrader
  -- accepted on the result of checking the origin.
  abbrev pub IsRegistered : Notifier → Type 0
  IsRegistered n =
      (n ≡ s.notifier)
      ⊎ ((conn : ℕ) × ((session : AuthSession) × (Grants session
              × ((w.upgrade (check_origin w.origin_host r.origin r.host) ≡ ok conn)
                  × (n ≡ register conn s.notifier)))))

  pub record IsGuarded (v : Served) : Type 0 where
    pub allowed : IsAllowed v.1.body
    pub registered : IsRegistered v.0.notifier

  pub guards : {v : Served} → IsAllowed v.1.body → IsRegistered v.0.notifier → IsGuarded v
  guards a n = record { allowed = a; registered = n }

  index_answer-IsGuarded : (index : Result Text Text) → IsGuarded (index_answer w r s index)
  unfolding index_answer
  index_answer-IsGuarded (err e) = guards tt (inl refl)
  index_answer-IsGuarded (ok index) = guards (injected-IsAllowed _) (inl refl)
    where
      injected-IsAllowed : (html : Result Text Text) → IsAllowed (injected html).body
      injected-IsAllowed (err e) = tt
      injected-IsAllowed (ok html) = tt

  pub frontend_index-IsGuarded : IsGuarded (frontend_index w r s)
  unfolding frontend_index
  frontend_index-IsGuarded = elim (Bool-cases (is_get r.method)) [
    | inl e ↦ rw (frontend_index, e) (index_answer-IsGuarded w.index)
    | inr e ↦ rw (frontend_index, e) (guards tt (inl refl))
  ]

  dashboard_answer-IsAllowed :
      (session : AuthSession) (collected : Result KubeError DashboardResponse)
      → Grants session
      → collect_dashboard w.collector session.groups false ≡ collected
      → IsAllowed (dashboard_answer collected).body
  unfolding dashboard_answer
  dashboard_answer-IsAllowed session (err e) g c = tt
  dashboard_answer-IsAllowed session (ok payload) g c = (session, (g, c))

  dashboard_handler-IsAllowed :
      (session : AuthSession)
      → Grants session
      → IsAllowed (dashboard_handler w (some session) r).body
  unfolding dashboard_handler
  dashboard_handler-IsAllowed session g = elim (Bool-cases (is_get r.method)) [
    | inl e ↦ rw (dashboard_handler, e) (dashboard_answer-IsAllowed session _ g refl)
    | inr e ↦ rw (dashboard_handler, e) tt
  ]

  -- Whoever is authenticated has a session that is granted.
  abbrev pub AreGranted : Authenticated → Type 0
  AreGranted t =
      (b : AuthService) (session : AuthSession) (cookie : Option Cookie)
      → t ≡ (b, ok session, cookie)
      → Grants session

  pub authenticated-IsGuarded :
      (t : Authenticated)
      → AreGranted t
      → IsGuarded (authenticated s (λ session. dashboard_handler w (some session) r) t)
  unfolding authenticated
  authenticated-IsGuarded (a, err e, cookie) g = guards tt (inl refl)
  authenticated-IsGuarded (a, ok session, cookie) g =
      guards (dashboard_handler-IsAllowed session (g a session cookie refl)) (inl refl)

  upgraded-IsGuarded :
      (a : AuthService) (session : AuthSession) (cookie : Option Cookie) (upgrade : Result ℕ ℕ)
      → w.upgrade (check_origin w.origin_host r.origin r.host) ≡ upgrade
      → Grants session
      → IsGuarded (upgraded (with_auth s a) cookie upgrade)
  unfolding upgraded
  upgraded-IsGuarded a session cookie (err status) k g = guards tt (inl refl)
  upgraded-IsGuarded a session cookie (ok conn) k g =
      guards tt (inr (conn, (session, (g, (k, refl)))))

  pub upgrade-IsGuarded :
      (upgrade : Result ℕ ℕ) (t : Authenticated)
      → w.upgrade (check_origin w.origin_host r.origin r.host) ≡ upgrade
      → AreGranted t
      → IsGuarded (upgrade_authenticated s upgrade t)
  unfolding upgrade_authenticated
  upgrade-IsGuarded upgrade (a, err e, cookie) k g = guards tt (inl refl)
  upgrade-IsGuarded upgrade (a, ok session, cookie) k g =
      upgraded-IsGuarded a session cookie upgrade k (g a session cookie refl)

  session_answer-IsGuarded : (t : Authenticated) → IsGuarded (session_answer s t)
  unfolding session_answer
  session_answer-IsGuarded (a, err e, cookie) = guards tt (inl refl)
  session_answer-IsGuarded (a, ok session, cookie) = guards tt (inl refl)

  cookie_answer-IsAllowed :
      (answer : Result Text AuthSession) → IsAllowed (cookie_answer answer).body
  unfolding cookie_answer
  cookie_answer-IsAllowed (err e) = tt
  cookie_answer-IsAllowed (ok session) = tt

  create_session-IsGuarded : IsGuarded (create_session w r s)
  unfolding create_session
  create_session-IsGuarded =
      let asked : AuthService × Result OidcError (Option Fields) =
        fetch_user_info w.provider (bearer_token_from_request r) s.auth in
      elim (Bool-cases (bearer_token_from_request r == codes "")) [
        | inl e ↦ rw (create_session, e) (guards tt (inl refl))
        | inr e ↦
            rw (create_session, e)
              (session_answer-IsGuarded (login w.services (seconds w) asked.0 asked.1))
      ]

  pub api_session-IsGuarded : IsGuarded (api_session w r s)
  unfolding api_session
  api_session-IsGuarded = elim (Bool-cases s.auth.enabled) [
    | inr e ↦ simp (api_session, e) (guards tt (inl refl))
    | inl e ↦ elim (Bool-cases (r.method == codes "GET")) [
      | inl g ↦ simp (api_session, e, g) (guards (cookie_answer-IsAllowed _) (inl refl))
      | inr g ↦ elim (Bool-cases (r.method == codes "POST")) [
        | inl p ↦ simp (api_session, e, g, p) create_session-IsGuarded
        | inr p ↦ elim (Bool-cases (r.method == codes "DELETE")) [
          | inl d ↦ simp (api_session, e, g, p, d) (guards tt (inl refl))
          | inr d ↦ simp (api_session, e, g, p, d) (guards tt (inl refl))
        ]
      ]
    ]
  ]

  page_answer-IsAllowed :
      (session : AuthSession)
      → Grants session
      → IsAllowed (page_answer w (page_data w s.page (some session))).body
  unfolding page_answer page_data
  page_answer-IsAllowed session g =
      elim (Option-cases (w.template_error (page_data w s.page (some session)))) [
        | inl e ↦ rw (page_answer, e) (session, (g, refl))
        | inr (message, e) ↦ rw (page_answer, e) tt
      ]

  pub page_for-IsGuarded :
      (answer : Result Text AuthSession)
      → user_info_from_cookie w.services s.auth (seconds w) (r.cookie s.auth.cookie_name) ≡ answer
      → IsGuarded (page_for w r s answer)
  unfolding page_for
  page_for-IsGuarded (err e) c = frontend_index-IsGuarded
  page_for-IsGuarded (ok session) c =
      guards
        (page_answer-IsAllowed session (
          granted_by_cookie w.services w.provider (seconds w) r s.auth session (
            user_info_from_cookie-ok w.services s.auth (seconds w) (r.cookie s.auth.cookie_name)
              session c)))
        (inl refl)

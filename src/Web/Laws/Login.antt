-- ===== src/Web/Laws/Login.antt =====
-- A session that is created over HTTP is found again by its cookie.
use cupboard.Prelude.{
  ◌∙◌, ◌+◌, ◌≤◌, ap, subst, sym, true, false, Option, some, Result, ok, err, ◌≡◌, refl, arith,
}
use cupboard.Text.{eq_refl, Text, codes, ◌==◌}
use cupboard.Text.Case.{Unicode}
use cupboard.Any.{Fields}
use cupboard.Auth.Service.{AuthService}
use cupboard.Auth.Cookie.{IsBase64}
use cupboard.Auth.Session.{AuthSession, session_ttl, payload_of}
use cupboard.Auth.Session.Granted.{user_info_from_cookie-set_session_cookie}
use cupboard.Auth.Request.{Request, bearer_token_from_request}
use cupboard.Auth.Oidc.{
  Provider, HttpResponse, fetch_user_info, user_info_endpoint, discovered_endpoint,
}
use cupboard.Auth.Session.{Cookie, new_auth_session, set_session_cookie, user_info_from_cookie}
use cupboard.Auth.Authenticate.{login}
use cupboard.Web.Answer.{answer, Body}
use cupboard.Web.Server.{Server, World, seconds}
use cupboard.Web.Handlers.{
  Served, api_session, create_session, session_answer, cookie_answer, with_auth,
}

-- What a session cookie depends on is the same in two states of the service.
abbrev pub IsSameCookie : AuthService → AuthService → Type 0
IsSameCookie a b = (a.enabled ≡ b.enabled) × (a.secret ≡ b.secret) × (a.cookie_name ≡ b.cookie_name)

discovered_endpoint-IsSameCookie :
    (p : Provider) (a : AuthService) (resp : Result Text HttpResponse)
    → IsSameCookie (discovered_endpoint p a resp).0 a
unfolding discovered_endpoint
discovered_endpoint-IsSameCookie p a (err e) = (refl, refl, refl)
discovered_endpoint-IsSameCookie p a (ok resp) = ground arith

pub fetch_user_info-IsSameCookie :
    (p : Provider) (token : Text) (a : AuthService) → IsSameCookie (fetch_user_info p token a).0 a
unfolding fetch_user_info user_info_endpoint
fetch_user_info-IsSameCookie p token a = ground (arith, discovered_endpoint-IsSameCookie p a)

module _ ⦃u : Unicode⦄ (w : World) (r : Request) (s : Server) where
  -- The answer to a POST with a token that the provider accepts.
  create_session-created :
      (info : Option Fields)
      → (bearer_token_from_request r == codes "") ≡ false
      → (fetch_user_info w.provider (bearer_token_from_request r) s.auth).1 ≡ ok info
      → create_session w r s ≡ (
        with_auth s (fetch_user_info w.provider (bearer_token_from_request r) s.auth).0,
        record {
          status = 200;
          cookie = some (
              set_session_cookie w.services
                (fetch_user_info w.provider (bearer_token_from_request r) s.auth).0
                (seconds w)
                (new_auth_session info));
          body = Body.session (new_auth_session info);
        },
      )
  unfolding create_session
  create_session-created info t f = rw (create_session, t, f) (unfold login session_answer in refl)

  api_session-post :
      s.auth.enabled ≡ true
      → (r.method == codes "GET") ≡ false
      → (r.method == codes "POST") ≡ true
      → api_session w r s ≡ create_session w r s
  unfolding api_session
  api_session-post e g p = ground arith

  api_session-get :
      s.auth.enabled ≡ true
      → (r.method == codes "GET") ≡ true
      → (api_session w r s).1
        ≡ cookie_answer
            (user_info_from_cookie w.services s.auth (seconds w) (r.cookie s.auth.cookie_name))
  unfolding api_session
  api_session-get e g = ground arith

module _ ⦃u : Unicode⦄ where
  -- A session that a POST with an accepted token creates is what a GET answers, if it brings the
  -- cookie that was set and comes before the session expires, and if the two codecs reverse.
  pub api_session_round_trip :
      (w later : World) (r q : Request) (s : Server) (info : Option Fields) (cookie : Cookie)
      → s.auth.enabled ≡ true
      → r.method ≡ codes "POST"
      → (bearer_token_from_request r == codes "") ≡ false
      → (fetch_user_info w.provider (bearer_token_from_request r) s.auth).1 ≡ ok info
      → (api_session w r s).1.cookie ≡ some cookie
      → later.services ≡ w.services
      → IsBase64 w.services.crypto
      → w.services.unmarshal (w.services.marshal (payload_of (seconds w) (new_auth_session info)))
        ≡ ok (payload_of (seconds w) (new_auth_session info))
      → q.method ≡ codes "GET"
      → q.cookie cookie.name ≡ some cookie.value
      → seconds later ≤ seconds w + session_ttl
      → (api_session later q (api_session w r s).0).1
        ≡ answer 200 (Body.session (new_auth_session info))
  api_session_round_trip w later r q s info cookie e m t f c v b j g k d =
      let a : AuthService = (fetch_user_info w.provider (bearer_token_from_request r) s.auth).0 in
      let session : AuthSession = new_auth_session info in
      let set : Cookie = set_session_cookie w.services a (seconds w) session in
      let created : api_session w r s ≡ (
        with_auth s a,
        record { status = 200; cookie = some set; body = Body.session session },
      ) =
        api_session-post w r s e (rw m (unfold ◌==◌ in refl)) (rw m (eq_refl (codes "POST")))
        ∙ create_session-created w r s info t f in
      let same : set ≡ cookie = ground (arith, ap (λ (x : Served). x.1.cookie) created) in
      let sent : q.cookie a.cookie_name ≡ some set.value =
        unfold set_session_cookie in
        subst (λ (x : Cookie). q.cookie x.name ≡ some x.value) (sym same) k in
      let found : user_info_from_cookie later.services a (seconds later) (q.cookie a.cookie_name)
          ≡ ok session =
        rw (v, sent)
          (user_info_from_cookie-set_session_cookie w.services a (seconds w) (seconds later) info b
            j d) in
      rw created (
        api_session-get later q (with_auth s a)
          ((fetch_user_info-IsSameCookie w.provider (bearer_token_from_request r) s.auth).0 ∙ e)
          (rw g (eq_refl (codes "GET")))
        ∙ rw found (unfold cookie_answer in refl))

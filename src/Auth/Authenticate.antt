-- ===== src/Auth/Authenticate.antt =====
-- `authenticateRequest`, and what the session that it returns rests on.
use cupboard.Prelude.{
  ap, subst, sym, refl, Bool-cases, inl, inr, ℕ, true, not, [], Option, none, some, Result, ok, err,
  ◌≡◌, ◌≢◌, ◌<◌, ◌++◌, arith, if◌then◌else◌,
}
use cupboard.Text.{Text, codes, ◌==◌, eq_iff}
use cupboard.Text.Case.{Unicode}
use cupboard.Any.{Fields, string, no_fields}
use cupboard.Auth.Service.{AuthService}
use cupboard.Auth.Request.{Request, bearer_token_from_request}
use cupboard.Auth.Cookie.{IsSigned, verify_signed_cookie-IsSigned}
use cupboard.Auth.Oidc.Laws.{Accepts, ask_endpoint-Accepts}
use cupboard.Auth.Oidc.{Provider, HttpResponse, OidcError, fetch_user_info, user_info_endpoint}
use cupboard.Auth.Session.{
  AuthSession, SessionPayload, Services, Cookie, new_auth_session, set_session_cookie,
  user_info_from_cookie,
}
use cupboard.Auth.Session.Granted.{
  AreGroupsOf, user_groups_from_user_info-AreGroupsOf, IsSessionOf, FromCookie,
  user_info_from_cookie-ok,
}

pub data AuthError : Type 0 where
  cookie_error : Text → AuthError
  provider_error : OidcError → AuthError

-- A service after a call, the session or the error, and the cookie that is set, if any.
abbrev pub Authenticated : Type 0
Authenticated = AuthService × Result AuthError AuthSession × Option Cookie

-- The session of a token's user info.
unfoldable pub login : Services → ℕ → AuthService → Result OidcError (Option Fields) → Authenticated
login s now a (err e) = (a, err (provider_error e), none)
login s now a (ok info) =
    let session = new_auth_session info in
    (a, ok session, some (set_session_cookie s a now session))

unfoldable pub from_cookie : Result Text AuthSession → Result AuthError AuthSession
from_cookie (err e) = err (cookie_error e)
from_cookie (ok session) = ok session

-- The session of everybody, where authentication is disabled.
abbrev pub anonymous : AuthSession
anonymous = record {
  user_info = some (Fields.field (codes "sub") (string (codes "anonymous")) no_fields);
  groups = [];
}

module _ ⦃u : Unicode⦄ where
  -- `authenticateRequest`, at a time in seconds.
  unfoldable pub authenticate_request :
      Services → Provider → ℕ → Request → AuthService → Authenticated
  authenticate_request s p now r a =
      let token = bearer_token_from_request r in
      if not a.enabled
      then (a, ok anonymous, none)
      else if not (token == codes "")
      then (let f = fetch_user_info p token a in login s now f.0 f.1)
      else (a, from_cookie (user_info_from_cookie s a now (r.cookie a.cookie_name)), none)

  -- What a session may rest on: a token that the provider accepts, whose answer has its user info; or a
  -- cookie that carries a payload, signed with the secret of the service and not expired. Its groups
  -- are those of the user info, or those of the payload.
  pub data IsAuthentic (s : Services) (p : Provider) (now : ℕ) (r : Request) (a : AuthService)
      (session : AuthSession) : Type 0 where
    by_token :
        (endpoint : Text) (resp : HttpResponse) (info : Option Fields)
        → bearer_token_from_request r ≢ []
        → p.do_get endpoint (codes "Bearer " ++ bearer_token_from_request r) ≡ ok resp
        → resp.status_code < 400
        → p.decode_user_info resp.body ≡ ok info
        → session.user_info ≡ info
        → AreGroupsOf info session.groups
        → IsAuthentic s p now r a session
    by_cookie :
        (value payload_json : Text) (payload : SessionPayload)
        → r.cookie a.cookie_name ≡ some value
        → IsSigned s.crypto value a.secret payload_json
        → s.unmarshal payload_json ≡ ok payload
        → IsSessionOf now payload session
        → IsAuthentic s p now r a session

  login-ok :
      (s : Services) (now : ℕ) (a b : AuthService) (answer : Result OidcError (Option Fields))
      (session : AuthSession) (cookie : Option Cookie)
      → login s now a answer ≡ (b, ok session, cookie)
      → (info : Option Fields) × ((answer ≡ ok info) × (session ≡ new_auth_session info))
  unfolding login
  login-ok s now a b (err e) session cookie h = absurd (ground arith)
  login-ok s now a b (ok info) session cookie h = (info, (refl, ground arith))

  from_cookie-ok :
      (answer : Result Text AuthSession) (session : AuthSession)
      → from_cookie answer ≡ ok session
      → answer ≡ ok session
  unfolding from_cookie
  from_cookie-ok (err e) session h = absurd (ground arith)
  from_cookie-ok (ok t) session h = ground arith

  pub granted_by_cookie :
      (s : Services) (p : Provider) (now : ℕ) (r : Request) (a : AuthService)
      (session : AuthSession)
      → FromCookie s a now (r.cookie a.cookie_name) session
      → IsAuthentic s p now r a session
  granted_by_cookie s p now r a session (value, (json, (payload, (c, v, u, t)))) =
      by_cookie value json payload c (verify_signed_cookie-IsSigned s.crypto value a.secret json v)
        u t

  granted_by_token :
      (s : Services) (p : Provider) (now : ℕ) (r : Request) (a : AuthService)
      (session : AuthSession) (info : Option Fields)
      → bearer_token_from_request r ≢ []
      → session ≡ new_auth_session info
      → (endpoint : Text) × Accepts p
          (p.do_get endpoint (codes "Bearer " ++ bearer_token_from_request r))
          info
      → IsAuthentic s p now r a session
  unfolding new_auth_session
  granted_by_token s p now r a session info n e (endpoint, (resp, (g, t, d))) =
      by_token endpoint resp info n g t d (ap (λ x. x.user_info) e) (
        subst (λ x. AreGroupsOf info x.groups) (sym e)
          (user_groups_from_user_info-AreGroupsOf info))

  -- With authentication enabled, a session is returned only if a token or a cookie of the request
  -- grants it.
  pub authenticate_request-IsAuthentic :
      (s : Services) (p : Provider) (now : ℕ) (r : Request) (a b : AuthService)
      (session : AuthSession) (cookie : Option Cookie)
      → a.enabled ≡ true
      → authenticate_request s p now r a ≡ (b, ok session, cookie)
      → IsAuthentic s p now r a session
  unfolding authenticate_request fetch_user_info
  authenticate_request-IsAuthentic s p now r a b session cookie e h =
      elim (Bool-cases (bearer_token_from_request r == codes "")) [
        | inl t ↦ granted_by_cookie s p now r a session (
            user_info_from_cookie-ok s a now (r.cookie a.cookie_name) session
              (from_cookie-ok _ session (ground arith)))
        | inr t ↦
            let f : AuthService × Result OidcError (Option Fields) =
              fetch_user_info p (bearer_token_from_request r) a in
            let k : (info : Option Fields) × ((f.1 ≡ ok info) × (session ≡ new_auth_session info)) =
              login-ok s now f.0 b f.1 session cookie (ground arith) in
            granted_by_token s p now r a session k.0
              (λ z. absurd (ground (arith, eq_iff (bearer_token_from_request r) []))) k.1.1
              (ask_endpoint-Accepts p (bearer_token_from_request r) (user_info_endpoint p a).1 k.0
                k.1.0)
      ]

-- ===== src/Auth/Session.antt =====
-- Session cookies: `setSessionCookie`, `clearSessionCookie` and `userInfoFromCookie`.
pub mod Granted
use cupboard.Prelude.{ℕ, ◌+◌, List, [], ◌∷◌, Option, none, some, Result, ok, err, if◌then◌else◌}
use cupboard.Text.{Text, codes}
use cupboard.Any.{Fields, get}
use cupboard.Dashboard.Groups.{normalized_groups, raw_groups}
use cupboard.Prelude.Int.{ℤ, pos, negsuc, ltb_ℤ}
use cupboard.Auth.Service.{AuthService}
use cupboard.Auth.Cookie.{Crypto, sign_cookie, verify_signed_cookie}

-- `authSession`
pub record AuthSession : Type 0 where
  pub user_info : Option Fields
  pub groups : List Text

-- `sessionPayload`
pub record SessionPayload : Type 0 where
  pub expires_at : ℤ
  pub user_info : Option Fields
  pub groups : List Text

-- Cryptography, and `json.Marshal` and `json.Unmarshal` of a `sessionPayload`.
pub record Services : Type 0 where
  pub crypto : Crypto
  pub marshal : SessionPayload → Text
  pub unmarshal : Text → Result Text SessionPayload

-- An `http.Cookie`, of which all have `HttpOnly` and `SameSiteLaxMode`.
pub record Cookie : Type 0 where
  pub name : Text
  pub value : Text
  pub path : Text
  pub max_age : ℤ

-- `userGroupsFromUserInfo`
unfoldable pub user_groups_from_user_info : Option Fields → List Text
user_groups_from_user_info none = []
user_groups_from_user_info (some info) = normalized_groups (raw_groups (get (codes "groups") info))

-- `newAuthSession`
unfoldable pub new_auth_session : Option Fields → AuthSession
new_auth_session info = record { user_info = info; groups = user_groups_from_user_info info }

-- `sessionTTL`
abbrev pub session_ttl : ℕ
session_ttl = 86400

-- The payload of the cookie of a session.
abbrev pub payload_of : ℕ → AuthSession → SessionPayload
payload_of now session = record {
  expires_at = pos (now + session_ttl);
  user_info = session.user_info;
  groups = session.groups;
}

-- The cookie that `setSessionCookie` sets at a time.
unfoldable pub set_session_cookie : Services → AuthService → ℕ → AuthSession → Cookie
set_session_cookie s a now session = record {
  name = a.cookie_name;
  value = sign_cookie s.crypto (s.marshal (payload_of now session)) a.secret;
  path = codes "/";
  max_age = pos session_ttl;
}

-- The cookie that `clearSessionCookie` sets.
unfoldable pub clear_session_cookie : AuthService → Cookie
clear_session_cookie a = record {
  name = a.cookie_name;
  value = codes "";
  path = codes "/";
  max_age = negsuc 0;
}

-- The groups of a payload, or those of its user info if it has none.
unfoldable pub payload_groups : List Text → Option Fields → List Text
payload_groups [] info = user_groups_from_user_info info
payload_groups (g ∷ gs) info = g ∷ gs

unfoldable pub payload_session : ℕ → Result Text SessionPayload → Result Text AuthSession
unfolding payload_groups
payload_session now (err e) = err e
payload_session now (ok payload) =
    if ltb_ℤ payload.expires_at (pos now)
    then err (codes "session cookie expired")
    else ok (record {
      user_info = payload.user_info;
      groups = payload_groups payload.groups payload.user_info;
    })

unfoldable pub verified_session : Services → ℕ → Result Text Text → Result Text AuthSession
unfolding payload_session
verified_session s now (err e) = err e
verified_session s now (ok payload_json) = payload_session now (s.unmarshal payload_json)

-- `userInfoFromCookie`, on the value of the cookie, if the request has it.
unfoldable pub user_info_from_cookie :
    Services → AuthService → ℕ → Option Text → Result Text AuthSession
unfolding verified_session
user_info_from_cookie s a now none = err (codes "http: named cookie not present")
user_info_from_cookie s a now (some value) =
    verified_session s now (verify_signed_cookie s.crypto value a.secret)

-- ===== src/Auth/Session/Granted.antt =====
-- What a session from a cookie rests on, and the cookie that gives its session back.
use cupboard.Prelude.{
  subst, ◌↔◌, ℕ, ◌+◌, ◌≤◌, false, List, [], ◌∷◌, Option, none, some, Result, ok, err, ◌≡◌, refl,
  arith,
}
use cupboard.Text.{Text, codes}
use cupboard.Any.{Fields, get}
use cupboard.Dashboard.Groups.{raw_groups}
use cupboard.Prelude.Int.{ℤ, pos, negsuc, ltb_ℤ}
use cupboard.Prelude.Lists.{Any}
use cupboard.Dashboard.Groups.Access.{HasGroup}
use cupboard.Dashboard.Groups.Normalized.{names_of, normalized_groups_iff}
use cupboard.Auth.Service.{AuthService}
use cupboard.Auth.Cookie.{IsBase64, verify_signed_cookie, verify_signed_cookie-sign_cookie}
use cupboard.Auth.Session.{
  payload_groups, payload_session, verified_session, AuthSession, SessionPayload, Services,
  user_groups_from_user_info, new_auth_session, session_ttl, payload_of, set_session_cookie,
  user_info_from_cookie,
}

payload_groups-kept :
    (gs : List Text) (info : Option Fields)
    → user_groups_from_user_info info ≡ gs
    → payload_groups gs info ≡ gs
unfolding payload_groups
payload_groups-kept [] info e = e
payload_groups-kept (g ∷ gs) info e = refl

groups_kept :
    (info : Option Fields)
    → payload_groups (user_groups_from_user_info info) info ≡ user_groups_from_user_info info
groups_kept info = payload_groups-kept (user_groups_from_user_info info) info refl

-- The cookie that is set for a session gives the session back until it expires, if the two codecs
-- reverse.
pub user_info_from_cookie-set_session_cookie :
    (s : Services) (a : AuthService) (now later : ℕ) (info : Option Fields)
    → IsBase64 s.crypto
    → s.unmarshal (s.marshal (payload_of now (new_auth_session info)))
      ≡ ok (payload_of now (new_auth_session info))
    → later ≤ now + session_ttl
    → user_info_from_cookie s a later
        (some (set_session_cookie s a now (new_auth_session info)).value)
      ≡ ok (new_auth_session info)
unfolding user_info_from_cookie set_session_cookie new_auth_session verified_session payload_session
user_info_from_cookie-set_session_cookie s a now later info h j t =
    let live : ltb_ℤ (pos (now + session_ttl)) (pos later) ≡ false = ground arith in
    rw
      (
        verify_signed_cookie-sign_cookie s.crypto
            (s.marshal (payload_of now (new_auth_session info))) a.secret h,
        j,
        live,
        groups_kept info,
      )
      refl

-- The groups that user info gives: those of its claim "groups", and none without user info.
abbrev pub AreGroupsOf : Option Fields → List Text → Type 0
AreGroupsOf none groups = groups ≡ []
AreGroupsOf (some info) groups =
    (g : Text)
    → Any (λ x. x ≡ g) groups ↔ HasGroup (names_of (raw_groups (get (codes "groups") info))) g

pub user_groups_from_user_info-AreGroupsOf :
    (info : Option Fields) → AreGroupsOf info (user_groups_from_user_info info)
unfolding user_groups_from_user_info
user_groups_from_user_info-AreGroupsOf none = refl
user_groups_from_user_info-AreGroupsOf (some info) =
    normalized_groups_iff (raw_groups (get (codes "groups") info))

-- The groups that a payload gives: its own, if it has any, and otherwise those of its user info.
abbrev pub ArePayloadGroups : List Text → Option Fields → List Text → Type 0
ArePayloadGroups [] info groups = AreGroupsOf info groups
ArePayloadGroups (g ∷ gs) info groups = groups ≡ g ∷ gs

payload_groups-ArePayloadGroups :
    (groups : List Text) (info : Option Fields)
    → ArePayloadGroups groups info (payload_groups groups info)
unfolding payload_groups
payload_groups-ArePayloadGroups [] info = user_groups_from_user_info-AreGroupsOf info
payload_groups-ArePayloadGroups (g ∷ gs) info = refl

-- A time is not past an expiry.
abbrev pub IsLive : ℕ → ℤ → Type 0
IsLive now (pos t) = now ≤ t
IsLive now (negsuc t) = ⊥

not_past-IsLive :
    (now : ℕ) (expires_at : ℤ) → ltb_ℤ expires_at (pos now) ≡ false → IsLive now expires_at
not_past-IsLive now (pos t) h = ground arith
not_past-IsLive now (negsuc t) h = absurd (ground arith)

-- The session of a payload that has not expired.
abbrev pub IsSessionOf : ℕ → SessionPayload → AuthSession → Type 0
IsSessionOf now payload session =
    IsLive now payload.expires_at
    × (session.user_info ≡ payload.user_info)
    × ArePayloadGroups payload.groups payload.user_info session.groups

-- What a session from a cookie rests on.
abbrev pub FromCookie : Services → AuthService → ℕ → Option Text → AuthSession → Type 0
FromCookie s a now cookie session =
    (value : Text) × ((payload_json : Text) × ((payload : SessionPayload) × ((cookie ≡ some value)
          × (verify_signed_cookie s.crypto value a.secret ≡ ok payload_json)
          × (s.unmarshal payload_json ≡ ok payload)
          × IsSessionOf now payload session)))

payload_session-ok :
    (now : ℕ) (answer : Result Text SessionPayload) (session : AuthSession)
    → payload_session now answer ≡ ok session
    → (payload : SessionPayload) × ((answer ≡ ok payload) × IsSessionOf now payload session)
unfolding payload_session
payload_session-ok now (err e) session h = absurd (ground arith)
payload_session-ok now (ok payload) session h =
    let live : ltb_ℤ payload.expires_at (pos now) ≡ false = ground arith in
    let groups : payload_groups payload.groups payload.user_info ≡ session.groups = ground arith in
    (
      payload,
      (
        refl,
        (
          not_past-IsLive now payload.expires_at live,
          ground arith,
          subst (ArePayloadGroups payload.groups payload.user_info) groups
              (payload_groups-ArePayloadGroups payload.groups payload.user_info),
        ),
      ),
    )

verified_session-ok :
    (s : Services) (now : ℕ) (answer : Result Text Text) (session : AuthSession)
    → verified_session s now answer ≡ ok session
    → (payload_json : Text) × ((payload : SessionPayload) × ((answer ≡ ok payload_json)
          × (s.unmarshal payload_json ≡ ok payload)
          × IsSessionOf now payload session))
unfolding verified_session
verified_session-ok s now (err e) session h = absurd (ground arith)
verified_session-ok s now (ok json) session h =
    let (payload, (e, t)) = payload_session-ok now (s.unmarshal json) session h in
    (json, (payload, (refl, e, t)))

pub user_info_from_cookie-ok :
    (s : Services) (a : AuthService) (now : ℕ) (cookie : Option Text) (session : AuthSession)
    → user_info_from_cookie s a now cookie ≡ ok session
    → FromCookie s a now cookie session
unfolding user_info_from_cookie
user_info_from_cookie-ok s a now none session h = absurd (ground arith)
user_info_from_cookie-ok s a now (some value) session h =
    let (json, (payload, (v, e, t))) =
      verified_session-ok s now (verify_signed_cookie s.crypto value a.secret) session h in
    (value, (json, (payload, (refl, v, e, t))))

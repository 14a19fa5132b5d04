-- ===== src/Tests/Auths.antt =====
-- Cookies, with an encoding that moves the characters beyond the full stop.
use cupboard.Prelude.{◌+◌, ◌-◌, [], ◌∷◌, Option, some, ok, ◌≡◌, refl, true, arith}
use cupboard.Text.{Text, codes}
use cupboard.Text.Split.{Lacks}
use cupboard.Any.{Fields, string, no_fields}
use cupboard.Auth.Cookie.{
  Crypto, IsBase64, IsSigned, sign_cookie, verify_signed_cookie-sign_cookie,
  verify_signed_cookie-IsSigned,
}
use cupboard.Prelude.{ℕ, err, refl}
use cupboard.Prelude.Lists.{Any}
use cupboard.Text.{◌==◌}
use cupboard.Text.Trim.{is_blank}
use cupboard.Auth.Oidc.{Provider, user_info_endpoint, discovered_endpoint}
use cupboard.Auth.Oidc.Laws.{
  Call, Explains, answer_of, after, issuer_and_discovery_reachable-Explains,
  user_info_endpoint_stable,
}
use cupboard.Auth.Service.{well_known, AuthService, AuthOptions, new_auth_service}
use cupboard.Auth.Session.{Services, payload_of, new_auth_session}

abbrev pub shift : Text → Text
shift [] = []
shift (c ∷ s) = (c + 47) ∷ shift s

abbrev pub unshift : Text → Text
unshift [] = []
unshift (c ∷ s) = (c - 47) ∷ unshift s

abbrev pub crypto : Crypto
crypto = record { hmac = λ secret text. secret; encode = shift; decode = λ s. ok (unshift s) }

unshift-shift : (s : Text) → unshift (shift s) ≡ s
unshift-shift [] = refl
unshift-shift (c ∷ s) = ground (arith, unshift-shift s)

shift-Lacks : (s : Text) → Lacks b'.' (shift s)
shift-Lacks [] = tt
shift-Lacks (c ∷ s) = (omega arith, shift-Lacks s)

pub crypto-IsBase64 : IsBase64 crypto
crypto-IsBase64 = record {
  decode-encode = λ s. rw (unshift-shift s) refl;
  encode-Lacks = shift-Lacks;
}

verify_signed_cookie-IsSigned_example :
    IsSigned crypto (sign_cookie crypto (codes "{}") (codes "key")) (codes "key") (codes "{}")
verify_signed_cookie-IsSigned_example =
    verify_signed_cookie-IsSigned crypto (sign_cookie crypto (codes "{}") (codes "key"))
      (codes "key") (codes "{}")
      (verify_signed_cookie-sign_cookie crypto (codes "{}") (codes "key") crypto-IsBase64)

abbrev pub info : Option Fields
info = some (Fields.field (codes "groups") (string (codes "admins,staff")) no_fields)

-- JSON of the one session of this file.
abbrev pub services : Services
services = record {
  crypto = crypto;
  marshal = λ payload. codes "{}";
  unmarshal = λ text. ok (payload_of 100 (new_auth_session info));
}

abbrev pub options : AuthOptions
options = record {
  enabled = true;
  cookie_secret = codes "key";
  issuer_url = codes "https://id/";
  client_id = codes "cupboard";
  redirect_path = codes "";
  scopes = codes "";
  user_info_endpoint_url = codes "";
}

abbrev pub auth : AuthService
auth = record (new_auth_service options) { cached_user_info_ep = codes "https://id/me" }

-- A provider that answers every request, and one that answers none.
abbrev pub provider : Provider
provider = record {
  do_get = λ url header. ok (record { status_code = 200; body = codes "{}" });
  decode_discovery = λ body. ok (codes "https://id/me");
  decode_user_info = λ body. ok info;
}

abbrev down : Provider
down = record provider { do_get = λ url header. err (codes "no route") }

abbrev asked_at : Provider → ℕ → Call
asked_at p now = record {
  provider = p;
  at = now;
  issuer_url = codes "https://id/";
  discovery_url = codes "https://id/.well-known/openid-configuration";
}

-- The provider was up at the first call, and is down at the second, within the lifetime.
issuer_and_discovery_reachable-Explains_example :
    Any
      (Explains 9000000000
        (codes "https://id/")
        (codes "https://id/.well-known/openid-configuration")
        (answer_of (asked_at down 9000000000) (after auth (asked_at provider 5000000000 ∷ []))).1)
      (asked_at down 9000000000 ∷ asked_at provider 5000000000 ∷ [])
unfolding new_auth_service cupboard.Text.Trim.trim_space
issuer_and_discovery_reachable-Explains_example =
    issuer_and_discovery_reachable-Explains auth (asked_at provider 5000000000 ∷ [])
      (asked_at down 9000000000) refl (λ e. cc)

-- The first call finds the endpoint; the second is made while the provider is down.
user_info_endpoint_stable_example :
    user_info_endpoint down auth ≡ (auth, ok (codes "https://id/me"))
unfolding new_auth_service cupboard.Text.Trim.trim_space
user_info_endpoint_stable_example =
    user_info_endpoint_stable provider down (new_auth_service options) auth (codes "https://id/me")
      (unfold user_info_endpoint discovered_endpoint well_known is_blank ◌==◌ in refl)

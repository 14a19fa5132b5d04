-- ===== src/Auth/Cookie.antt =====
-- `signCookie` and `verifySignedCookie`.
use cupboard.Prelude.{
  ◌∷◌, ◌++◌, Option, none, some, Result, ok, err, ◌≡◌, refl, arith, if◌then◌else◌,
}
use cupboard.Text.{Text, codes, ◌==◌, eq_iff, eq_refl}
use cupboard.Text.Split.{cut, cut_sound, cut-append, Lacks}

-- HMAC with SHA-256 of a secret and a text, and `base64.RawURLEncoding`.
pub record Crypto : Type 0 where
  pub hmac : Text → Text → Text
  pub encode : Text → Text
  pub decode : Text → Result Text Text

-- What the package documents: decoding reverses encoding, whose alphabet has no full stop.
pub record IsBase64 (c : Crypto) : Type 0 where
  pub decode-encode : (s : Text) → c.decode (c.encode s) ≡ ok s
  pub encode-Lacks : (s : Text) → Lacks b'.' (c.encode s)

-- `signCookie`
unfoldable pub sign_cookie : Crypto → Text → Text → Text
sign_cookie c payload secret =
    let payload_encoded = c.encode payload in
    payload_encoded ++ b'.' ∷ c.encode (c.hmac secret payload_encoded)

signature_checked : Crypto → Text → Text → Result Text Text → Result Text Text
signature_checked c secret payload_encoded (err e) = err e
signature_checked c secret payload_encoded (ok provided) =
    if c.hmac secret payload_encoded == provided
    then c.decode payload_encoded
    else err (codes "invalid cookie signature")

parts_checked : Crypto → Text → Option (Text × Text) → Result Text Text
unfolding signature_checked
parts_checked c secret none = err (codes "invalid cookie format")
parts_checked c secret (some (payload_encoded, signature)) =
    signature_checked c secret payload_encoded (c.decode signature)

-- `verifySignedCookie`
unfoldable pub verify_signed_cookie : Crypto → Text → Text → Result Text Text
unfolding parts_checked
verify_signed_cookie c value secret = parts_checked c secret (cut value b'.')

-- A cookie that is signed is verified, with the payload as its result, if the encoding is base64.
pub verify_signed_cookie-sign_cookie :
    (c : Crypto) (payload secret : Text)
    → IsBase64 c
    → verify_signed_cookie c (sign_cookie c payload secret) secret ≡ ok payload
unfolding verify_signed_cookie sign_cookie parts_checked signature_checked
verify_signed_cookie-sign_cookie c payload secret h =
    rw
      (
        cut-append (c.encode payload) (c.encode (c.hmac secret (c.encode payload))) b'.'
            (h.encode-Lacks payload),
        h.decode-encode (c.hmac secret (c.encode payload)),
        eq_refl (c.hmac secret (c.encode payload)),
        h.decode-encode payload,
      )
      refl

-- A value carries a payload with a signature of it under a secret.
abbrev pub IsSigned : Crypto → Text → Text → Text → Type 0
IsSigned c value secret payload =
    (payload_encoded : Text) × ((signature : Text) × ((value ≡ payload_encoded ++ b'.' ∷ signature)
        × ((c.decode signature ≡ ok (c.hmac secret payload_encoded))
            × (c.decode payload_encoded ≡ ok payload))))

signature_checked-ok :
    (c : Crypto) (secret payload_encoded payload : Text) (answer : Result Text Text)
    → signature_checked c secret payload_encoded answer ≡ ok payload
    → (answer ≡ ok (c.hmac secret payload_encoded)) × (c.decode payload_encoded ≡ ok payload)
unfolding signature_checked
signature_checked-ok c secret payload_encoded payload (err e) k = absurd (ground arith)
signature_checked-ok c secret payload_encoded payload (ok provided) k =
    ground (arith, eq_iff (c.hmac secret payload_encoded) provided)

parts_checked-IsSigned :
    (c : Crypto) (value secret payload : Text) (parts : Option (Text × Text))
    → cut value b'.' ≡ parts
    → parts_checked c secret parts ≡ ok payload
    → IsSigned c value secret payload
unfolding parts_checked
parts_checked-IsSigned c value secret payload none p k = absurd (ground arith)
parts_checked-IsSigned c value secret payload (some (payload_encoded, signature)) p k = (
  payload_encoded,
  (
    signature,
    (
      (cut_sound value b'.' payload_encoded signature p).0,
      signature_checked-ok c secret payload_encoded payload (c.decode signature) k,
    ),
  ),
)

-- A value that is verified carries the payload with its signature.
pub verify_signed_cookie-IsSigned :
    (c : Crypto) (value secret payload : Text)
    → verify_signed_cookie c value secret ≡ ok payload
    → IsSigned c value secret payload
unfolding verify_signed_cookie
verify_signed_cookie-IsSigned c value secret payload h =
    parts_checked-IsSigned c value secret payload (cut value b'.') refl h

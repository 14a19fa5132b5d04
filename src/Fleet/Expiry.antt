-- ===== src/Fleet/Expiry.antt =====
-- The tokens of internal/foreigncluster/azure.go do not outlive their expiry.
use cupboard.Prelude.{
  false, refl, ap, subst, ◌∙◌, ℕ, ◌+◌, ◌*◌, ◌<◌, ◌≤◌, Option, none, some, Result, ok, err, ltb, ◌≡◌,
  true, arith, Bool-cases, inl, inr,
}
use cupboard.Prelude.Int.{ℤ, pos, negsuc, plus, ◌*ℤ◌, ltb_ℤ, pos_part, is_neg}
use cupboard.Text.{Text}
use cupboard.Fleet.Azure.{
  Azure, AzureError, AzureCachedToken, AzureTokenSource, TokenResult, expires_in_or_hour, lifetime,
  token_of, token_in, token_answer, token_for, exchange_token, is_fresh, refreshed,
  token_or_refresh, token,
}

-- A time is before an expiry.
abbrev pub IsBefore : ℕ → ℤ → Type 0
IsBefore now (pos t) = now < t
IsBefore now (negsuc t) = ⊥

-- A cached token with a value, which has not expired.
abbrev pub IsToken : ℕ → Text → Option AzureCachedToken → Type 0
IsToken now value none = ⊥
IsToken now value (some t) = (t.value ≡ value) × IsBefore now t.expires_at

-- The endpoint gives tokens of at most 9223372036 seconds, which a `time.Duration` can hold.
abbrev pub HasShortLifetimes : Azure → Type 0
HasShortLifetimes z =
    (raw : Text) (result : TokenResult)
    → z.unmarshal raw ≡ ok result
    → pos_part result.expires_in ≤ 9223372036

seconds_exact : (n : ℕ) → n ≤ 9223372036 → pos n *ℤ 1000000000 ≡ pos (n * 1000000000)
unfolding ◌*ℤ◌
seconds_exact n h = ground arith

plus-IsBefore : (now n : ℕ) → 0 < n → n ≤ 9223372036 → IsBefore now (plus now (pos n *ℤ 1000000000))
unfolding plus
plus-IsBefore now n p h = rw (seconds_exact n h) (omega arith)

lifetime-IsBefore :
    (now : ℕ) (n : ℤ) → pos_part n ≤ 9223372036 → IsBefore now (plus now (lifetime n))
unfolding lifetime expires_in_or_hour
lifetime-IsBefore now (pos n) h = elim (Bool-cases (ltb 0 n)) [
  | inl e ↦ rw e (plus-IsBefore now n (ground arith) h)
  | inr e ↦ rw e (plus-IsBefore now 3600 (omega arith) (omega arith))
]
lifetime-IsBefore now (negsuc n) h = plus-IsBefore now 3600 (omega arith) (omega arith)

lifetime-IsNegative : (n : ℕ) → 9223372036 < n → n ≤ 18446744073 → is_neg (lifetime (pos n)) ≡ true
unfolding lifetime expires_in_or_hour ◌*ℤ◌
lifetime-IsNegative n l h = let e : ltb 0 n ≡ true = ground arith in rw e (ground arith)

plus_negative :
    (now later : ℕ) (d : ℤ)
    → is_neg d ≡ true
    → now ≤ later
    → ltb_ℤ (pos (later + 30000000000)) (plus now d) ≡ false
unfolding plus
plus_negative now later (pos n) e l = absurd (ground arith)
plus_negative now later (negsuc n) e l = ground arith

-- A token for more than 9223372036 seconds, up to 18446744073, is never taken from the cache, at the
-- time of the exchange or later, since the `time.Duration` of its lifetime is negative.
pub token_of-overflow :
    (now later n : ℕ) (result : TokenResult) (t : AzureCachedToken)
    → result.expires_in ≡ pos n
    → 9223372036 < n
    → n ≤ 18446744073
    → now ≤ later
    → token_of now (ok result) ≡ ok t
    → is_fresh later (some t) ≡ none
unfolding token_of is_fresh
token_of-overflow now later n result t e l h after k =
    let expiry : plus now (lifetime result.expires_in) ≡ t.expires_at = ground arith in
    let negative : is_neg (lifetime result.expires_in) ≡ true = rw e (lifetime-IsNegative n l h) in
    let late : ltb_ℤ (pos (later + 30000000000)) t.expires_at ≡ false =
      subst (λ x. ltb_ℤ (pos (later + 30000000000)) x ≡ false) expiry
        (plus_negative now later (lifetime result.expires_in) negative after) in
    rw late refl

token_of-IsBefore :
    (now : ℕ) (answer : Result Text TokenResult) (t : AzureCachedToken)
    → ((result : TokenResult) → answer ≡ ok result → pos_part result.expires_in ≤ 9223372036)
    → token_of now answer ≡ ok t
    → IsBefore now t.expires_at
unfolding token_of
token_of-IsBefore now (err e) t b h = absurd (ground arith)
token_of-IsBefore now (ok result) t b h =
    let expiry : plus now (lifetime result.expires_in) ≡ t.expires_at = ground arith in
    subst (IsBefore now) expiry (lifetime-IsBefore now result.expires_in (b result refl))

module _ (z : Azure) (now : ℕ) (short : HasShortLifetimes z) where
  token_in-IsBefore :
      (raw : Result Text Text) (t : AzureCachedToken)
      → token_in z now raw ≡ ok t
      → IsBefore now t.expires_at
  unfolding token_in
  token_in-IsBefore (err e) t h = absurd (ground arith)
  token_in-IsBefore (ok raw) t h = token_of-IsBefore now (z.unmarshal raw) t (short raw) h

  token_answer-IsBefore :
      (resp : Result Text Text) (t : AzureCachedToken)
      → token_answer z now resp ≡ ok t
      → IsBefore now t.expires_at
  unfolding token_answer
  token_answer-IsBefore (err e) t h = absurd (ground arith)
  token_answer-IsBefore (ok resp) t h = token_in-IsBefore (z.read_body resp) t h

  token_for-IsBefore :
      (s : AzureTokenSource) (read : Result Text Text) (t : AzureCachedToken)
      → token_for z now s read ≡ ok t
      → IsBefore now t.expires_at
  unfolding token_for
  token_for-IsBefore s (err e) t h = absurd (ground arith)
  token_for-IsBefore s (ok federated_token) t h = token_answer-IsBefore _ t h

  refreshed-IsToken :
      (s b : AzureTokenSource) (value : Text) (answer : Result AzureError AzureCachedToken)
      → ((t : AzureCachedToken) → answer ≡ ok t → IsBefore now t.expires_at)
      → refreshed s answer ≡ (b, ok value)
      → IsToken now value b.cached
  unfolding refreshed
  refreshed-IsToken s b value (err e) f h = absurd (ground arith)
  refreshed-IsToken s b value (ok t) f h =
      let same : some t ≡ b.cached = ground arith in
      let value_of : t.value ≡ value = ground arith in
      subst (IsToken now value) same (value_of, f t refl)

  fresh_expiry :
      (expires_at : ℤ) → ltb_ℤ (pos (now + 30000000000)) expires_at ≡ true → IsBefore now expires_at
  fresh_expiry (pos t) h = ground arith
  fresh_expiry (negsuc t) h = absurd (ground arith)

  fresh-IsToken :
      (cached : Option AzureCachedToken) (value : Text)
      → is_fresh now cached ≡ some value
      → IsToken now value cached
  unfolding is_fresh
  fresh-IsToken none value h = absurd (ground arith)
  fresh-IsToken (some t) value h = (ground arith, fresh_expiry t.expires_at (ground arith))

  token_or_refresh-IsToken :
      (s b : AzureTokenSource) (value : Text) (found : Option Text)
      → is_fresh now s.cached ≡ found
      → token_or_refresh z now s found ≡ (b, ok value)
      → IsToken now value b.cached
  unfolding token_or_refresh exchange_token
  token_or_refresh-IsToken s b value none e h =
      refreshed-IsToken s b value (exchange_token z now s)
        (λ t. token_for-IsBefore s (z.read_file s.token_file) t) h
  token_or_refresh-IsToken s b value (some v) e h =
      let same : s.cached ≡ b.cached = ground arith in
      let value_of : v ≡ value = ground arith in
      subst (IsToken now value) same (fresh-IsToken s.cached value (e ∙ ap some value_of))

-- If the endpoint gives no token more than 9223372036 seconds, a token that is returned is the cached
-- one afterwards, and has not expired.
pub token-IsToken :
    (z : Azure) (now : ℕ) (s b : AzureTokenSource) (value : Text)
    → HasShortLifetimes z
    → token z now s ≡ (b, ok value)
    → IsToken now value b.cached
unfolding token
token-IsToken z now s b value short h =
    token_or_refresh-IsToken z now short s b value (is_fresh now s.cached) refl h

-- ===== src/Auth/Oidc/Laws.antt =====
-- What the caches of the identity provider's answers may return.
use cupboard.Prelude.{
  ◌++◌, ◌<◌, ◌∙◌, sym, subst, ℕ, ◌-◌, ◌≤◌, Bool, true, false, List, [], ◌∷◌, Result, ok, err, ◌≡◌,
  ◌≢◌, ◌⊎◌, inl, inr, refl, arith, Bool-cases,
}
use cupboard.Prelude.Lists.{Any}
use cupboard.Text.{Text, ◌==◌, eq_iff}
use cupboard.Text.Trim.{is_blank, trim_space}
use cupboard.Auth.Service.{AuthService}
use cupboard.Auth.Oidc.{
  codes, Fields, OidcError, Option, HttpResponse, trim_space, well_known, is_blank, Provider,
  issuer_check_ttl, check_issuer, is_cached, issuer_and_discovery_reachable, user_info_endpoint,
  user_info_of, ask_endpoint, discovered_endpoint,
}

-- A call of `issuerAndDiscoveryReachable`.
pub record Call : Type 0 where
  pub provider : Provider
  pub at : ℕ
  pub issuer_url : Text
  pub discovery_url : Text

abbrev pub answer_of : Call → AuthService → AuthService × Bool
answer_of c = issuer_and_discovery_reachable c.provider c.at c.issuer_url c.discovery_url

-- The service after calls, the latest first.
abbrev pub after : AuthService → List Call → AuthService
after a [] = a
after a (c ∷ past) = (answer_of c (after a past)).0

-- The specification: a call that would have found the answer for the two URLs, and was made at most
-- the lifetime of a check before.
abbrev pub Explains : ℕ → Text → Text → Bool → Call → Type 0
Explains now issuer_url discovery_url answer c =
    (c.issuer_url ≡ issuer_url)
    × (c.discovery_url ≡ discovery_url)
    × (now - c.at ≤ issuer_check_ttl)
    × (check_issuer c.provider c.issuer_url c.discovery_url ≡ answer)

-- The call that filled the cache.
abbrev Filled : AuthService → Call → Type 0
Filled a c =
    (c.issuer_url ≡ a.cached_issuer_for_url)
    × (c.discovery_url ≡ a.cached_discovery_for_url)
    × (c.at ≡ a.cached_issuer_checked_at)
    × (check_issuer c.provider c.issuer_url c.discovery_url ≡ a.cached_issuer_reachable)

abbrev IsBacked : List Call → AuthService → Type 0
IsBacked past a = (a.cached_issuer_for_url ≡ []) ⊎ Any (Filled a) past

Any-Filled :
    (a : AuthService) (now : ℕ) (issuer discovery : Text) (past : List Call)
    → a.cached_issuer_for_url ≡ issuer
    → a.cached_discovery_for_url ≡ discovery
    → now - a.cached_issuer_checked_at ≤ issuer_check_ttl
    → Any (Filled a) past
    → Any (Explains now issuer discovery a.cached_issuer_reachable) past
Any-Filled a now issuer discovery [] i d t h = h
Any-Filled a now issuer discovery (c ∷ past) i d t (inl f) = inl (ground arith)
Any-Filled a now issuer discovery (c ∷ past) i d t (inr h) =
    inr (Any-Filled a now issuer discovery past i d t h)

answer_of_hit :
    (c : Call) (a : AuthService)
    → is_cached a c.at c.issuer_url c.discovery_url ≡ true
    → answer_of c a ≡ (a, a.cached_issuer_reachable)
unfolding issuer_and_discovery_reachable
answer_of_hit c a hit = rw hit refl

answer_of_miss :
    (c : Call) (a : AuthService)
    → is_cached a c.at c.issuer_url c.discovery_url ≡ false
    → answer_of c a ≡ (
      record a {
        cached_issuer_for_url = c.issuer_url;
        cached_discovery_for_url = c.discovery_url;
        cached_issuer_reachable = check_issuer c.provider c.issuer_url c.discovery_url;
        cached_issuer_checked_at = c.at;
      },
      check_issuer c.provider c.issuer_url c.discovery_url,
    )
unfolding issuer_and_discovery_reachable
answer_of_miss c a miss = rw miss refl

answer_of-IsBacked :
    (c : Call) (past : List Call) (a : AuthService)
    → IsBacked past a
    → IsBacked (c ∷ past) (answer_of c a).0
answer_of-IsBacked c past a h = elim (Bool-cases (is_cached a c.at c.issuer_url c.discovery_url)) [
  | inl hit ↦
      subst (λ r. IsBacked (c ∷ past) r.0) (sym (answer_of_hit c a hit))
        (elim h [ inl f ↦ inl f | inr f ↦ inr (inr f) ])
  | inr miss ↦
      subst (λ r. IsBacked (c ∷ past) r.0) (sym (answer_of_miss c a miss))
        (inr (inl (refl, refl, refl, refl)))
]

after-IsBacked :
    (a : AuthService) (past : List Call)
    → a.cached_issuer_for_url ≡ []
    → IsBacked past (after a past)
after-IsBacked a [] e = inl e
after-IsBacked a (c ∷ past) e = answer_of-IsBacked c past (after a past) (after-IsBacked a past e)

-- What a hit says of the cache.
is_cached_sound :
    (a : AuthService) (now : ℕ) (issuer discovery : Text)
    → is_cached a now issuer discovery ≡ true
    → (a.cached_issuer_for_url ≡ issuer)
      × (a.cached_discovery_for_url ≡ discovery)
      × (now - a.cached_issuer_checked_at ≤ issuer_check_ttl)
unfolding is_cached
is_cached_sound a now issuer discovery h =
    ground
      (arith, eq_iff a.cached_issuer_for_url issuer, eq_iff a.cached_discovery_for_url discovery)

hit-Explains :
    (c : Call) (past : List Call) (a : AuthService)
    → c.issuer_url ≢ []
    → IsBacked past a
    → is_cached a c.at c.issuer_url c.discovery_url ≡ true
    → Any (Explains c.at c.issuer_url c.discovery_url a.cached_issuer_reachable) past
hit-Explains c past a n (inl e) hit =
    absurd (n (sym (is_cached_sound a c.at c.issuer_url c.discovery_url hit).0 ∙ e))
hit-Explains c past a n (inr h) hit =
    let s : (a.cached_issuer_for_url ≡ c.issuer_url)
        × (a.cached_discovery_for_url ≡ c.discovery_url)
        × (c.at - a.cached_issuer_checked_at ≤ issuer_check_ttl) =
      is_cached_sound a c.at c.issuer_url c.discovery_url hit in
    Any-Filled a c.at c.issuer_url c.discovery_url past s.0 s.1 s.2 h

answer_of-Explains :
    (c : Call) (past : List Call) (a : AuthService)
    → c.issuer_url ≢ []
    → IsBacked past a
    → Any (Explains c.at c.issuer_url c.discovery_url (answer_of c a).1) (c ∷ past)
answer_of-Explains c past a n h =
    elim (Bool-cases (is_cached a c.at c.issuer_url c.discovery_url)) [
      | inl hit ↦
          subst (λ r. Any (Explains c.at c.issuer_url c.discovery_url r.1) (c ∷ past))
            (sym (answer_of_hit c a hit)) (inr (hit-Explains c past a n h hit))
      | inr miss ↦
          subst (λ r. Any (Explains c.at c.issuer_url c.discovery_url r.1) (c ∷ past))
            (sym (answer_of_miss c a miss)) (inl (refl, refl, omega arith, refl))
    ]

-- After any calls on a new service, the answer about an issuer that is named is the result of a
-- check of the same URLs, with what the provider answers during this call or an earlier one, which
-- was made at most 30 seconds before.
pub issuer_and_discovery_reachable-Explains :
    (a : AuthService) (past : List Call) (c : Call)
    → a.cached_issuer_for_url ≡ []
    → c.issuer_url ≢ []
    → Any (Explains c.at c.issuer_url c.discovery_url (answer_of c (after a past)).1) (c ∷ past)
issuer_and_discovery_reachable-Explains a past c e n =
    answer_of-Explains c past (after a past) n (after-IsBacked a past e)

not_nil : (s : Text) → is_blank s ≡ false → (s == []) ≡ false
unfolding is_blank ◌==◌ trim_space
not_nil [] h = absurd (cc)
not_nil (c ∷ s) h = refl

discovered_endpoint-kept :
    (p : Provider) (a b : AuthService) (answer : Result Text HttpResponse) (endpoint : Text)
    → discovered_endpoint p a answer ≡ (b, ok endpoint)
    → (b.cached_user_info_ep ≡ endpoint) × ((endpoint == []) ≡ false)
unfolding discovered_endpoint
discovered_endpoint-kept p a b (err e) endpoint h = absurd (ground arith)
discovered_endpoint-kept p a b (ok resp) endpoint h = ground (arith, not_nil endpoint)

user_info_endpoint-kept :
    (p : Provider) (a b : AuthService) (endpoint : Text)
    → user_info_endpoint p a ≡ (b, ok endpoint)
    → (b.cached_user_info_ep ≡ endpoint) × ((endpoint == []) ≡ false)
unfolding user_info_endpoint
user_info_endpoint-kept p a b endpoint h =
    ground (arith, discovered_endpoint-kept p a b (p.do_get (well_known a.issuer_url) []) endpoint)

-- Once the endpoint for user info is found it is kept: each later call returns it and changes
-- nothing, whatever the provider answers then.
pub user_info_endpoint_stable :
    (p q : Provider) (a b : AuthService) (endpoint : Text)
    → user_info_endpoint p a ≡ (b, ok endpoint)
    → user_info_endpoint q b ≡ (b, ok endpoint)
unfolding user_info_endpoint
user_info_endpoint_stable p q a b endpoint h =
    ground (arith, user_info_endpoint-kept p a b endpoint h)

-- A request that the provider accepts, and the user info of its answer.
abbrev pub Accepts : Provider → Result Text HttpResponse → Option Fields → Type 0
Accepts p answer info =
    (resp : HttpResponse) × ((answer ≡ ok resp)
      × (resp.status_code < 400)
      × (p.decode_user_info resp.body ≡ ok info))

user_info_of-Accepts :
    (p : Provider) (answer : Result Text HttpResponse) (info : Option Fields)
    → user_info_of p answer ≡ ok info
    → Accepts p answer info
unfolding user_info_of
user_info_of-Accepts p (err e) info h = absurd (ground arith)
user_info_of-Accepts p (ok resp) info h = (resp, (refl, ground arith, ground arith))

pub ask_endpoint-Accepts :
    (p : Provider) (token : Text) (found : Result OidcError Text) (info : Option Fields)
    → ask_endpoint p token found ≡ ok info
    → (endpoint : Text) × Accepts p (p.do_get endpoint (codes "Bearer " ++ token)) info
unfolding ask_endpoint
ask_endpoint-Accepts p token (err e) info h = absurd (ground arith)
ask_endpoint-Accepts p token (ok endpoint) info h =
    (endpoint, user_info_of-Accepts p (p.do_get endpoint (codes "Bearer " ++ token)) info h)

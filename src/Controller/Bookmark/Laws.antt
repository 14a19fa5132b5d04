-- ===== src/Controller/Bookmark/Laws.antt =====
-- What the bookmark reconciler writes.
use cupboard.Prelude.{
  ℕ, ◌<◌, true, false, Option, none, some, Result, ok, err, ◌≡◌, ◌⊎◌, inl, inr, refl, arith,
  ◌==◌ as nat_eq, Bool-cases, Option-cases,
}
use cupboard.Text.{Text, codes}
use cupboard.Kube.Bookmark.{Bookmark}
use cupboard.Kube.Reader.{Reader}
use cupboard.Controller.Bookmark.{
  Http, Clock, Check, check_url, head_answered, get_check, answered, status_check, failed,
  resolve_and_check_url, raw_url, needs_url_check, with_check, updated_bookmark,
}

-- A request with the method gets a status below 400.
abbrev pub Answers : Http → Text → Text → Type 0
Answers http method url = (status : ℕ) × ((http.send method url ≡ ok status) × (status < 400))

status_check-reachable :
    (http : Http) (url : Text) (status : ℕ)
    → (status_check http url status).reachable ≡ true
    → status < 400
unfolding status_check
status_check-reachable http url status h = ground arith

-- One of the two requests gets a status below 400.
abbrev pub IsReachable : Http → Text → Type 0
IsReachable http url = Answers http (codes "HEAD") url ⊎ Answers http (codes "GET") url

answered-reachable :
    (http : Http) (method url : Text) (answer : Result Text ℕ)
    → http.send method url ≡ answer
    → (answered http url answer).reachable ≡ true
    → Answers http method url
unfolding answered failed
answered-reachable http method url (err e) p h = ground arith
answered-reachable http method url (ok status) p h =
    (status, (p, status_check-reachable http url status h))

get_check-reachable :
    (http : Http) (url : Text)
    → (get_check http url).reachable ≡ true
    → Answers http (codes "GET") url
unfolding get_check failed
get_check-reachable http url h = elim (Option-cases (http.refuses (codes "GET") url)) [
  | inr (e, p) ↦ absurd (ground arith)
  | inl p ↦
      answered-reachable http (codes "GET") url (http.send (codes "GET") url) refl (ground arith)
]

head_answered-reachable :
    (http : Http) (url : Text) (answer : Result Text ℕ)
    → http.send (codes "HEAD") url ≡ answer
    → (head_answered http url answer).reachable ≡ true
    → IsReachable http url
unfolding head_answered
head_answered-reachable http url (err e) p h = inr (get_check-reachable http url h)
head_answered-reachable http url (ok status) p h = elim (Bool-cases (nat_eq status 405)) [
  | inl e ↦ inr (get_check-reachable http url (ground arith))
  | inr e ↦ inl (status, (p, status_check-reachable http url status (ground arith)))
]

-- A URL that is found reachable answers one of the two requests.
check_url-reachable :
    (http : Http) (url : Text) → (check_url http url).reachable ≡ true → IsReachable http url
unfolding check_url failed
check_url-reachable http url h = elim (Option-cases (http.refuses (codes "HEAD") url)) [
  | inr (e, p) ↦ absurd (ground arith)
  | inl p ↦ head_answered-reachable http url (http.send (codes "HEAD") url) refl (ground arith)
]

-- A check that succeeds asked for the URL of the bookmark.
check-asked :
    (c : Reader) (http : Http) (b : Bookmark)
    → (resolve_and_check_url c http b).reachable ≡ true
    → (url : Text) × ((raw_url http c b ≡ ok (some url)) × IsReachable http url)
unfolding resolve_and_check_url failed
check-asked c http b h = go (raw_url http c b) refl h
  where
    go :
        (r : Result Text (Option Text))
        → raw_url http c b ≡ r
        → (elim r as (λ _. Check) [
          | err e ↦ failed (codes "") e
          | ok none ↦ record { url = codes ""; reachable = false; error = none }
          | ok (some url) ↦ check_url http url
        ]).reachable
          ≡ true
        → (url : Text) × ((raw_url http c b ≡ ok (some url)) × IsReachable http url)
    go (err e) p k = ground arith
    go (ok none) p k = ground arith
    go (ok (some url)) p k = (url, (p, check_url-reachable http url k))

-- A bookmark that is marked reachable by a check that was due has a URL that answered.
pub updated_bookmark-IsReachable :
    (c : Reader) (http : Http) (clock : Clock) (b : Bookmark)
    → needs_url_check clock b ≡ true
    → (updated_bookmark c http clock b).status.url_reachable ≡ some true
    → (url : Text) × ((raw_url http c b ≡ ok (some url)) × IsReachable http url)
unfolding updated_bookmark with_check
updated_bookmark-IsReachable c http clock b d h = check-asked c http b (ground arith)

-- Where no check is due, the reconciler writes what it read, with a new time of synchronisation.
pub updated_bookmark-not_due :
    (c : Reader) (http : Http) (clock : Clock) (b : Bookmark)
    → needs_url_check clock b ≡ false
    → updated_bookmark c http clock b
      ≡ record b { status = record b.status { last_synced_at = some clock.synced } }
unfolding updated_bookmark
updated_bookmark-not_due c http clock b d = rw d refl

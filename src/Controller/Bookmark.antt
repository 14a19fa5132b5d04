-- ===== src/Controller/Bookmark.antt =====
-- internal/controller/dashboard/bookmark_controller.go
pub mod Laws
use cupboard.Prelude.{
  ℕ, ◌-◌, Bool, true, false, ◌||◌, Option, none, some, Result, ok, err, leb, if◌then◌else◌,
  ◌==◌ as nat_eq, ◌++◌,
}
use cupboard.Text.{Text, codes}
use cupboard.Text.Trim.{is_blank}
use cupboard.Kube.{KubeError, Ingress}
use cupboard.Kube.Bookmark.{Bookmark, UrlSource, LocalObjectReference}
use cupboard.Kube.Reader.{Reader}
use cupboard.Webhook.Host.{first_host, https_url}
use cupboard.Controller.{Outcome}

-- `urlCheckInterval`
abbrev pub url_check_interval : ℕ
url_check_interval = 300000000000

-- The HTTP client: whether `NewRequestWithContext` refuses a method and a URL, and the status that
-- `Do` gets; `http.StatusText`, and the verb %q of package `fmt`.
pub record Http : Type 0 where
  pub refuses : Text → Text → Option Text
  pub send : Text → Text → Result Text ℕ
  pub status_text : ℕ → Text
  pub quote : Text → Text

-- The readings of the clock in `Reconcile`, in their order.
pub record Clock : Type 0 where
  pub since : ℕ
  pub checked : ℕ
  pub synced : ℕ

-- The URL, whether it is reachable, and the error, that `resolveAndCheckURL` returns.
pub record Check : Type 0 where
  pub url : Text
  pub reachable : Bool
  pub error : Option Text

ingress_source : Http → Text → Result KubeError Ingress → Result Text Text
ingress_source http name (err e) =
    err (codes "ingressRef " ++ http.quote name ++ codes ": " ++ e.message)
ingress_source http name (ok ingress) = elim (first_host ingress.hosts) [
  | none ↦ err (codes "ingressRef " ++ http.quote name ++ codes " has no host rules")
  | some host ↦ ok (https_url host)
]

-- `resolveURLFromSource`
unfoldable pub controller_url_from_source : Http → Reader → Text → UrlSource → Result Text Text
unfolding ingress_source
controller_url_from_source http c namespace source = elim source.ingress_ref [
  | none ↦ ok (codes "")
  | some ref ↦ ingress_source http ref.name (c.get_ingress namespace ref.name)
]

-- The URL to check; `none` where `resolveAndCheckURL` returns before it asks.
unfoldable pub raw_url : Http → Reader → Bookmark → Result Text (Option Text)
raw_url http c b =
    if is_blank b.spec.url
    then (elim b.spec.url_from [
      | none ↦ ok none
      | some source ↦ elim (controller_url_from_source http c b.meta.namespace source) [
        | err e ↦ err e
        | ok url ↦ ok (some url)
      ]
    ])
    else ok (some b.spec.url)

-- The end of `resolveAndCheckURL`, on the status.
status_check : Http → Text → ℕ → Check
status_check http url status =
    if leb 400 status
    then record {
      url = url;
      reachable = false;
      error = some (codes "URL returned HTTP " ++ http.status_text status);
    }
    else record { url = url; reachable = true; error = none }

failed : Text → Text → Check
failed url e = record { url = url; reachable = false; error = some e }

answered : Http → Text → Result Text ℕ → Check
unfolding status_check failed
answered http url (err e) = failed url e
answered http url (ok status) = status_check http url status

-- The second request, a GET.
get_check : Http → Text → Check
unfolding answered failed
get_check http url = elim (http.refuses (codes "GET") url) [
  | some e ↦ failed url e
  | none ↦ answered http url (http.send (codes "GET") url)
]

head_answered : Http → Text → Result Text ℕ → Check
unfolding get_check status_check
head_answered http url (err e) = get_check http url
head_answered http url (ok status) =
    if nat_eq status 405 then get_check http url else status_check http url status

-- The first request, a HEAD, with its fallback.
unfoldable pub check_url : Http → Text → Check
unfolding head_answered failed
check_url http url = elim (http.refuses (codes "HEAD") url) [
  | some e ↦ failed url e
  | none ↦ head_answered http url (http.send (codes "HEAD") url)
]

-- `resolveAndCheckURL`
unfoldable pub resolve_and_check_url : Reader → Http → Bookmark → Check
unfolding raw_url failed
resolve_and_check_url c http b = elim (raw_url http c b) [
  | err e ↦ failed (codes "") e
  | ok none ↦ record { url = codes ""; reachable = false; error = none }
  | ok (some url) ↦ check_url http url
]

-- `needsURLCheck`
unfoldable pub needs_url_check : Clock → Bookmark → Bool
needs_url_check clock b = elim b.status.last_url_check_at [
  | none ↦ true
  | some t ↦ leb url_check_interval (clock.since - t)
]

-- The status after a check.
unfoldable pub with_check : Clock → Check → Bookmark → Bookmark
with_check clock check b = record b {
  status = record b.status {
    last_url_check_at = some clock.checked;
    url_reachable = elim check.error [ none ↦ some check.reachable | some e ↦ some false ];
    url_check_error = elim check.error [ none ↦ codes "" | some e ↦ e ];
  };
}

-- The bookmark that the reconciler writes.
unfoldable pub updated_bookmark : Reader → Http → Clock → Bookmark → Bookmark
updated_bookmark c http clock b =
    let checked =
      if needs_url_check clock b then with_check clock (resolve_and_check_url c http b) b else b in
    record checked { status = record checked.status { last_synced_at = some clock.synced } }

-- `Reconcile`, on what `Get` returns and what `Status().Update` returns.
unfoldable pub reconcile_bookmark :
    Reader
    → Http
    → Clock
    → Result KubeError Bookmark
    → (Bookmark → Option KubeError)
    → Outcome Bookmark
reconcile_bookmark c http clock (err e) update = record {
  requeue_after = 0;
  error = if e.not_found then none else some e;
  written = none;
}
reconcile_bookmark c http clock (ok b) update =
    let b_new = updated_bookmark c http clock b in
    elim (update b_new) [
      | some e ↦ record { requeue_after = 0; error = some e; written = some b_new }
      | none ↦ record { requeue_after = url_check_interval; error = none; written = some b_new }
    ]

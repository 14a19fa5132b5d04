-- ===== src/Webhook/Validator/Laws.antt =====
-- Which bookmarks are admitted.
use cupboard.Prelude.{[], true, false, none, Result, ok, err, ◌≡◌, ◌≢◌, ◌↔◌, ◌⊎◌, arith}
use cupboard.Text.{Text, codes, eq_iff}
use cupboard.Text.Trim.{is_blank}
use cupboard.Kube.Bookmark.{Bookmark, target_self, target_blank, target_parent, target_top}
use cupboard.Kube.Reader.{Reader}
use cupboard.Controller.Bookmark.{Http, raw_url}
use cupboard.Webhook.Validator.{
  is_set, or_else_check, ParseRequestUri, scheme_check, validate_http_url, validate_target,
  validate_bookmark,
}

-- The URL parses, with one of the two schemes.
abbrev pub IsHttpUrl : ParseRequestUri → Text → Type 0
IsHttpUrl parse raw = (parse raw ≡ ok (codes "http")) ⊎ (parse raw ≡ ok (codes "https"))

abbrev pub IsTarget : Text → Type 0
IsTarget t =
    (t ≡ codes "")
    ⊎ ((t ≡ target_self) ⊎ ((t ≡ target_blank) ⊎ ((t ≡ target_parent) ⊎ (t ≡ target_top))))

-- Exactly one of the URL and its source is set, a URL is one of HTTP, and the target is a known one.
abbrev pub IsAdmissible : ParseRequestUri → Bookmark → Type 0
IsAdmissible parse b =
    (((is_blank b.spec.url ≡ false) × ((b.spec.url_from ≡ none) × IsHttpUrl parse b.spec.url))
      ⊎ ((is_blank b.spec.url ≡ true) × (b.spec.url_from ≢ none)))
    × IsTarget b.spec.target

validate_target_iff : (t : Text) → (validate_target t ≡ none) ↔ IsTarget t
unfolding validate_target
validate_target_iff t = ground (
  arith,
  eq_iff t [],
  eq_iff t target_self,
  eq_iff t target_blank,
  eq_iff t target_parent,
  eq_iff t target_top,
)

scheme_check_iff :
    (answer : Result Text Text)
    → (scheme_check answer ≡ none) ↔ ((answer ≡ ok (codes "http")) ⊎ (answer ≡ ok (codes "https")))
unfolding scheme_check
scheme_check_iff (err e) = ground arith
scheme_check_iff (ok scheme) =
    ground (arith, eq_iff scheme (codes "http"), eq_iff scheme (codes "https"))

validate_http_url_iff :
    (parse : ParseRequestUri) (raw : Text)
    → (validate_http_url parse raw ≡ none) ↔ IsHttpUrl parse raw
unfolding validate_http_url
validate_http_url_iff parse raw = scheme_check_iff (parse raw)

-- A bookmark is admitted exactly if it is admissible.
pub validate_bookmark_iff :
    (parse : ParseRequestUri) (b : Bookmark)
    → (validate_bookmark parse b ≡ none) ↔ IsAdmissible parse b
unfolding validate_bookmark or_else_check is_set
validate_bookmark_iff parse b =
    ground (arith, validate_target_iff b.spec.target, validate_http_url_iff parse b.spec.url)

-- The reconciler has a URL to ask for, or an error, for every bookmark that is admitted.
validate_bookmark-raw_url :
    (parse : ParseRequestUri) (http : Http) (c : Reader) (b : Bookmark)
    → validate_bookmark parse b ≡ none
    → raw_url http c b ≢ ok none
unfolding validate_bookmark raw_url or_else_check is_set
validate_bookmark-raw_url parse http c b h e = ground arith

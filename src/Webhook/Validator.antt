-- ===== src/Webhook/Validator.antt =====
-- internal/webhook/dashboard/v1alpha1/bookmark_webhook.go, and the validators of
-- bookmarkgroup_webhook.go. `url.ParseRequestURI` is a parameter.
pub mod Laws
use cupboard.Prelude.{
  Bool, true, false, not, ◌&&◌, ◌||◌, Option, none, some, Result, ok, err, if◌then◌else◌,
}
use cupboard.Text.{Text, codes, ◌==◌}
use cupboard.Text.Trim.{is_blank}
use cupboard.Kube.Bookmark.{
  Bookmark, BookmarkGroup, target_self, target_blank, target_parent, target_top,
}

-- `url.ParseRequestURI`: an error, or the scheme of the URL.
abbrev pub ParseRequestUri : Type 0
ParseRequestUri = Text → Result Text Text

-- The message of the error that `bookmarkValidationError` makes.
pub data ValidationError : Type 0 where
  mutually_exclusive one_must_be_set scheme_not_http : ValidationError
  invalid_url : Text → ValidationError
  unsupported_target : Text → ValidationError

scheme_check : Result Text Text → Option ValidationError
scheme_check (err e) = some (invalid_url e)
scheme_check (ok scheme) =
    if not (scheme == codes "http") && not (scheme == codes "https")
    then some scheme_not_http
    else none

-- `validateHTTPURL`
unfoldable pub validate_http_url : ParseRequestUri → Text → Option ValidationError
unfolding scheme_check
validate_http_url parse raw = scheme_check (parse raw)

-- `validateTarget`
unfoldable pub validate_target : Text → Option ValidationError
validate_target target =
    if target == codes ""
      || target == target_self
      || target == target_blank
      || target == target_parent
      || target == target_top
    then none
    else some (unsupported_target target)

is_set {ℓ} : {A : Type ℓ} → Option A → Bool
is_set none = false
is_set (some a) = true

or_else_check : Option ValidationError → Option ValidationError → Option ValidationError
or_else_check (some e) next = some e
or_else_check none next = next

-- `validateBookmark`; `none` is nil.
unfoldable pub validate_bookmark : ParseRequestUri → Bookmark → Option ValidationError
unfolding is_set or_else_check
validate_bookmark parse b =
    let has_url = not (is_blank b.spec.url) in
    let has_url_from = is_set b.spec.url_from in
    if has_url && has_url_from
    then some mutually_exclusive
    else if not has_url && not has_url_from
    then some one_must_be_set
    else or_else_check (if has_url then validate_http_url parse b.spec.url else none)
        (validate_target b.spec.target)

-- `ValidateCreate`
unfoldable pub validate_create : ParseRequestUri → Bookmark → Option ValidationError
validate_create parse b = validate_bookmark parse b

-- `ValidateUpdate`, on the new object
unfoldable pub validate_update : ParseRequestUri → Bookmark → Bookmark → Option ValidationError
validate_update parse old b = validate_bookmark parse b

-- `ValidateDelete`
unfoldable pub validate_delete : Bookmark → Option ValidationError
validate_delete b = none

-- `validateBookmarkGroup`
unfoldable pub validate_bookmark_group : BookmarkGroup → Option ValidationError
validate_bookmark_group g = none

-- ===== src/Web/Templates/Functions.antt =====
-- The functions that the templates call. The parser of package `url` is a parameter.
use cupboard.Prelude.{
  ℕ, Bool, true, false, not, ◌&&◌, ◌||◌, [], ◌∷◌, ◌++◌, Option, none, some, leb, if◌then◌else◌,
  ◌==◌ as nat_eq,
}
use cupboard.Text.{Text, codes, ◌==◌}
use cupboard.Text.Trim.{trim_space}
use cupboard.Text.Search.{has_prefix, trim_prefix}
use cupboard.Text.Split.{cut}
use cupboard.Text.Case.{Unicode, to_lower}

-- "isFontAwesomeKey"
unfoldable pub is_font_awesome_key : Text → Bool
is_font_awesome_key value = has_prefix (trim_space value) (codes "fa-")

module _ ⦃u : Unicode⦄ where
  -- "lower"
  unfoldable pub lower : Text → Text
  lower value = to_lower (trim_space value)

-- `Host` and `Hostname()` of a parsed URL.
pub record UrlHost : Type 0 where
  pub host : Text
  pub hostname : Text

shown_host : Text → Option UrlHost → Text
shown_host raw none = raw
shown_host raw (some url) =
    let host = trim_prefix url.hostname (codes "www.") in
    if url.host == codes "" then raw else if host == codes "" then url.host else host

-- "urlHost"
unfoldable pub url_host : (Text → Option UrlHost) → Text → Text
unfolding shown_host
url_host parse value =
    let raw = trim_space value in if raw == codes "" then codes "" else shown_host raw (parse raw)

-- The first character, in upper case; U+FFFD stands for what is no UTF-8.
first_upper : (ℕ → Text) → Text → Text
first_upper to_upper [] = codes "?"
first_upper to_upper (c ∷ s) = if nat_eq c 0xfffd then codes "?" else to_upper c

-- "initial"
unfoldable pub initial : (ℕ → Text) → Text → Text
unfolding first_upper
initial to_upper value = first_upper to_upper (trim_space value)

unfoldable pub is_icon_char : ℕ → Bool
is_icon_char c = (leb b'a' c && leb c b'z') || (leb b'0' c && leb c b'9') || nat_eq c b'-'

unfoldable pub all_icon_chars : Text → Bool
all_icon_chars [] = true
all_icon_chars (c ∷ s) = is_icon_char c && all_icon_chars s

-- `iconNamePattern`
unfoldable pub is_icon_name : Text → Bool
unfolding is_icon_char all_icon_chars
is_icon_name [] = false
is_icon_name (c ∷ s) = all_icon_chars (c ∷ s)

unfoldable pub icon_directory : Text → Option Text
icon_directory prefix =
    if prefix == codes "lucide"
    then some (codes "/static/icons/lucide/")
    else if prefix == codes "tabler"
    then some (codes "/static/icons/tabler/")
    else if prefix == codes "hero"
    then some (codes "/static/icons/heroicons/24/outline/")
    else none

unfoldable pub icon_in : Option Text → Text → Text
icon_in none name = codes ""
icon_in (some directory) name = directory ++ name ++ codes ".svg"

unfoldable pub icon_of : Option (Text × Text) → Text
unfolding icon_in icon_directory
icon_of none = codes ""
icon_of (some (prefix, name)) =
    if not (is_icon_name name) then codes "" else icon_in (icon_directory prefix) name

-- "iconAssetURL"
unfoldable pub icon_asset_url : Text → Text
unfolding icon_of
icon_asset_url value = icon_of (cut (trim_space value) b':')

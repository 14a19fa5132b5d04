-- ===== src/Command/Flags.antt =====
-- Flags and configuration: `resolveStringFlag`, `resolveBoolFlag`, `splitCommaFlag`, `firstNonEmpty`
-- and `setupCacheNamespaces`.
use cupboard.Prelude.{
  Bool, true, false, List, [], ◌∷◌, Option, none, some, Result, map, if◌then◌else◌,
}
use cupboard.Text.{Text, codes, ◌==◌}
use cupboard.Text.Trim.{trim_space, is_blank}
use cupboard.Text.Split.{split}
use cupboard.Dashboard.Types.{LinkGroup, StaticLink}

-- The flags that stand on the command line, as package `flag` parses them.
pub record CommandLine : Type 0 where
  pub string_flag : Text → Option Text
  pub bool_flag : Text → Option Bool

-- The value of a variable after `flag.Parse()`.
unfoldable pub or_default {ℓ} : {A : Type ℓ} → Option A → A → A
or_default none default = default
or_default (some value) default = value

unfoldable pub is_set {ℓ} : {A : Type ℓ} → Option A → Bool
is_set none = false
is_set (some value) = true

-- A `viper.Viper`: the configuration file and the environment.
pub record Viper : Type 0 where
  pub is_set : Text → Bool
  pub get_string : Text → Text
  pub get_bool : Text → Bool
  pub get_string_slice : Text → List Text
  -- `UnmarshalKey`
  pub link_groups : Text → Result Text (List LinkGroup)
  pub static_links : Text → Result Text (List StaticLink)

-- The calls of `BindEnv`: a key, and the variable of the environment for it.
abbrev pub bound_keys : List (Text × Text)
bound_keys =
    (codes "watchNamespace", codes "WATCH_NAMESPACE")
    ∷ (codes "localTesting", codes "LOCAL_TESTING")
    ∷ (codes "enableWebhooks", codes "ENABLE_WEBHOOKS")
    ∷ (codes "auth.enabled", codes "ENABLE_AUTH")
    ∷ (codes "auth.cookieSecret", codes "CUPBOARD_COOKIE_SECRET")
    ∷ (codes "auth.issuerURL", codes "OIDC_ISSUER_URL")
    ∷ (codes "auth.skipProbe", codes "SKIP_OIDC_PROBE")
    ∷ (codes "auth.clientID", codes "OIDC_CLIENT_ID")
    ∷ (codes "auth.redirectPath", codes "OIDC_REDIRECT_PATH")
    ∷ (codes "auth.scopes", codes "OIDC_SCOPES")
    ∷ (codes "auth.userInfoEndpoint", codes "OIDC_USERINFO_ENDPOINT")
    ∷ (codes "forecastle.instance", codes "CUPBOARD_FORECASTLE_INSTANCE")
    ∷ (codes "page.title", codes "CUPBOARD_PAGE_TITLE")
    ∷ (codes "page.faviconURL", codes "CUPBOARD_FAVICON_URL")
    ∷ (codes "page.templateSet", codes "CUPBOARD_TEMPLATE_SET")
    ∷ (codes "page.contentLayout", codes "CUPBOARD_CONTENT_LAYOUT")
    ∷ (codes "sync.bindAddress", codes "CUPBOARD_SYNC_BIND_ADDRESS")
    ∷ (codes "sync.tls.ca", codes "CUPBOARD_SYNC_TLS_CA")
    ∷ (codes "sync.tls.cert", codes "CUPBOARD_SYNC_TLS_CERT")
    ∷ (codes "sync.tls.key", codes "CUPBOARD_SYNC_TLS_KEY")
    ∷ (codes "sync.tls.authCert", codes "CUPBOARD_SYNC_TLS_AUTH_CERT")
    ∷ (codes "sync.tls.authKey", codes "CUPBOARD_SYNC_TLS_AUTH_KEY")
    ∷ (codes "fleet.trustStore", codes "CUPBOARD_FLEET_TRUST_STORE")
    ∷ (codes "fleet.kubeconfig", codes "CUPBOARD_FLEET_KUBECONFIG")
    ∷ (codes "fleet.clusters", codes "CUPBOARD_FLEET_CLUSTERS")
    ∷ []

-- `explicitFlags`
unfoldable pub explicit_flags : CommandLine → Text → Bool
unfolding is_set
explicit_flags line name =
    if is_set (line.string_flag name) then true else is_set (line.bool_flag name)

-- `resolveStringFlag`
unfoldable pub resolve_string_flag : Viper → (Text → Bool) → Text → Text → Text → Text
resolve_string_flag config set_flags flag_name config_key current =
    if set_flags flag_name
    then current
    else if config.is_set config_key
    then config.get_string config_key
    else current

-- `resolveBoolFlag`
unfoldable pub resolve_bool_flag : Viper → (Text → Bool) → Text → Text → Bool → Bool
resolve_bool_flag config set_flags flag_name config_key current =
    if set_flags flag_name
    then current
    else if config.is_set config_key
    then config.get_bool config_key
    else current

-- `firstNonEmpty`
unfoldable pub first_non_empty : List Text → Text
first_non_empty [] = codes ""
first_non_empty (value ∷ values) =
    let rest = first_non_empty values in if is_blank value then rest else value

unfoldable pub not_blank : List Text → List Text
not_blank [] = []
not_blank (part ∷ parts) =
    let rest = not_blank parts in
    let v = trim_space part in if v == codes "" then rest else v ∷ rest

-- `splitCommaFlag`
unfoldable pub split_comma_flag : Text → List Text
unfolding not_blank
split_comma_flag s = not_blank (split s b',')

-- `setupCacheNamespaces`: the keys of `DefaultNamespaces`, `none` for all namespaces.
unfoldable pub setup_cache_namespaces : Text → Option (List Text)
setup_cache_namespaces namespaces =
    if namespaces == codes "" then none else some (map trim_space (split namespaces b','))

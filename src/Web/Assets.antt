-- ===== src/Web/Assets.antt =====
-- `injectAuthConfig` and `readRootAsset`.
use cupboard.Prelude.{
  not, ◌||◌, ◌++◌, Result, ok, err, if◌then◌else◌, none, some, Option-cases, inl, inr, ◌≡◌, refl,
  arith, ◌∙◌, subst, append_assoc, true, false, ℕ, sym,
}
use cupboard.Prelude.Lists.{take, drop, length}
use cupboard.Text.{Text, codes, ◌==◌}
use cupboard.Text.Search.{index_sound, index, contains}
use cupboard.Web.Templates.{ReadResult, contents, absent, broken}

-- `bytes.Replace(s, old, new, 1)` with a text that is not empty
unfoldable pub replace_first : Text → Text → Text → Text
replace_first s old new = elim (index s old) [
  | none ↦ s
  | some i ↦ take i s ++ (new ++ drop (length old) (drop i s))
]

abbrev pub head_close : Text
head_close = codes "</head>"

abbrev pub injection : Text → Text
injection config_json =
    codes "\n    <script>window.config = " ++ (config_json ++ codes ";</script>")

-- `injectAuthConfig`, on the JSON of the configuration, which `json.Marshal` makes without an error.
unfoldable pub inject_auth_config : Text → Text → Result Text Text
inject_auth_config index config_json =
    if not (contains index head_close)
    then err (codes "index.html is missing </head>")
    else ok (replace_first index head_close (injection config_json ++ head_close))

-- `readRootAsset`, which nothing calls.
unfoldable pub read_root_asset : (Text → ReadResult) → (Text → ReadResult) → Text → ReadResult
read_root_asset filesystem embedded name =
    if contains name (codes "/")
      || contains name (codes "\\")
      || name == codes "."
      || name == codes ".."
    then broken (codes "invalid argument")
    else elim (filesystem name) [
      | contents text ↦ contents text
      | absent ↦ embedded name
      | broken e ↦ broken e
    ]

replace_first-found :
    (s old new : Text) (i : ℕ)
    → index s old ≡ some i
    → (before : Text) × ((after : Text) × ((s ≡ before ++ (old ++ after))
          × (replace_first s old new ≡ before ++ (new ++ after))))
unfolding replace_first
replace_first-found s old new i e = (
  take i s,
  (
    drop (length old) (drop i s),
    (sym (index_sound s old i e) ∙ append_assoc (take i s) old _, rw (replace_first, e) refl),
  ),
)

-- A document with the script right before a "</head>", and the same otherwise.
abbrev pub IsInjected : Text → Text → Text → Type 0
IsInjected doc config_json out =
    (before : Text) × ((after : Text) × ((doc ≡ before ++ (head_close ++ after))
        × (out ≡ before ++ (injection config_json ++ head_close ++ after))))

-- A document into which the configuration is injected gets the script right before a "</head>", and
-- is the same otherwise.
pub inject_auth_config-injected :
    (doc config_json out : Text)
    → inject_auth_config doc config_json ≡ ok out
    → (before : Text) × ((after : Text) × ((doc ≡ before ++ (head_close ++ after))
          × (out ≡ before ++ (injection config_json ++ head_close ++ after))))
unfolding inject_auth_config contains
inject_auth_config-injected doc json out h = elim (Option-cases (index doc head_close)) [
  | inl e ↦
      let none_there : contains doc head_close ≡ false = rw (contains, e) refl in
      absurd (ground (arith, none_there))
  | inr (i, e) ↦
      let there : contains doc head_close ≡ true = rw (contains, e) refl in
      let same : replace_first doc head_close (injection json ++ head_close) ≡ out =
        ground (arith, there) in
      subst (λ t. IsInjected doc json t) same
        (replace_first-found doc head_close (injection json ++ head_close) i e)
]

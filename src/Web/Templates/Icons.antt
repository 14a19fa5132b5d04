-- ===== src/Web/Templates/Icons.antt =====
-- The assets that icons are shown from.
use cupboard.Prelude.{
  ℕ, true, ◌≤◌, [], ◌∷◌, ◌++◌, Option, none, some, ◌≡◌, ◌≢◌, ◌⊎◌, ◌↔◌, inl, inr, refl, sym, arith,
  Bool-cases,
}
use cupboard.Prelude.Lists.{All}
use cupboard.Text.{Text, codes, eq_iff}
use cupboard.Text.Trim.{trim_space}
use cupboard.Text.Split.{cut, cut_sound, cut-append, Lacks}
use cupboard.Web.Templates.Functions.{
  is_icon_char, all_icon_chars, is_icon_name, icon_directory, icon_in, icon_of, icon_asset_url,
}

-- A small letter, a digit, or a dash.
abbrev pub IsIconChar : ℕ → Type 0
IsIconChar c = ((b'a' ≤ c) × (c ≤ b'z')) ⊎ (((b'0' ≤ c) × (c ≤ b'9')) ⊎ (c ≡ b'-'))

-- The three sets of icons, and the directory of each.
abbrev pub IsDirectory : Text → Text → Type 0
IsDirectory prefix directory =
    ((prefix ≡ codes "lucide") × (directory ≡ codes "/static/icons/lucide/"))
    ⊎ (((prefix ≡ codes "tabler") × (directory ≡ codes "/static/icons/tabler/"))
        ⊎ ((prefix ≡ codes "hero") × (directory ≡ codes "/static/icons/heroicons/24/outline/")))

-- An icon names a set and, behind the first colon, a name of icon characters; the asset is the file
-- of that name in the directory of the set.
abbrev pub IsIconAsset : Text → Text → Type 0
IsIconAsset icon url =
    (prefix : Text) × ((name : Text) × ((directory : Text) × ((icon ≡ prefix ++ b':' ∷ name)
          × IsDirectory prefix directory
          × (name ≢ [])
          × All IsIconChar name
          × (url ≡ directory ++ name ++ codes ".svg"))))

icon_chars_iff : (s : Text) → (all_icon_chars s ≡ true) ↔ All IsIconChar s
unfolding all_icon_chars is_icon_char
icon_chars_iff [] = (λ h. tt, λ h. refl)
icon_chars_iff (c ∷ s) = ground (arith, icon_chars_iff s)

icon_name_iff : (s : Text) → (is_icon_name s ≡ true) ↔ ((s ≢ []) × All IsIconChar s)
unfolding is_icon_name
icon_name_iff [] = (λ h. absurd (ground arith), λ h. absurd (h.0 refl))
icon_name_iff (c ∷ s) = (
  λ h. (λ e. absurd (ground arith), (icon_chars_iff (c ∷ s)).0 h),
  λ h. (icon_chars_iff (c ∷ s)).1 h.1,
)

icon_directory_iff :
    (prefix directory : Text)
    → (icon_directory prefix ≡ some directory) ↔ IsDirectory prefix directory
unfolding icon_directory
icon_directory_iff prefix directory = ground (
  arith,
  eq_iff prefix (codes "lucide"),
  eq_iff prefix (codes "tabler"),
  eq_iff prefix (codes "hero"),
)

set-Lacks : (prefix directory : Text) → IsDirectory prefix directory → Lacks b':' prefix
set-Lacks prefix directory (inl (e, _)) = rw e (omega arith)
set-Lacks prefix directory (inr (inl (e, _))) = rw e (omega arith)
set-Lacks prefix directory (inr (inr (e, _))) = rw e (omega arith)

-- The parts of an icon that has an asset.
abbrev AreParts : Text → Text → Text → Type 0
AreParts prefix name url =
    (directory : Text) × (IsDirectory prefix directory
      × (name ≢ [])
      × All IsIconChar name
      × (url ≡ directory ++ name ++ codes ".svg"))

icon_in-AreParts :
    (prefix name url : Text) (directory : Option Text)
    → icon_directory prefix ≡ directory
    → is_icon_name name ≡ true
    → url ≢ []
    → icon_in directory name ≡ url
    → AreParts prefix name url
unfolding icon_in
icon_in-AreParts prefix name url none d n u h = absurd (u (sym h))
icon_in-AreParts prefix name url (some directory) d n u h =
    let k : (name ≢ []) × All IsIconChar name = (icon_name_iff name).0 n in
    (directory, ((icon_directory_iff prefix directory).0 d, k.0, k.1, sym h))

icon_of_sound :
    (icon url : Text) (parts : Option (Text × Text))
    → cut icon b':' ≡ parts
    → url ≢ []
    → icon_of parts ≡ url
    → IsIconAsset icon url
unfolding icon_of
icon_of_sound icon url none c u h = absurd (u (sym h))
icon_of_sound icon url (some (prefix, name)) c u h = elim (Bool-cases (is_icon_name name)) [
  | inr e ↦ absurd (u (sym (rw e at h)))
  | inl e ↦
      let (directory, (d, n, chars, l)) : AreParts prefix name url =
        icon_in-AreParts prefix name url (icon_directory prefix) refl e u (rw e at h) in
      (prefix, (name, (directory, ((cut_sound icon b':' prefix name c).0, d, n, chars, l))))
]

icon_of_complete : (icon url : Text) → IsIconAsset icon url → icon_of (cut icon b':') ≡ url
unfolding icon_of icon_in
icon_of_complete icon url (prefix, (name, (directory, (e, d, n, chars, l)))) =
    rw
      (
        e,
        cut-append prefix name b':' (set-Lacks prefix directory d),
        (icon_name_iff name).1 (n, chars),
        (icon_directory_iff prefix directory).1 d,
      )
      (sym l)

-- A URL that is not empty is the asset of an icon exactly if the icon, trimmed, is the name of one of
-- the three sets, a colon, and a name of small letters, digits and dashes, and the URL is the file of
-- that name, with the ending ".svg", in the directory of the set.
pub icon_asset_url_iff :
    (value url : Text)
    → url ≢ []
    → (icon_asset_url value ≡ url) ↔ IsIconAsset (trim_space value) url
unfolding icon_asset_url
icon_asset_url_iff value url u = (
  icon_of_sound (trim_space value) url (cut (trim_space value) b':') refl u,
  icon_of_complete (trim_space value) url,
)

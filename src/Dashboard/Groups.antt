-- ===== src/Dashboard/Groups.antt =====
-- `normalizedGroups` of web/auth.go, and the access filters of web/dashboard.go.
pub mod Access
pub mod Normalized
use cupboard.Prelude.{Bool, true, false, List, [], ◌∷◌, ◌++◌, Option, none, some, if◌then◌else◌}
use cupboard.Prelude.Lists.{keep}
use cupboard.Text.{Text, codes, ◌==◌}
use cupboard.Text.Trim.{trim_space}
use cupboard.Text.Split.{split}
use cupboard.Any.{Any, string, array, elements, as_string}
use cupboard.Dashboard.Types.{DashboardLink, DashboardInfoTile}

-- Membership in a set of texts: a `map[string]struct{}`, by its keys.
unfoldable pub member : Text → List Text → Bool
member s [] = false
member s (t ∷ ts) = if t == s then true else member s ts

-- The dynamic types that `normalizedGroups` distinguishes.
pub data RawGroups : Type 0 where
  strings : List Text → RawGroups
  values : List Any → RawGroups
  text : Text → RawGroups
  other : RawGroups

-- The closure `add`: `groups` grows at its end, and `seen` holds what it has.
unfoldable pub add_group : List Text → Text → List Text
unfolding member
add_group groups group =
    let trimmed = trim_space group in
    if trimmed == codes ""
    then groups
    else if member trimmed groups
    then groups
    else groups ++ trimmed ∷ []

unfoldable pub add_groups : List Text → List Text → List Text
add_groups groups [] = groups
add_groups groups (group ∷ rest) = add_groups (add_group groups group) rest

add_value : List Text → Any → List Text
add_value groups value = elim (as_string value) [
  | none ↦ groups
  | some group ↦ add_group groups group
]

add_values : List Text → List Any → List Text
add_values groups [] = groups
add_values groups (value ∷ rest) = add_values (add_value groups value) rest

-- `normalizedGroups`
unfoldable pub normalized_groups : RawGroups → List Text
unfolding add_groups add_values add_value
normalized_groups (strings value) = add_groups [] value
normalized_groups (values value) = add_values [] value
normalized_groups (text value) = add_groups [] (split value b',')
normalized_groups other = []

-- A decoded JSON value as `normalizedGroups` sees it.
unfoldable pub raw_groups : Option Any → RawGroups
raw_groups none = other
raw_groups (some (array vs)) = values (elements vs)
raw_groups (some (string s)) = text s
raw_groups (some _) = other

abbrev pub all_link_groups_wildcard : Text
all_link_groups_wildcard = 0 ∷ codes "all-link-groups"

unfoldable pub any_member : List Text → List Text → Bool
any_member [] user_groups = false
any_member (group ∷ groups) user_groups =
    if member group user_groups then true else any_member groups user_groups

-- `linkAllowedForGroups`
unfoldable pub link_allowed_for_groups : DashboardLink → List Text → Bool
link_allowed_for_groups link user_groups = elim link.groups [
  | [] ↦ true
  | g ∷ gs ↦
      if member all_link_groups_wildcard user_groups then true else any_member (g ∷ gs) user_groups
]

-- `groupSet` of `filterLinksForGroups`, as the list of the groups put into it.
unfoldable pub group_set : List Text → List Text
group_set [] = []
group_set (group ∷ groups) =
    let trimmed = trim_space group in
    if trimmed == codes "" then group_set groups else trimmed ∷ group_set groups

-- `filterLinksForGroups`
unfoldable pub filter_links_for_groups : List DashboardLink → List Text → List DashboardLink
filter_links_for_groups links user_groups =
    let set = group_set user_groups in keep (λ link. link_allowed_for_groups link set) links

-- `filterLinksForReplication`
unfoldable pub filter_links_for_replication : List DashboardLink → List DashboardLink
filter_links_for_replication links = keep (λ link. link.replicate) links

-- `filterTilesForReplication`
unfoldable pub filter_tiles_for_replication : List DashboardInfoTile → List DashboardInfoTile
filter_tiles_for_replication tiles = keep (λ tile. tile.replicate) tiles

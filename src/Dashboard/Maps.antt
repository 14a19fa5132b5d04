-- ===== src/Dashboard/Maps.antt =====
-- The maps that `collectDashboard` hands to the collectors, and the helpers that write to them.
pub mod Resolve
pub mod WellFormed
use cupboard.Prelude.{false, ◌||◌, List, [], ◌∷◌, ◌++◌, none, some, if◌then◌else◌}
use cupboard.Prelude.Int.{pos}
use cupboard.Text.{Text, codes, ◌==◌}
use cupboard.Text.Trim.{trim_space}
use cupboard.Text.Case.{Unicode, equal_fold}
use cupboard.GoMap.{GoMap, lookup, has, insert}
use cupboard.Dashboard.Types.{DashboardLink, DashboardLinkGroup, DashboardInfoTile}

-- `groups`, `groupDetails` and `tiles`
pub record Maps : Type 0 where
  pub groups : GoMap (List DashboardLink)
  pub details : GoMap DashboardLinkGroup
  pub tiles : GoMap (List DashboardInfoTile)

-- `groups[name]`: a missing key reads as the empty slice.
unfoldable pub slice_at {ℓ} : {A : Type ℓ} → Text → GoMap (List A) → List A
slice_at k m = elim (lookup k m) [ none ↦ [] | some xs ↦ xs ]

-- `m[k] = append(m[k], x)`
unfoldable pub append_at {ℓ} : {A : Type ℓ} → Text → A → GoMap (List A) → GoMap (List A)
append_at k x m = insert k (slice_at k m ++ x ∷ []) m

-- A `DashboardLinkGroup` literal with a name, a display name and a source.
abbrev pub named_group : Text → Text → DashboardLinkGroup
named_group name source = record {
  name = name;
  priority = pos 0;
  priority_class = codes "";
  display_name = name;
  source = source;
  properties = [];
  replicate = false;
}

-- `ensureLinkGroup`
unfoldable pub ensure_link_group : Text → GoMap DashboardLinkGroup → GoMap DashboardLinkGroup
ensure_link_group name details =
    if has name details then details else insert name (named_group name (codes "local")) details

-- `ensureLinkGroup(groupDetails, name)` and then `groups[name] = append(groups[name], link)`
unfoldable pub add_link : Text → DashboardLink → Maps → Maps
unfolding ensure_link_group append_at slice_at
add_link name link m = record m {
  groups = append_at name link m.groups;
  details = ensure_link_group name m.details;
}

module _ ⦃u : Unicode⦄ where
  -- The `range` loop of `resolveLinkGroupName`, in the order of the map.
  find_group : Text → GoMap DashboardLinkGroup → Text
  find_group name [] = name
  find_group name ((key, details) ∷ rest) =
      if equal_fold (trim_space details.display_name) name || equal_fold key name
      then key
      else find_group name rest

  -- `resolveLinkGroupName`
  unfoldable pub resolve_link_group_name : Text → GoMap DashboardLinkGroup → Text
  unfolding find_group
  resolve_link_group_name raw details =
      let name = trim_space raw in
      if name == codes ""
      then codes ""
      else if has name details
      then name
      else find_group name details

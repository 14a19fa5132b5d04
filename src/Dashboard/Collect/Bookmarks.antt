-- ===== src/Dashboard/Collect/Bookmarks.antt =====
-- `collectBookmarkGroups`: the `BookmarkGroup` and `Bookmark` resources.
use cupboard.Prelude.{Bool, false, ◌||◌, List, [], ◌∷◌, none, some, Result, ok, err, if◌then◌else◌}
use cupboard.Text.{Text, codes}
use cupboard.Text.Trim.{trim_space}
use cupboard.GoMap.{GoMap, lookup, insert}
use cupboard.Kube.{KubeError}
use cupboard.Kube.Bookmark.{Bookmark, BookmarkGroup, target_self}
use cupboard.Kube.Reader.{Reader}
use cupboard.Dashboard.Types.{DashboardLinkGroup, DashboardLink}
use cupboard.Dashboard.Meta.{or_else}
use cupboard.Dashboard.Groups.{normalized_groups, strings}
use cupboard.Dashboard.Maps.{Maps, add_link, named_group, ensure_link_group}
use cupboard.Dashboard.Collector.{Collector, and_then, collect_list}

-- `groupDetails[name]` after `ensureLinkGroup`; a missing key would read as the zero value.
unfoldable pub detail_at : Text → GoMap DashboardLinkGroup → DashboardLinkGroup
detail_at name details = elim (lookup name details) [
  | none ↦ named_group (codes "") (codes "")
  | some d ↦ d
]

-- `existing` with the metadata of the resource.
unfoldable pub with_spec : BookmarkGroup → DashboardLinkGroup → DashboardLinkGroup
with_spec item existing = record existing {
  replicate = item.spec.replicate;
  properties = elim item.spec.properties [ [] ↦ existing.properties | p ∷ ps ↦ p ∷ ps ];
  display_name = or_else (trim_space item.spec.name) existing.display_name;
}

-- The body of the loop over the groups, on `groupDetails`.
unfoldable pub add_bookmark_group : BookmarkGroup → Maps → Maps
unfolding detail_at with_spec
add_bookmark_group item m =
    let name = item.meta.name in
    let details = ensure_link_group name m.details in
    record m { details = insert name (with_spec item (detail_at name details)) details }

-- `groupReplicate`, which the same loop fills.
unfoldable pub group_replicate : List BookmarkGroup → GoMap Bool → GoMap Bool
group_replicate [] replicate = replicate
group_replicate (item ∷ items) replicate =
    group_replicate items (insert item.meta.name item.spec.replicate replicate)

flag_at : Text → GoMap Bool → Bool
flag_at k m = elim (lookup k m) [ none ↦ false | some b ↦ b ]

-- The link of a bookmark.
unfoldable pub bookmark_link : GoMap Bool → Bookmark → DashboardLink
unfolding flag_at
bookmark_link replicate b = record {
  name = b.spec.name;
  link_group = codes "";
  url = trim_space b.spec.url;
  target = or_else b.spec.target target_self;
  icon = b.spec.icon;
  source = codes "bookmark";
  metadata = codes "";
  groups = normalized_groups (strings b.spec.groups);
  replicate = b.spec.replicate || flag_at b.spec.group replicate;
}

-- The body of the loop over the bookmarks.
unfoldable pub add_bookmark : GoMap Bool → Bookmark → Maps → Maps
add_bookmark replicate b m = elim b.status.url_reachable [
  | none ↦ m
  | some reachable ↦
      if reachable then add_link (trim_space b.spec.group) (bookmark_link replicate b) m else m
]

-- The groups that the first list call returned; an error leaves before they are read.
unfoldable pub listed : Result KubeError (List BookmarkGroup) → List BookmarkGroup
listed (err e) = []
listed (ok items) = items

-- `collectBookmarkGroups`
unfoldable pub collect_bookmark_groups : Reader → Collector
unfolding listed
collect_bookmark_groups c = and_then (collect_list c.list_bookmark_groups add_bookmark_group) (
    collect_list c.list_bookmarks
      (add_bookmark (group_replicate (listed c.list_bookmark_groups) [])))

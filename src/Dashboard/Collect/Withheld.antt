-- ===== src/Dashboard/Collect/Withheld.antt =====
-- Bookmarks whose URL is not known to be reachable are withheld.
use cupboard.Prelude.{
  Bool, true, false, List, [], ◌∷◌, ◌++◌, none, some, ok, ◌≡◌, refl, sym, ap, ◌∙◌, ◌&&◌, map,
  append_assoc, append-nil, Bool-cases, Option-cases, inl, inr,
}
use cupboard.Prelude.Lists.{keep}
use cupboard.Text.{Text, ◌==◌}
use cupboard.Text.Trim.{trim_space}
use cupboard.GoMap.{GoMap, lookup}
use cupboard.Kube.Bookmark.{Bookmark, BookmarkGroup}
use cupboard.Kube.Reader.{Reader}
use cupboard.Dashboard.Types.{DashboardLink}
use cupboard.Dashboard.Maps.{Maps, slice_at, add_link}
use cupboard.Dashboard.Merge.{no_maps}
use cupboard.Dashboard.Merge.Laws.{slice_at-append_at}
use cupboard.Dashboard.Collector.{for_items, collect_list, and_then}
use cupboard.Dashboard.Collect.Bookmarks.{
  collect_bookmark_groups, add_bookmark_group, add_bookmark, bookmark_link, group_replicate, listed,
}

-- A bookmark is marked reachable, and its group, trimmed, is a key.
abbrev pub belongs : Text → Bookmark → Bool
belongs k b = elim b.status.url_reachable [
  | none ↦ false
  | some r ↦ r && trim_space b.spec.group == k
]

-- The links of the bookmarks that are marked reachable and belong to a key, in their order.
abbrev pub reachable_links : Text → GoMap Bool → List Bookmark → List DashboardLink
reachable_links k replicate items = map (bookmark_link replicate) (keep (belongs k) items)

slice_at-add_bookmark :
    (k : Text) (replicate : GoMap Bool) (b : Bookmark) (items : List Bookmark) (m : Maps)
    → slice_at k (add_bookmark replicate b m).groups ++ reachable_links k replicate items
      ≡ slice_at k m.groups ++ reachable_links k replicate (b ∷ items)
unfolding add_bookmark add_link keep bookmark_link
slice_at-add_bookmark k replicate b items m = elim (Option-cases b.status.url_reachable) [
  | inl e ↦ rw (add_bookmark, e) refl
  | inr (false, e) ↦ rw (add_bookmark, e) refl
  | inr (true, e) ↦ elim (Bool-cases (trim_space b.spec.group == k)) [
    | inl t ↦
        rw (add_bookmark, e, slice_at-append_at, t)
          (append_assoc (slice_at k m.groups) (bookmark_link replicate b ∷ [])
            (reachable_links k replicate items))
    | inr t ↦ rw (add_bookmark, e, slice_at-append_at, t) refl
  ]
]

slice_at-for_items :
    (k : Text) (replicate : GoMap Bool) (items : List Bookmark) (m : Maps)
    → slice_at k (for_items (add_bookmark replicate) items m).groups
      ≡ slice_at k m.groups ++ reachable_links k replicate items
unfolding for_items keep
slice_at-for_items k replicate [] m = sym (append-nil (slice_at k m.groups))
slice_at-for_items k replicate (b ∷ items) m =
    slice_at-for_items k replicate items (add_bookmark replicate b m)
    ∙ slice_at-add_bookmark k replicate b items m

groups-for_items :
    (items : List BookmarkGroup) (m : Maps)
    → (for_items add_bookmark_group items m).groups ≡ m.groups
unfolding for_items add_bookmark_group
groups-for_items [] m = refl
groups-for_items (item ∷ items) m = groups-for_items items _

-- Where both list calls answer, the links of a key that are collected are those of the bookmarks of
-- the cluster that are marked reachable and whose group, trimmed, is the key, in their order.
pub collect_bookmark_groups-reachable_links :
    (c : Reader) (groups : List BookmarkGroup) (items : List Bookmark) (k : Text)
    → c.list_bookmark_groups ≡ ok groups
    → c.list_bookmarks ≡ ok items
    → slice_at k (collect_bookmark_groups c no_maps).1.groups
      ≡ reachable_links k (group_replicate groups []) items
unfolding collect_bookmark_groups collect_list and_then listed slice_at lookup
collect_bookmark_groups-reachable_links c groups items k g i =
    let replicate = group_replicate groups [] in
    let m = for_items add_bookmark_group groups no_maps in
    rw (g, i)
      (slice_at-for_items k replicate items m
        ∙ ap (λ x. slice_at k x ++ reachable_links k replicate items)
            (groups-for_items groups no_maps))

-- ===== src/Dashboard/Merge/Laws.antt =====
-- What the merges add, and that they change nothing that is there.
use cupboard.Prelude.{
  true, List, [], ◌∷◌, ◌++◌, some, ◌≡◌, inl, inr, refl, sym, ◌∙◌, arith, if◌then◌else◌, Bool-cases,
  append_assoc, append-nil,
}
use cupboard.Prelude.Lists.{All, All-keep_self, All-append}
use cupboard.Text.{Text, codes, ◌==◌, eq_iff}
use cupboard.Text.Search.{has_prefix, has_prefix-append}
use cupboard.Text.Case.{Unicode}
use cupboard.GoMap.{GoMap, lookup, has, insert, lookup-insert, has_iff_lookup}
use cupboard.Dashboard.Types.{DashboardLink, DashboardLinkGroup, DashboardGroup, DashboardResponse}
use cupboard.Dashboard.Meta.{or_else}
use cupboard.Dashboard.Groups.{filter_links_for_replication}
use cupboard.Dashboard.Maps.{Maps, slice_at, append_at}
use cupboard.Dashboard.Merge.{
  ClusterInfo, add_foreign_links, append_links, by_name, foreign_detail, merge_cluster,
  merge_foreign_cluster_data, merge_foreign_group, merge_foreign_groups, merge_peer,
  merge_remote_data, merge_remote_group, merge_remote_groups, remote_detail,
}

pub slice_at-append_at :
    (j k : Text) (x : DashboardLink) (m : GoMap (List DashboardLink))
    → slice_at j (append_at k x m) ≡ (if k == j then slice_at j m ++ x ∷ [] else slice_at j m)
unfolding slice_at append_at
slice_at-append_at j k x m =
    ground (arith, lookup-insert k j (slice_at k m ++ x ∷ []) m, eq_iff k j)

-- Links with a new source.
abbrev pub from : (DashboardLink → Text) → List DashboardLink → List DashboardLink
from source [] = []
from source (link ∷ links) = record link { source = source link } ∷ from source links

-- The links that a loop of appends leaves under a key.
slice_at-append_links :
    (j k : Text) (source : DashboardLink → Text) (links : List DashboardLink)
    (m : GoMap (List DashboardLink))
    → slice_at j (append_links k source links m)
      ≡ (if k == j then slice_at j m ++ from source links else slice_at j m)
unfolding append_links
slice_at-append_links j k source [] m = elim (Bool-cases (k == j)) [
  | inl e ↦ rw e (sym (append-nil (slice_at j m)))
  | inr e ↦ rw e refl
]
slice_at-append_links j k source (l ∷ links) m =
    let rest =
      slice_at-append_links j k source links (append_at k (record l { source = source l }) m) in
    elim (Bool-cases (k == j)) [
      | inl e ↦
          rw (rest, slice_at-append_at, e)
            (append_assoc (slice_at j m) (record l { source = source l } ∷ []) _)
      | inr e ↦ rw (rest, slice_at-append_at, e) refl
    ]

-- A change of the maps that leaves the details that are there, and the tiles, and adds links with a
-- property behind those of a group.
pub record OnlyAdds (P : DashboardLink → Type 0) (m n : Maps) : Type 0 where
  pub details_kept :
      (k : Text) (d : DashboardLinkGroup)
      → lookup k m.details ≡ some d
      → lookup k n.details ≡ some d
  pub tiles_kept : n.tiles ≡ m.tiles
  pub links_kept :
      (k : Text)
      → (more : List DashboardLink) × ((slice_at k n.groups ≡ slice_at k m.groups ++ more)
          × All P more)

module _ (P : DashboardLink → Type 0) where
  OnlyAdds-refl : (m : Maps) → OnlyAdds P m m
  OnlyAdds-refl m = record {
    details_kept = λ k d h. h;
    tiles_kept = refl;
    links_kept = λ k. ([], (sym (append-nil _), tt));
  }

  OnlyAdds-trans : (l m n : Maps) → OnlyAdds P l m → OnlyAdds P m n → OnlyAdds P l n
  OnlyAdds-trans l m n a b = record {
    details_kept = λ k d h. b.details_kept k d (a.details_kept k d h);
    tiles_kept = b.tiles_kept ∙ a.tiles_kept;
    links_kept = λ k.
        let (xs, (p, hx)) = a.links_kept k in
        let (ys, (q, hy)) = b.links_kept k in
        (xs ++ ys, (q ∙ rw p (append_assoc _ xs ys), All-append P xs ys hx hy));
  }

  -- Adding a missing entry, and links to one group.
  OnlyAdds-group :
      (k : Text) (d : DashboardLinkGroup) (source : DashboardLink → Text)
      (links : List DashboardLink) (m : Maps)
      → All P (from source links)
      → OnlyAdds P m (record m {
        details = if has k m.details then m.details else insert k d m.details;
        groups = append_links k source links m.groups;
      })
  OnlyAdds-group k d source links m h = record {
    details_kept = λ j e p.
        ground (arith, has_iff_lookup k m.details, lookup-insert k j d m.details, eq_iff k j);
    tiles_kept = refl;
    links_kept = λ j. elim (Bool-cases (k == j)) [
      | inl e ↦
          (from source links, (slice_at-append_links j k source links m.groups ∙ rw e refl, h))
      | inr e ↦
          ([], (slice_at-append_links j k source links m.groups ∙ rw e (sym (append-nil _)), tt))
    ];
  }

-- The link came from a peer.
abbrev pub IsSynced : DashboardLink → Type 0
IsSynced link = has_prefix link.source (codes "sync:") ≡ true

from-IsSynced :
    (peer : Text) (links : List DashboardLink)
    → All IsSynced (from (λ link. codes "sync:" ++ peer) links)
from-IsSynced peer [] = tt
from-IsSynced peer (l ∷ links) = (has_prefix-append (codes "sync:") peer, from-IsSynced peer links)

OnlyAdds-merge_remote_groups :
    (peer : Text) (remote : GoMap DashboardLinkGroup) (groups : List DashboardGroup) (m : Maps)
    → OnlyAdds IsSynced m (merge_remote_groups (codes "sync:" ++ peer) remote groups m)
unfolding merge_remote_groups merge_remote_group
OnlyAdds-merge_remote_groups peer remote [] m = OnlyAdds-refl IsSynced m
OnlyAdds-merge_remote_groups peer remote (group ∷ groups) m =
    let name = or_else group.link_group group.name in
    let source = codes "sync:" ++ peer in
    OnlyAdds-trans IsSynced m _ _
      (OnlyAdds-group IsSynced name (remote_detail name source remote) (λ l. source) group.links m
        (from-IsSynced peer group.links))
      (OnlyAdds-merge_remote_groups peer remote groups _)

-- Merging the data of peers changes no details that are there and no tiles. In each group it adds
-- links behind those that are there, with a source that names a peer.
pub merge_remote_data-OnlyAdds :
    (remote : GoMap DashboardResponse) (m : Maps) → OnlyAdds IsSynced m (merge_remote_data remote m)
unfolding merge_remote_data merge_peer
merge_remote_data-OnlyAdds [] m = OnlyAdds-refl IsSynced m
merge_remote_data-OnlyAdds ((peer, resp) ∷ rest) m =
    OnlyAdds-trans IsSynced m _ _
      (OnlyAdds-merge_remote_groups peer (by_name resp.link_groups []) resp.groups m)
      (merge_remote_data-OnlyAdds rest _)

-- The link came from a foreign cluster, where it is marked for replication.
abbrev pub IsForeign : DashboardLink → Type 0
IsForeign link = (link.replicate ≡ true) × (has_prefix link.source (codes "foreign:") ≡ true)

from-IsForeign :
    (cluster : Text) (links : List DashboardLink)
    → All (λ l. l.replicate ≡ true) links
    → All IsForeign (from (λ l. codes "foreign:" ++ cluster ++ codes ":" ++ l.source) links)
from-IsForeign cluster [] h = tt
from-IsForeign cluster (l ∷ links) (r, h) = (
  (r, has_prefix-append (codes "foreign:") (cluster ++ codes ":" ++ l.source)),
  from-IsForeign cluster links h,
)

OnlyAdds-add_foreign_links :
    (cluster name : Text) (temp : GoMap DashboardLinkGroup) (links : List DashboardLink) (m : Maps)
    → All (λ l. l.replicate ≡ true) links
    → OnlyAdds IsForeign m (add_foreign_links (codes "foreign:" ++ cluster) name temp links m)
unfolding add_foreign_links
OnlyAdds-add_foreign_links cluster name temp [] m h = OnlyAdds-refl IsForeign m
OnlyAdds-add_foreign_links cluster name temp (l ∷ links) m h =
    OnlyAdds-group IsForeign name (foreign_detail name (codes "foreign:" ++ cluster) temp) _
      (l ∷ links) m (from-IsForeign cluster (l ∷ links) h)

OnlyAdds-merge_foreign_groups :
    (cluster : Text) (temp : GoMap DashboardLinkGroup) (groups : GoMap (List DashboardLink))
    (m : Maps)
    → OnlyAdds IsForeign m (merge_foreign_groups (codes "foreign:" ++ cluster) temp groups m)
unfolding merge_foreign_groups merge_foreign_group filter_links_for_replication
OnlyAdds-merge_foreign_groups cluster temp [] m = OnlyAdds-refl IsForeign m
OnlyAdds-merge_foreign_groups cluster temp ((name, links) ∷ rest) m =
    OnlyAdds-trans IsForeign m _ _
      (OnlyAdds-add_foreign_links cluster name temp (filter_links_for_replication links) m
        (All-keep_self (λ l. l.replicate) links))
      (OnlyAdds-merge_foreign_groups cluster temp rest _)

module _ ⦃u : Unicode⦄ where
  -- Merging the foreign clusters changes no details that are there and no tiles. In each group it
  -- adds links behind those that are there, all of them marked for replication, with a source that
  -- names a foreign cluster.
  pub merge_foreign_cluster_data-OnlyAdds :
      (clusters : List ClusterInfo) (m : Maps)
      → OnlyAdds IsForeign m (merge_foreign_cluster_data clusters m)
  unfolding merge_foreign_cluster_data merge_cluster
  merge_foreign_cluster_data-OnlyAdds [] m = OnlyAdds-refl IsForeign m
  merge_foreign_cluster_data-OnlyAdds (fc ∷ fcs) m =
      OnlyAdds-trans IsForeign m _ _ (OnlyAdds-merge_foreign_groups fc.name _ _ m)
        (merge_foreign_cluster_data-OnlyAdds fcs _)

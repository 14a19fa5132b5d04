-- ===== src/Controller/BookmarkGroup.antt =====
-- internal/controller/dashboard/bookmarkgroup_controller.go
use cupboard.Prelude.{
  ◌∙◌, suc, inr, inl, Bool-cases, ℕ, ◌+◌, ◌^◌, ◌%◌, ◌<◌, List, [], ◌∷◌, Option, none, some, Result,
  ok, err, if◌then◌else◌, ◌≡◌, arith,
}
use cupboard.Prelude.Lists.{length, keep}
use cupboard.Text.{Text, ◌==◌}
use cupboard.Kube.{KubeError}
use cupboard.Kube.Bookmark.{Bookmark, BookmarkGroup}
use cupboard.Controller.{Outcome}

-- `bookmarkCount++` of an `int32` that starts at 0, as the number modulo 2^32.
unfoldable pub count_bookmarks : Text → List Bookmark → ℕ → ℕ
count_bookmarks name [] count = count
count_bookmarks name (b ∷ bookmarks) count =
    let next = if b.spec.group == name then (count + 1) % 2 ^ 32 else count in
    count_bookmarks name bookmarks next

-- The group that the reconciler writes, at a time.
unfoldable pub updated_group : ℕ → List Bookmark → BookmarkGroup → BookmarkGroup
updated_group now bookmarks group = record group {
  status = record group.status {
    bookmark_count = count_bookmarks group.meta.name bookmarks 0;
    last_synced_at = some now;
  };
}

group_outcome :
    ℕ
    → BookmarkGroup
    → Result KubeError (List Bookmark)
    → (BookmarkGroup → Option KubeError)
    → Outcome BookmarkGroup
group_outcome now group (err e) update = record {
  requeue_after = 0;
  error = some e;
  written = none;
}
group_outcome now group (ok bookmarks) update =
    let group_new = updated_group now bookmarks group in
    record { requeue_after = 0; error = update group_new; written = some group_new }

-- `Reconcile`, on what `Get`, `List` in the namespace of the group, and `Status().Update` return.
unfoldable pub reconcile_group :
    ℕ
    → Result KubeError BookmarkGroup
    → (Text → Result KubeError (List Bookmark))
    → (BookmarkGroup → Option KubeError)
    → Outcome BookmarkGroup
unfolding group_outcome
reconcile_group now (err e) list update = record {
  requeue_after = 0;
  error = if e.not_found then none else some e;
  written = none;
}
reconcile_group now (ok group) list update =
    group_outcome now group (list group.meta.namespace) update

-- The loop counts the bookmarks of the group, as long as the count fits.
count_bookmarks-from :
    (name : Text) (bookmarks : List Bookmark) (n : ℕ)
    → n + length (keep (λ b. b.spec.group == name) bookmarks) < 2 ^ 31
    → count_bookmarks name bookmarks n ≡ n + length (keep (λ b. b.spec.group == name) bookmarks)
unfolding count_bookmarks keep
count_bookmarks-from name [] n h = ground arith
count_bookmarks-from name (b ∷ bookmarks) n h = elim (Bool-cases (b.spec.group == name)) [
  | inl e ↦
      let rest = length (keep (λ b. b.spec.group == name) bookmarks) in
      let fits : n + suc rest < 2 ^ 31 = ground arith in
      let same : (n + 1) % 2 ^ 32 ≡ n + 1 = omega arith in
      let sum : n + 1 + rest ≡ n + suc rest = omega arith in
      let few : n + 1 + rest < 2 ^ 31 = omega arith in
      rw (e, same) (count_bookmarks-from name bookmarks (n + 1) few ∙ sum)
  | inr e ↦ rw e (count_bookmarks-from name bookmarks n (ground arith))
]

-- The status that is written counts the bookmarks of the group, if there are fewer than 2^31.
updated_group-count :
    (now : ℕ) (bookmarks : List Bookmark) (group : BookmarkGroup)
    → length (keep (λ b. b.spec.group == group.meta.name) bookmarks) < 2 ^ 31
    → (updated_group now bookmarks group).status.bookmark_count
      ≡ length (keep (λ b. b.spec.group == group.meta.name) bookmarks)
unfolding updated_group
updated_group-count now bookmarks group h =
    let zero_first : 0 + length (keep (λ b. b.spec.group == group.meta.name) bookmarks) < 2 ^ 31 =
      omega arith in
    count_bookmarks-from group.meta.name bookmarks 0 zero_first ∙ omega arith

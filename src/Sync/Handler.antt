-- ===== src/Sync/Handler.antt =====
-- What the sync endpoint answers.
use cupboard.Prelude.{true, some, ok, err, ◌≡◌, arith, Bool-cases, inl, inr, Result, [], ◌∷◌}
use cupboard.Prelude.Lists.{All}
use cupboard.Text.{Text, codes, ◌==◌}
use cupboard.Text.Case.{Unicode}
use cupboard.Kube.{KubeError}
use cupboard.Dashboard.Types.{DashboardResponse}
use cupboard.Dashboard.Groups.{all_link_groups_wildcard}
use cupboard.Dashboard.Response.{DashboardCollector, collect_dashboard}
use cupboard.Dashboard.Response.Export.{IsExportable, collect_dashboard-exported}
use cupboard.Sync.{sync_handler, answer_for}

payload-answer_for :
    (answer : Result KubeError DashboardResponse) (r : DashboardResponse)
    → (answer_for answer).payload ≡ some r
    → (answer ≡ ok r) × ((answer_for answer).status ≡ 200)
unfolding answer_for
payload-answer_for (err e) r h = ground arith
payload-answer_for (ok x) r h = ground arith

module _ ⦃u : Unicode⦄ where
  -- A payload is sent with the status 200, in answer to a GET only, and holds only links and tiles
  -- that are marked for replication.
  pub sync_handler-exported :
      (c : DashboardCollector) (method : Text) (r : DashboardResponse)
      → (sync_handler c method).payload ≡ some r
      → ((method == codes "GET") ≡ true)
        × (((sync_handler c method).status ≡ 200) × All IsExportable r.groups)
  unfolding sync_handler
  sync_handler-exported c method r h = elim (Bool-cases (method == codes "GET")) [
    | inr e ↦ absurd (ground arith)
    | inl e ↦
        let answer = collect_dashboard c (all_link_groups_wildcard ∷ []) true in
        let sent : (answer_for answer).payload ≡ some r = ground arith in
        let (p, q) = payload-answer_for answer r sent in
        (
          e,
          (
            rw (sync_handler, e) q,
            collect_dashboard-exported c (all_link_groups_wildcard ∷ []) r p,
          ),
        )
  ]

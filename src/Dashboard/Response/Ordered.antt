-- ===== src/Dashboard/Response/Ordered.antt =====
-- The groups of a response: each stands once, and each is one of the listed link groups.
use cupboard.Prelude.{Bool, true, false, List, [], ◌∷◌, ◌≡◌, refl, arith, ok, if◌then◌else◌}
use cupboard.Prelude.Lists.{All, Any, All-unless, All-in, Any-of}
use cupboard.Text.{Text, ◌==◌, eq_iff, eq_refl}
use cupboard.Text.Case.{Unicode}
use cupboard.GoMap.{GoMap, lookup, has, IsMap, has_iff_lookup}
use cupboard.Sort.Determinism.{Distinct, sort_by-Distinct}
use cupboard.Dashboard.Types.{DashboardLinkGroup, DashboardResponse}
use cupboard.Dashboard.Maps.{Maps}
use cupboard.Dashboard.Maps.WellFormed.{IsWellFormed, AreNamed}
use cupboard.Dashboard.Order.{sort_link_groups, map_values}
use cupboard.Dashboard.Response.{
  DashboardCollector, collect_dashboard, respond, response_groups, response_group, is_left_out,
}
use cupboard.Dashboard.Response.Invariant.{final_maps, final_maps-IsWellFormed}
use cupboard.Dashboard.Response.Visible.{collect_dashboard-ok}

-- The rest of a well-named map is well-named.
AreNamed-tail :
    (j : Text) (d : DashboardLinkGroup) (m : GoMap DashboardLinkGroup)
    → AreNamed ((j, d) ∷ m)
    → has j m ≡ false
    → AreNamed m
unfolding lookup
AreNamed-tail j d m n h k e p = ground (arith, n k e, has_iff_lookup k m, eq_iff j k)

AreNamed-head :
    (j : Text) (d : DashboardLinkGroup) (m : GoMap DashboardLinkGroup)
    → AreNamed ((j, d) ∷ m)
    → d.name ≡ j
unfolding lookup
AreNamed-head j d m n = ground (arith, n j d, eq_refl j)

-- In a map without a key, no value has it for its name.
values-other :
    (k : Text) (m : GoMap DashboardLinkGroup)
    → has k m ≡ false
    → AreNamed m
    → IsMap m
    → All (λ d. (k == d.name) ≡ false) (map_values m)
unfolding map_values has
values-other k [] h n o = tt
values-other k ((j, d) ∷ m) h n (hj, o) = (
  rw (AreNamed-head j d m n) (ground (arith, eq_iff j k, eq_iff k j)),
  values-other k m (ground arith) (AreNamed-tail j d m n hj) o,
)

values-Distinct :
    (m : GoMap DashboardLinkGroup) → AreNamed m → IsMap m → Distinct (λ d. d.name) (map_values m)
unfolding map_values
values-Distinct [] n o = tt
values-Distinct ((j, d) ∷ m) n (hj, o) = (
  rw (AreNamed-head j d m n) (values-other j m hj (AreNamed-tail j d m n hj) o),
  values-Distinct m (AreNamed-tail j d m n hj) o,
)

module _ ⦃u : Unicode⦄ where
  -- What holds of the names of the listed groups holds of the groups shown.
  response_groups-All :
      (P : Text → Type 0) (lo : Bool) (ug : List Text) (m : Maps) (ds : List DashboardLinkGroup)
      → All (λ d. P d.name) ds
      → All (λ g. P g.link_group) (response_groups lo ug m ds)
  unfolding response_groups
  response_groups-All P lo ug m [] h = tt
  response_groups-All P lo ug m (d ∷ ds) (p, h) =
      All-unless (λ g. P g.link_group) (is_left_out lo ug m d) (response_group ug m d)
        (response_groups lo ug m ds) p (response_groups-All P lo ug m ds h)

  response_groups-Distinct :
      (lo : Bool) (ug : List Text) (m : Maps) (ds : List DashboardLinkGroup)
      → Distinct (λ d. d.name) ds
      → Distinct (λ g. g.link_group) (response_groups lo ug m ds)
  unfolding response_groups
  response_groups-Distinct lo ug m [] h = tt
  response_groups-Distinct lo ug m (d ∷ ds) (hd, h) =
      elim (is_left_out lo ug m d)
        as (λ b.
          Distinct (λ g. g.link_group)
            (if b
              then response_groups lo ug m ds
              else response_group ug m d ∷ response_groups lo ug m ds)) [
                | true ↦ response_groups-Distinct lo ug m ds h
                | false ↦ (
                  response_groups-All (λ k. (d.name == k) ≡ false) lo ug m ds hd,
                  response_groups-Distinct lo ug m ds h,
                )
              ]

  sorted-Distinct :
      (m : Maps) → IsWellFormed m → Distinct (λ d. d.name) (sort_link_groups m.details)
  unfolding sort_link_groups
  sorted-Distinct m w =
      sort_by-Distinct (λ d. d.name) _ _ (values-Distinct m.details w.named w.once)

  -- No link group is listed twice in a response, and no two of its groups are of the same link
  -- group.
  pub collect_dashboard-once :
      (c : DashboardCollector) (user_groups : List Text) (local_only : Bool) (r : DashboardResponse)
      → collect_dashboard c user_groups local_only ≡ ok r
      → Distinct (λ d. d.name) r.link_groups × Distinct (λ g. g.link_group) r.groups
  unfolding respond
  collect_dashboard-once c ug lo r h =
      let d = sorted-Distinct _ (final_maps-IsWellFormed c lo) in
      rw (collect_dashboard-ok c ug lo r h) (
        d,
        response_groups-Distinct lo ug (final_maps c lo)
            (sort_link_groups (final_maps c lo).details) d,
      )

  -- Each group of a response has its link group listed in it.
  collect_dashboard-listed :
      (c : DashboardCollector) (user_groups : List Text) (local_only : Bool) (r : DashboardResponse)
      → collect_dashboard c user_groups local_only ≡ ok r
      → All (λ g. Any (λ d. d.name ≡ g.link_group) r.link_groups) r.groups
  unfolding respond
  collect_dashboard-listed c ug lo r h =
      let m = final_maps c lo in
      let ds = sort_link_groups m.details in
      rw (collect_dashboard-ok c ug lo r h) (
        response_groups-All (λ k. Any (λ d. d.name ≡ k) ds) lo ug m ds
          (All-in (λ d. Any (λ e. e.name ≡ d.name) ds) ds
            (λ d i. Any-of (λ e. e.name ≡ d.name) d ds refl i)))

-- ===== src/Dashboard/Response/Visible.antt =====
-- Which links a response shows: those of the collected maps that the user can see, each under its
-- group, and no other.
use cupboard.Prelude.{
  Bool, true, false, List, [], ◌∷◌, some, ok, ◌≡◌, inl, inr, refl, sym, subst, arith, Option-cases,
}
use cupboard.Prelude.Lists.{
  All, Any, keep, All-keep, All-keep_self, All-in, All-both, All-mono, All-unless, Any-unless,
  any_keep,
}
use cupboard.Text.{Text}
use cupboard.Text.Case.{Unicode}
use cupboard.GoMap.{GoMap, lookup, has, has_iff_lookup}
use cupboard.Sort.Laws.{sort_by-All, sort_by-Any}
use cupboard.Dashboard.Types.{DashboardLink, DashboardLinkGroup, DashboardGroup, DashboardResponse}
use cupboard.Dashboard.Groups.{filter_links_for_groups, link_allowed_for_groups, group_set}
use cupboard.Dashboard.Groups.Access.{CanSee, link_allowed_for_groups_iff}
use cupboard.Dashboard.Maps.{Maps, slice_at}
use cupboard.Dashboard.Maps.WellFormed.{IsWellFormed}
use cupboard.Dashboard.Order.{sort_links, sort_link_groups, map_values}
use cupboard.Dashboard.Response.{
  response_group, shown_links, is_left_out, DashboardCollector, collect_dashboard, respond,
  response_groups, is_nil,
}
use cupboard.Dashboard.Response.Invariant.{final_maps, final_maps-IsWellFormed}

abbrev pub IsLinkIn : DashboardLink → List DashboardLink → Type 0
IsLinkIn link links = Any (λ x. x ≡ link) links

not_nil :
    (link : DashboardLink) (links : List DashboardLink) → IsLinkIn link links → is_nil links ≡ false
not_nil link [] i = elim i [ ]
not_nil link (x ∷ links) i = refl

slice-has :
    (k : Text) (link : DashboardLink) (m : GoMap (List DashboardLink))
    → IsLinkIn link (slice_at k m)
    → has k m ≡ true
unfolding slice_at
slice-has k link m i = elim (Option-cases (lookup k m)) [
  | inl e ↦ absurd (rw (e, slice_at) at i)
  | inr (xs, e) ↦ ground (arith, has_iff_lookup k m)
]

lookup-values :
    (k : Text) (d : DashboardLinkGroup) (m : GoMap DashboardLinkGroup)
    → lookup k m ≡ some d
    → Any (λ x. x ≡ d) (map_values m)
unfolding lookup map_values
lookup-values k d [] h = cc h
lookup-values k d ((j, v) ∷ m) h = ground (arith, lookup-values k d m)

has-lookup :
    (k : Text) (m : GoMap DashboardLinkGroup)
    → has k m ≡ true
    → (d : DashboardLinkGroup) × (lookup k m ≡ some d)
has-lookup k m h = elim (Option-cases (lookup k m)) [
  | inl e ↦ absurd (ground (arith, has_iff_lookup k m))
  | inr r ↦ r
]

module _ ⦃u : Unicode⦄ where
  -- What a successful call returns.
  pub collect_dashboard-ok :
      (c : DashboardCollector) (user_groups : List Text) (local_only : Bool) (r : DashboardResponse)
      → collect_dashboard c user_groups local_only ≡ ok r
      → r ≡ respond local_only user_groups (final_maps c local_only)
  unfolding collect_dashboard
  collect_dashboard-ok c ug lo r h = ground arith

  -- A link stands in its group, and the user can see it.
  abbrev Shown : List Text → Maps → Text → DashboardLink → Type 0
  Shown ug m k link = IsLinkIn link (slice_at k m.groups) × CanSee ug link

  sorted_links-Shown :
      (ug : List Text) (m : Maps) (k : Text)
      → All (Shown ug m k) (sort_links (filter_links_for_groups (slice_at k m.groups) ug))
  unfolding sort_links filter_links_for_groups
  sorted_links-Shown ug m k =
      let links = slice_at k m.groups in
      let test = λ (l : DashboardLink). link_allowed_for_groups l (group_set ug) in
      sort_by-All _ (Shown ug m k) (keep test links) (
        All-both (λ l. IsLinkIn l links) (CanSee ug) (keep test links)
          (All-keep (λ l. IsLinkIn l links) test links
            (All-in (λ l. IsLinkIn l links) links (λ x i. i)))
          (All-mono (λ l. test l ≡ true) (CanSee ug) (λ l e. (link_allowed_for_groups_iff l ug).0 e)
            (keep test links) (All-keep_self test links)))

  response_groups-Shown :
      (lo : Bool) (ug : List Text) (m : Maps) (ds : List DashboardLinkGroup)
      → All (λ g. All (Shown ug m g.link_group) g.links) (response_groups lo ug m ds)
  unfolding response_groups
  response_groups-Shown lo ug m [] = tt
  response_groups-Shown lo ug m (d ∷ ds) =
      let rest = response_groups-Shown lo ug m ds in
      All-unless (λ g. All (Shown ug m g.link_group) g.links) (is_left_out lo ug m d)
        (response_group ug m d) (response_groups lo ug m ds) (sorted_links-Shown ug m d.name) rest

  -- A response shows a link under a group only if the collected maps have it in that group and the
  -- user can see it.
  pub collect_dashboard_sound :
      (c : DashboardCollector) (user_groups : List Text) (local_only : Bool) (r : DashboardResponse)
      → collect_dashboard c user_groups local_only ≡ ok r
      → All
          (λ g.
            All
              (λ link.
                IsLinkIn link (slice_at g.link_group (final_maps c local_only).groups)
                × CanSee user_groups link)
              g.links)
          r.groups
  collect_dashboard_sound c ug lo r h =
      rw (collect_dashboard-ok c ug lo r h)
        (unfold respond in response_groups-Shown lo ug (final_maps c lo) _)

  abbrev ShowsIn : Text → DashboardLink → DashboardGroup → Type 0
  ShowsIn k link g = (g.link_group ≡ k) × IsLinkIn link g.links

  sorted_links_complete :
      (ug : List Text) (m : Maps) (k : Text) (link : DashboardLink)
      → IsLinkIn link (slice_at k m.groups)
      → CanSee ug link
      → IsLinkIn link (filter_links_for_groups (slice_at k m.groups) ug)
  unfolding filter_links_for_groups
  sorted_links_complete ug m k link i s =
      any_keep (λ l. link_allowed_for_groups l (group_set ug)) link (slice_at k m.groups)
        ((link_allowed_for_groups_iff link ug).1 s) i

  response_groups_complete :
      (lo : Bool) (ug : List Text) (m : Maps) (d : DashboardLinkGroup) (link : DashboardLink)
      (ds : List DashboardLinkGroup)
      → Any (λ x. x ≡ d) ds
      → IsLinkIn link (slice_at d.name m.groups)
      → CanSee ug link
      → Any (ShowsIn d.name link) (response_groups lo ug m ds)
  unfolding response_groups sort_links
  response_groups_complete lo ug m d link [] i l s = i
  response_groups_complete lo ug m d link (x ∷ ds) (inl e) l s =
      let shown = sorted_links_complete ug m d.name link l s in
      let sorted : IsLinkIn link (sort_links (shown_links ug m d)) =
        (sort_by-Any _ (λ y. y ≡ link) _).1 shown in
      rw (e, not_nil link (shown_links ug m d) shown) (inl (refl, sorted))
  response_groups_complete lo ug m d link (x ∷ ds) (inr i) l s =
      Any-unless (ShowsIn d.name link) (is_left_out lo ug m x) (response_group ug m x)
        (response_groups lo ug m ds) (response_groups_complete lo ug m d link ds i l s)

  respond_complete :
      (lo : Bool) (ug : List Text) (m : Maps)
      → IsWellFormed m
      → (k : Text) (link : DashboardLink) → IsLinkIn link (slice_at k m.groups)
      → CanSee ug link
      → Any (ShowsIn k link) (respond lo ug m).groups
  unfolding respond sort_link_groups
  respond_complete lo ug m w k link i s =
      let (d, e) = has-lookup k m.details (w.links_covered k (slice-has k link m.groups i)) in
      let listed : Any (λ x. x ≡ d) (sort_link_groups m.details) =
        (sort_by-Any _ (λ x. x ≡ d) _).1 (lookup-values k d m.details e) in
      subst (λ j. Any (ShowsIn j link) (respond lo ug m).groups) (w.named k d e)
        (response_groups_complete lo ug m d link _ listed
          (subst (λ j. IsLinkIn link (slice_at j m.groups)) (sym (w.named k d e)) i) s)

  -- Every collected link that the user can see is shown, under its group.
  pub collect_dashboard_complete :
      (c : DashboardCollector) (user_groups : List Text) (local_only : Bool) (r : DashboardResponse)
      → collect_dashboard c user_groups local_only ≡ ok r
      → (k : Text) (link : DashboardLink)
      → IsLinkIn link (slice_at k (final_maps c local_only).groups)
      → CanSee user_groups link
      → Any (λ g. (g.link_group ≡ k) × IsLinkIn link g.links) r.groups
  collect_dashboard_complete c ug lo r h k link i s =
      subst (λ x. Any (ShowsIn k link) x.groups) (sym (collect_dashboard-ok c ug lo r h))
        (respond_complete lo ug (final_maps c lo) (final_maps-IsWellFormed c lo) k link i s)

-- ===== src/Dashboard/Groups/Access.antt =====
-- Who may see a link, said without the code's sets, and that the filters decide it.
use cupboard.Prelude.{
  Bool, true, List, [], ◌∷◌, ◌≡◌, ◌≢◌, ◌↔◌, ◌⊎◌, inl, refl, arith, if◌then◌else◌,
}
use cupboard.Prelude.Lists.{Any}
use cupboard.Text.{Text, codes, eq_iff}
use cupboard.Text.Trim.{trim_space}
use cupboard.Dashboard.Types.{DashboardLink}
use cupboard.Dashboard.Groups.{
  member, any_member, link_allowed_for_groups, group_set, all_link_groups_wildcard,
}

pub member_iff : (s : Text) (ts : List Text) → (member s ts ≡ true) ↔ Any (λ t. t ≡ s) ts
unfolding member
member_iff s [] = (λ h. cc h, λ h. elim h [ ])
member_iff s (t ∷ ts) = ground (arith, member_iff s ts, eq_iff t s)

-- A user, by the groups that the session names, has a group: it is not blank, and one of the names
-- is it with space around.
abbrev pub HasGroup : List Text → Text → Type 0
HasGroup user_groups g = (g ≢ codes "") × Any (λ x. trim_space x ≡ g) user_groups

pub group_set_iff :
    (g : Text) (user_groups : List Text)
    → (member g (group_set user_groups) ≡ true) ↔ HasGroup user_groups g
unfolding member group_set
group_set_iff g [] = (λ h. cc h, λ h. elim h.1 [ ])
group_set_iff g (x ∷ xs) =
    ground (arith, group_set_iff g xs, eq_iff (trim_space x) g, eq_iff (trim_space x) [])

-- A link can be seen by everybody if it names no groups, and otherwise by a user who has one of
-- them or the wildcard.
abbrev pub CanSee : List Text → DashboardLink → Type 0
CanSee user_groups link =
    (link.groups ≡ [])
    ⊎ (HasGroup user_groups all_link_groups_wildcard ⊎ Any (HasGroup user_groups) link.groups)

any_member_iff :
    (groups user_groups : List Text)
    → (any_member groups (group_set user_groups) ≡ true) ↔ Any (HasGroup user_groups) groups
unfolding any_member
any_member_iff [] ug = (λ h. cc h, λ h. elim h [ ])
any_member_iff (g ∷ gs) ug = ground (arith, any_member_iff gs ug, group_set_iff g ug)

allowed_iff :
    (groups user_groups : List Text)
    → (elim groups as (λ _. Bool) [
      | [] ↦ true
      | g ∷ gs ↦
          if member all_link_groups_wildcard (group_set user_groups)
          then true
          else any_member (g ∷ gs) (group_set user_groups)
    ]
        ≡ true)
      ↔ ((groups ≡ [])
          ⊎ (HasGroup user_groups all_link_groups_wildcard ⊎ Any (HasGroup user_groups) groups))
allowed_iff [] ug = (λ h. inl refl, λ h. refl)
allowed_iff (g ∷ gs) ug =
    ground (arith, any_member_iff (g ∷ gs) ug, group_set_iff all_link_groups_wildcard ug)

-- The code's test is that predicate.
pub link_allowed_for_groups_iff :
    (link : DashboardLink) (user_groups : List Text)
    → (link_allowed_for_groups link (group_set user_groups) ≡ true) ↔ CanSee user_groups link
unfolding link_allowed_for_groups
link_allowed_for_groups_iff link ug = allowed_iff link.groups ug

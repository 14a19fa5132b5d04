-- ===== src/Dashboard/Maps/Resolve.antt =====
-- What `resolveLinkGroupName` returns.
use cupboard.Prelude.{true, false, ◌||◌, [], ◌∷◌, ◌≡◌, ◌⊎◌, inl, inr, sym, subst, refl, Bool-cases}
use cupboard.Prelude.Lists.{All, Any}
use cupboard.Text.{Text, codes, ◌==◌}
use cupboard.Text.Trim.{trim_space}
use cupboard.Text.Case.{Unicode, equal_fold}
use cupboard.GoMap.{GoMap, has}
use cupboard.Dashboard.Types.{DashboardLinkGroup}
use cupboard.Dashboard.Maps.{resolve_link_group_name, find_group}

module _ ⦃u : Unicode⦄ where
  -- A name means a group if it is the group's display name or its key, without regard to case.
  abbrev pub Means : Text → Text × DashboardLinkGroup → Type 0
  Means name entry =
      (equal_fold (trim_space entry.1.display_name) name || equal_fold entry.0 name) ≡ true

  abbrev pub IsOther : Text → Text × DashboardLinkGroup → Type 0
  IsOther name entry =
      (equal_fold (trim_space entry.1.display_name) name || equal_fold entry.0 name) ≡ false

  -- A key is that of a group meant, or no group is meant and it is the name.
  abbrev pub IsFound : Text → GoMap DashboardLinkGroup → Text → Type 0
  IsFound name m r = Any (λ e. Means name e × (r ≡ e.0)) m ⊎ (All (IsOther name) m × (r ≡ name))

  find_group-skip :
      (name j : Text) (d : DashboardLinkGroup) (m : GoMap DashboardLinkGroup)
      → IsOther name (j, d)
      → find_group name ((j, d) ∷ m) ≡ find_group name m
  unfolding find_group
  find_group-skip name j d m e = rw e refl

  find_group-IsFound :
      (name : Text) (m : GoMap DashboardLinkGroup) → IsFound name m (find_group name m)
  unfolding find_group
  find_group-IsFound name [] = inr (tt, refl)
  find_group-IsFound name ((j, d) ∷ m) =
      elim (Bool-cases (equal_fold (trim_space d.display_name) name || equal_fold j name)) [
        | inl e ↦ inl (inl (e, rw e refl))
        | inr e ↦
            subst (IsFound name ((j, d) ∷ m)) (sym (find_group-skip name j d m e))
              (elim (find_group-IsFound name m) [
                | inl i ↦ inl (inr i)
                | inr (a, p) ↦ inr ((e, a), p)
              ])
      ]

  -- A name that is not blank resolves to itself if it is a key, and otherwise to the key of a group
  -- that it means, or to itself if it means none.
  resolve_link_group_name-resolved :
      (raw : Text) (details : GoMap DashboardLinkGroup)
      → (trim_space raw == codes "") ≡ false
      → ((has (trim_space raw) details ≡ true)
          × (resolve_link_group_name raw details ≡ trim_space raw))
        ⊎ ((has (trim_space raw) details ≡ false)
            × (Any
                  (λ e. Means (trim_space raw) e × (resolve_link_group_name raw details ≡ e.0))
                  details
                ⊎ (All (IsOther (trim_space raw)) details
                    × (resolve_link_group_name raw details ≡ trim_space raw))))
  unfolding resolve_link_group_name
  resolve_link_group_name-resolved raw details h =
      elim (Bool-cases (has (trim_space raw) details)) [
        | inl e ↦ inl (e, rw (h, e) refl)
        | inr e ↦ inr (e, rw (h, e) (find_group-IsFound (trim_space raw) details))
      ]

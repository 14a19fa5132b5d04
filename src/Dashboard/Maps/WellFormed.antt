-- ===== src/Dashboard/Maps/WellFormed.antt =====
-- The invariant of the maps: each group with links or tiles has its details, the details of a
-- group bear its name, and no name stands twice.
use cupboard.Prelude.{true, some, ◌≡◌, refl, arith, if◌then◌else◌, Bool-cases, inl, inr}
use cupboard.Text.{Text, codes, eq_iff, eq_refl}
use cupboard.GoMap.{GoMap, lookup, has, insert, IsMap, lookup-insert, has-insert, insert-IsMap}
use cupboard.Dashboard.Types.{DashboardLink, DashboardLinkGroup, DashboardInfoTile}
use cupboard.Dashboard.Maps.{Maps, append_at, named_group, ensure_link_group, add_link}

-- The details of each key bear it as their name.
abbrev pub AreNamed : GoMap DashboardLinkGroup → Type 0
AreNamed details = (k : Text) (d : DashboardLinkGroup) → lookup k details ≡ some d → d.name ≡ k

-- The keys of one map are keys of another.
abbrev pub IsCovered {ℓ κ} : {A : Type ℓ} {B : Type κ} → GoMap A → GoMap B → Type 0
IsCovered m n = (k : Text) → has k m ≡ true → has k n ≡ true

pub record IsWellFormed (m : Maps) : Type 0 where
  pub links_covered : IsCovered m.groups m.details
  pub tiles_covered : IsCovered m.tiles m.details
  pub named : AreNamed m.details
  pub once : IsMap m.details

pub AreNamed-insert :
    (k : Text) (d : DashboardLinkGroup) (details : GoMap DashboardLinkGroup)
    → d.name ≡ k
    → AreNamed details
    → AreNamed (insert k d details)
AreNamed-insert k d details e h j x p =
    ground (arith, lookup-insert k j d details, eq_iff k j, h j x)

IsCovered-insert {ℓ κ} :
    {A : Type ℓ} {B : Type κ} (k : Text) (v : B) (m : GoMap A) (n : GoMap B)
    → IsCovered m n
    → IsCovered m (insert k v n)
IsCovered-insert k v m n h j p = ground (arith, has-insert k j v n, h j)

IsCovered-insert_both {ℓ κ} :
    {A : Type ℓ} {B : Type κ} (k : Text) (v : A) (m : GoMap A) (n : GoMap B)
    → has k n ≡ true
    → IsCovered m n
    → IsCovered (insert k v m) n
IsCovered-insert_both k v m n e h j p = ground (arith, has-insert k j v m, eq_iff k j, h j)

module _ (k : Text) (d : DashboardLinkGroup) where
  -- Writing an entry under its own name keeps the invariant.
  pub set_detail-IsWellFormed :
      (m : Maps)
      → d.name ≡ k
      → IsWellFormed m
      → IsWellFormed (record m { details = insert k d m.details })
  set_detail-IsWellFormed m e w = record {
    links_covered = IsCovered-insert k d m.groups m.details w.links_covered;
    tiles_covered = IsCovered-insert k d m.tiles m.details w.tiles_covered;
    named = AreNamed-insert k d m.details e w.named;
    once = insert-IsMap k d m.details w.once;
  }

  -- Writing it only where the name is new does too, and then the name is there.
  abbrev pub set_if_new : Maps → Maps
  set_if_new m = record m { details = if has k m.details then m.details else insert k d m.details }

  pub set_if_new-IsWellFormed :
      (m : Maps) → d.name ≡ k → IsWellFormed m → IsWellFormed (set_if_new m)
  set_if_new-IsWellFormed m e w = elim (Bool-cases (has k m.details)) [
    | inl old ↦ rw old w
    | inr new ↦ rw new (set_detail-IsWellFormed m e w)
  ]

  pub has-set_if_new : (m : Maps) → has k (set_if_new m).details ≡ true
  has-set_if_new m = ground (arith, has-insert k k d m.details, eq_refl k)

-- A link or a tile under a name that has its details.
pub append_link-IsWellFormed :
    (k : Text) (link : DashboardLink) (m : Maps)
    → has k m.details ≡ true
    → IsWellFormed m
    → IsWellFormed (record m { groups = append_at k link m.groups })
unfolding append_at
append_link-IsWellFormed k link m e w = record {
  links_covered = IsCovered-insert_both k _ m.groups m.details e w.links_covered;
  tiles_covered = w.tiles_covered;
  named = w.named;
  once = w.once;
}

pub append_tile-IsWellFormed :
    (k : Text) (tile : DashboardInfoTile) (m : Maps)
    → has k m.details ≡ true
    → IsWellFormed m
    → IsWellFormed (record m { tiles = append_at k tile m.tiles })
unfolding append_at
append_tile-IsWellFormed k tile m e w = record {
  links_covered = w.links_covered;
  tiles_covered = IsCovered-insert_both k _ m.tiles m.details e w.tiles_covered;
  named = w.named;
  once = w.once;
}

-- `ensureLinkGroup` and the append keep the invariant.
pub add_link-IsWellFormed :
    (k : Text) (link : DashboardLink) (m : Maps) → IsWellFormed m → IsWellFormed (add_link k link m)
unfolding add_link ensure_link_group
add_link-IsWellFormed k link m w =
    let d = named_group k (codes "local") in
    append_link-IsWellFormed k link (set_if_new k d m) (has-set_if_new k d m)
      (set_if_new-IsWellFormed k d m refl w)

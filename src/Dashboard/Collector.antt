-- ===== src/Dashboard/Collector.antt =====
-- Functions of web/dashboard.go that fill the maps and return an `error`. The maps are shared and
-- mutated in place, so what was written before an error stays written.
pub mod Keeps
pub mod Succeeds
use cupboard.Prelude.{
  Bool, true, false, List, [], ◌∷◌, ◌++◌, Option, none, some, Result, ok, err, if◌then◌else◌,
}
use cupboard.Text.{Text, codes, ◌==◌}
use cupboard.Kube.{KubeError, GroupVersion}
use cupboard.Kube.Reader.{Discovery, Labels}
use cupboard.Dashboard.Types.{DashboardLink}
use cupboard.Dashboard.Meta.{ResourceMeta, label_enabled}
use cupboard.Dashboard.Groups.{member}
use cupboard.Dashboard.Maps.{Maps, add_link}

-- The error, `none` for nil, and the maps after the call.
abbrev pub Collector : Type 0
Collector = Maps → Option KubeError × Maps

-- `return nil`
unfoldable pub done : Collector
done m = (none, m)

-- `for _, item := range items { ... }` with a body that changes the maps.
unfoldable pub for_items {ℓ} : {A : Type ℓ} → (A → Maps → Maps) → List A → Maps → Maps
for_items body [] m = m
for_items body (x ∷ xs) m = for_items body xs (body x m)

-- `if err := c.List(...); err != nil { return err }` and the loop over the items.
unfoldable pub collect_list {ℓ} :
    {A : Type ℓ} → Result KubeError (List A) → (A → Maps → Maps) → Collector
unfolding for_items
collect_list (err e) body m = (some e, m)
collect_list (ok items) body m = (none, for_items body items m)

-- The same with `return client.IgnoreNotFound(err)`.
unfoldable pub collect_list_if_found {ℓ} :
    {A : Type ℓ} → Result KubeError (List A) → (A → Maps → Maps) → Collector
unfolding for_items
collect_list_if_found (err e) body m = (if e.not_found then none else some e, m)
collect_list_if_found (ok items) body m = (none, for_items body items m)

-- `if err := first; err != nil { return err }` and then `next`.
unfoldable pub and_then : Collector → Collector → Collector
and_then first next m = let r = first m in elim r.0 [ some e ↦ (some e, r.1) | none ↦ next r.1 ]

-- `if err := collect; err != nil { log }`: the error is dropped, and what was written stays.
unfoldable pub log_error : Collector → Maps → Maps
log_error collect m = (collect m).1

-- `if test { collect }`
unfoldable pub when : Bool → Collector → Collector
unfolding done
when test collect = if test then collect else done

-- `resourceAvailable`
unfoldable pub resource_available : Option Discovery → GroupVersion → Text → Bool
resource_available none gv kind = false
resource_available (some discovery) gv kind = elim (discovery.server_resources gv) [
  | err e ↦ false
  | ok kinds ↦ member kind kinds
]

abbrev pub enabled_labels : Labels
enabled_labels = (label_enabled, codes "true") ∷ []

-- The `DashboardLink` of a labelled resource.
abbrev pub resource_link : ResourceMeta → Text → DashboardLink
resource_link meta source = record {
  name = meta.name;
  link_group = codes "";
  url = meta.url;
  target = meta.target;
  icon = meta.icon;
  source = source;
  metadata = codes "";
  groups = [];
  replicate = meta.replicate;
}

-- The end of the loop body of each collector of labelled resources.
unfoldable pub add_resource : Text → ResourceMeta → Maps → Maps
add_resource source meta m =
    if meta.group == codes ""
    then m
    else if meta.name == codes ""
    then m
    else if meta.url == codes ""
    then m
    else add_link meta.group (resource_link meta source) m

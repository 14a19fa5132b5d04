-- ===== src/Dashboard/Collector/Succeeds.antt =====
-- Collectors that return no error, one rule for each way to build one.
use cupboard.Prelude.{
  Bool, true, false, List, [], ◌∷◌, Option, none, Result, ok, err, ◌≡◌, refl, if◌then◌else◌,
}
use cupboard.Text.{Text}
use cupboard.Kube.{KubeError, GroupVersion}
use cupboard.Kube.Reader.{Discovery}
use cupboard.Dashboard.Maps.{Maps}
use cupboard.Dashboard.Collector.{
  Collector, done, collect_list, collect_list_if_found, and_then, when, resource_available,
}
use cupboard.Dashboard.Merge.{first_available}

pub record Succeeds (f : Collector) : Type 0 where
  pub at : (m : Maps) → (f m).0 ≡ none

-- An answer of a list call that the collector does not fail on: items, or for some collectors that
-- the kind is not found.
abbrev pub IsListed {ℓ} : {A : Type ℓ} → Result KubeError A → Type 0
IsListed (ok xs) = Unit
IsListed (err e) = ⊥

abbrev pub IsListedOrMissing {ℓ} : {A : Type ℓ} → Result KubeError A → Type 0
IsListedOrMissing (ok xs) = Unit
IsListedOrMissing (err e) = e.not_found ≡ true

pub Succeeds-done : Succeeds done
unfolding done
Succeeds-done = record { at = λ m. refl }

pub Succeeds-collect_list :
    {A : Type 0} (body : A → Maps → Maps) (items : Result KubeError (List A))
    → IsListed items
    → Succeeds (collect_list items body)
unfolding collect_list
Succeeds-collect_list body (err e) h = elim h [ ]
Succeeds-collect_list body (ok items) h = record { at = λ m. refl }

pub Succeeds-collect_list_if_found :
    {A : Type 0} (body : A → Maps → Maps) (items : Result KubeError (List A))
    → IsListedOrMissing items
    → Succeeds (collect_list_if_found items body)
unfolding collect_list_if_found
Succeeds-collect_list_if_found body (err e) h = record { at = λ m. rw h refl }
Succeeds-collect_list_if_found body (ok items) h = record { at = λ m. refl }

pub Succeeds-and_then : (f g : Collector) → Succeeds f → Succeeds g → Succeeds (and_then f g)
unfolding and_then
Succeeds-and_then f g sf sg = record { at = λ m. rw (and_then, sf.at m) (sg.at _) }

pub Succeeds-when : (b : Bool) (f : Collector) → Succeeds f → Succeeds (when b f)
unfolding when
Succeeds-when true f sf = sf
Succeeds-when false f sf = Succeeds-done

Succeeds-if : (b : Bool) {f g : Collector} → Succeeds f → Succeeds g → Succeeds (if b then f else g)
Succeeds-if true sf sg = sf
Succeeds-if false sf sg = sg

pub Succeeds-first_available :
    (discovery : Option Discovery) (kind : Text) (collect : GroupVersion → Collector)
    (gvs : List GroupVersion)
    → ((gv : GroupVersion) → Succeeds (collect gv))
    → Succeeds (first_available discovery kind collect gvs)
unfolding first_available
Succeeds-first_available discovery kind collect [] h = Succeeds-done
Succeeds-first_available discovery kind collect (gv ∷ gvs) h =
    Succeeds-if (resource_available discovery gv kind) (h gv)
      (Succeeds-first_available discovery kind collect gvs h)

pub ruleset succeeds_rules = (
  Succeeds-done, Succeeds-collect_list, Succeeds-collect_list_if_found, Succeeds-and_then,
  Succeeds-when, Succeeds-first_available,
)

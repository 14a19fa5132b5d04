-- ===== src/Dashboard/Collector/Keeps.antt =====
-- Invariants of collectors, one rule for each way to build one.
use cupboard.Prelude.{
  if◌then◌else◌, Bool, true, false, List, [], ◌∷◌, Option, none, some, Result, ok, err,
}
use cupboard.Kube.{KubeError}
use cupboard.Dashboard.Maps.{Maps}
use cupboard.Dashboard.Collector.{
  Collector, done, for_items, collect_list, collect_list_if_found, and_then, log_error, when,
}

-- A change of the maps keeps `P`.
pub record Preserves (P : Maps → Type 0) (f : Maps → Maps) : Type 0 where
  pub at : (m : Maps) → P m → P (f m)

-- A collector keeps `P`, whether it returns nil or an error.
pub record Keeps (P : Maps → Type 0) (f : Collector) : Type 0 where
  pub at : (m : Maps) → P m → P (f m).1

module _ {P : Maps → Type 0} where
  pub Preserves-for_items :
      {A : Type 0} {body : A → Maps → Maps} (items : List A)
      → ((x : A) → Preserves P (body x))
      → Preserves P (for_items body items)
  unfolding for_items
  Preserves-for_items [] h = record { at = λ m p. p }
  Preserves-for_items (x ∷ xs) h = record {
    at = λ m p. (Preserves-for_items xs h).at _ ((h x).at m p);
  }

  pub Keeps-done : Keeps P done
  unfolding done
  Keeps-done = record { at = λ m p. p }

  pub Keeps-collect_list :
      {A : Type 0} {body : A → Maps → Maps} (items : Result KubeError (List A))
      → ((x : A) → Preserves P (body x))
      → Keeps P (collect_list items body)
  unfolding collect_list
  Keeps-collect_list (err e) h = record { at = λ m p. p }
  Keeps-collect_list (ok items) h = record { at = (Preserves-for_items items h).at }

  pub Keeps-collect_list_if_found :
      {A : Type 0} {body : A → Maps → Maps} (items : Result KubeError (List A))
      → ((x : A) → Preserves P (body x))
      → Keeps P (collect_list_if_found items body)
  unfolding collect_list_if_found
  Keeps-collect_list_if_found (err e) h = record { at = λ m p. p }
  Keeps-collect_list_if_found (ok items) h = record { at = (Preserves-for_items items h).at }

  after_error :
      (o : Option KubeError) (m : Maps) (g : Collector)
      → Keeps P g
      → P m
      → P (elim o as (λ _. Option KubeError × Maps) [ some e ↦ (some e, m) | none ↦ g m ]).1
  after_error none m g kg p = kg.at m p
  after_error (some e) m g kg p = p

  pub Keeps-and_then : (f g : Collector) → Keeps P f → Keeps P g → Keeps P (and_then f g)
  unfolding and_then
  Keeps-and_then f g kf kg = record { at = λ m p. after_error (f m).0 (f m).1 g kg (kf.at m p) }

  pub log_error-Preserves : (f : Collector) → Keeps P f → Preserves P (log_error f)
  unfolding log_error
  log_error-Preserves f kf = record { at = kf.at }

  pub Keeps-when : (b : Bool) (f : Collector) → Keeps P f → Keeps P (when b f)
  unfolding when
  Keeps-when true f kf = kf
  Keeps-when false f kf = Keeps-done

module _ {P : Maps → Type 0} where
  pub Keeps-if : (b : Bool) {f g : Collector} → Keeps P f → Keeps P g → Keeps P (if b then f else g)
  Keeps-if true kf kg = kf
  Keeps-if false kf kg = kg

pub ruleset keeps_rules =
    (Keeps-collect_list, Keeps-collect_list_if_found, Keeps-and_then, Keeps-when, Keeps-done)

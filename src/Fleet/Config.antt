-- ===== src/Fleet/Config.antt =====
-- internal/foreigncluster/config.go
use cupboard.Prelude.{
  Bool, false, ◌&&◌, ◌||◌, List, [], ◌∷◌, ◌++◌, Option, none, some, Result, ok, err, if◌then◌else◌,
  ◌≡◌, refl, arith, Bool-cases, inl, inr, subst, Option-cases,
}
use cupboard.Prelude.Lists.{All}
use cupboard.Text.{Text, codes, ◌==◌}
use cupboard.Text.Trim.{trim_space, is_blank}
use cupboard.Text.Split.{cut}

abbrev pub auth_azure_workload_identity : Text
auth_azure_workload_identity = codes "azure-workload-identity"

abbrev pub default_aks_server_app_id : Text
default_aks_server_app_id = codes "6dae42f8-4368-4678-94ff-3960e28e3630"

pub record ClusterConfig : Type 0 where
  pub endpoint : Text
  pub auth_method : Text
  pub azure_scope : Text

-- `isAzureWorkloadIdentity`
unfoldable pub is_azure_workload_identity : ClusterConfig → Bool
is_azure_workload_identity c = c.auth_method == auth_azure_workload_identity

-- `kubeconfigContext`
unfoldable pub kubeconfig_context : ClusterConfig → Text
kubeconfig_context c = if is_azure_workload_identity c then codes "" else c.auth_method

-- The scope after a colon, where the method before it is Azure's.
split_scope : ClusterConfig → ClusterConfig
split_scope cfg = elim (cut cfg.auth_method b':') [
  | none ↦ cfg
  | some parts ↦
      if parts.0 == auth_azure_workload_identity
      then record cfg {
        auth_method = auth_azure_workload_identity;
        azure_scope = trim_space parts.1;
      }
      else cfg
]

default_scope : ClusterConfig → ClusterConfig
default_scope cfg =
    if is_azure_workload_identity cfg && cfg.azure_scope == codes ""
    then record cfg { azure_scope = default_aks_server_app_id ++ codes "/.default" }
    else cfg

cluster_of : Option (Text × Text) → Option ClusterConfig
unfolding split_scope default_scope
cluster_of none = none
cluster_of (some (ep, auth)) =
    if is_blank ep || is_blank auth
    then none
    else some (
        default_scope (
          split_scope (record {
            endpoint = trim_space ep;
            auth_method = trim_space auth;
            azure_scope = codes "";
          })))

-- The body of the loop, on an entry that is trimmed and not empty; `none` is the error about it.
unfoldable pub parse_cluster : Text → Option ClusterConfig
unfolding cluster_of
parse_cluster entry = cluster_of (cut entry b'=')

prepend :
    Option ClusterConfig
    → Text
    → Result Text (List ClusterConfig)
    → Result Text (List ClusterConfig)
prepend none entry rest = err entry
prepend (some cfg) entry (err e) = err e
prepend (some cfg) entry (ok cfgs) = ok (cfg ∷ cfgs)

-- `ParseClusterList`; the error is the one about the entry that it names.
unfoldable pub parse_cluster_list : List Text → Result Text (List ClusterConfig)
unfolding prepend
parse_cluster_list [] = ok []
parse_cluster_list (raw ∷ entries) =
    let entry = trim_space raw in
    let rest = parse_cluster_list entries in
    if entry == codes "" then rest else prepend (parse_cluster entry) entry rest

-- A usable configuration: an endpoint, and either Azure's method with a scope, or a context.
abbrev pub IsUsable : ClusterConfig → Type 0
IsUsable c =
    ((c.endpoint == codes "") ≡ false)
    × ((if is_azure_workload_identity c
          then c.azure_scope == codes ""
          else kubeconfig_context c == codes "")
        ≡ false)

default_scope-IsUsable :
    (c : ClusterConfig)
    → (c.endpoint == codes "") ≡ false
    → (c.auth_method == codes "") ≡ false
    → IsUsable (default_scope c)
unfolding default_scope is_azure_workload_identity kubeconfig_context ◌==◌
default_scope-IsUsable c e a = elim (Bool-cases (c.auth_method == auth_azure_workload_identity)) [
  | inr p ↦ rw p (e, rw p a)
  | inl p ↦ elim (Bool-cases (c.azure_scope == codes "")) [
    | inl q ↦ rw (p, q) (e, rw p refl)
    | inr q ↦ rw (p, q) (e, rw p q)
  ]
]

split_scope-endpoint : (c : ClusterConfig) → (split_scope c).endpoint ≡ c.endpoint
unfolding split_scope
split_scope-endpoint c = elim (Option-cases (cut c.auth_method b':')) [
  | inl p ↦ rw (split_scope, p) refl
  | inr (parts, p) ↦ elim (Bool-cases (parts.0 == auth_azure_workload_identity)) [
    | inl q ↦ rw (split_scope, p, q) refl
    | inr q ↦ rw (split_scope, p, q) refl
  ]
]

split_scope-method :
    (c : ClusterConfig)
    → (c.auth_method == codes "") ≡ false
    → ((split_scope c).auth_method == codes "") ≡ false
unfolding split_scope
split_scope-method c a = elim (Option-cases (cut c.auth_method b':')) [
  | inl p ↦ rw (split_scope, p) a
  | inr (parts, p) ↦ elim (Bool-cases (parts.0 == auth_azure_workload_identity)) [
    | inl q ↦ rw (split_scope, p, q) (unfold ◌==◌ in refl)
    | inr q ↦ rw (split_scope, p, q) a
  ]
]

cluster_of-IsUsable :
    (parts : Option (Text × Text)) (c : ClusterConfig) → cluster_of parts ≡ some c → IsUsable c
unfolding cluster_of is_blank
cluster_of-IsUsable none c h = absurd (ground arith)
cluster_of-IsUsable (some (ep, auth)) c h =
    let cfg : ClusterConfig = record {
      endpoint = trim_space ep;
      auth_method = trim_space auth;
      azure_scope = codes "";
    } in
    let named : (trim_space ep == codes "") ≡ false = ground arith in
    let method : (trim_space auth == codes "") ≡ false = ground arith in
    let same : default_scope (split_scope cfg) ≡ c = ground arith in
    subst IsUsable same (
      default_scope-IsUsable (split_scope cfg) (rw (split_scope-endpoint cfg) named)
        (split_scope-method cfg method))

-- All clusters of a result are usable.
abbrev AllUsable : Result Text (List ClusterConfig) → Type 0
AllUsable (err e) = Unit
AllUsable (ok cfgs) = All IsUsable cfgs

prepend-AllUsable :
    (parsed : Option ClusterConfig) (entry : Text) (rest : Result Text (List ClusterConfig))
    → ((c : ClusterConfig) → parsed ≡ some c → IsUsable c)
    → AllUsable rest
    → AllUsable (prepend parsed entry rest)
unfolding prepend
prepend-AllUsable none entry rest h k = tt
prepend-AllUsable (some c) entry (err e) h k = tt
prepend-AllUsable (some c) entry (ok cfgs) h k = (h c refl, k)

parse_cluster_list-AllUsable : (entries : List Text) → AllUsable (parse_cluster_list entries)
unfolding parse_cluster_list parse_cluster
parse_cluster_list-AllUsable [] = tt
parse_cluster_list-AllUsable (raw ∷ entries) = elim (Bool-cases (trim_space raw == codes "")) [
  | inl e ↦ rw e (parse_cluster_list-AllUsable entries)
  | inr e ↦ rw e (
      prepend-AllUsable (parse_cluster (trim_space raw)) (trim_space raw)
        (parse_cluster_list entries) (cluster_of-IsUsable (cut (trim_space raw) b'='))
        (parse_cluster_list-AllUsable entries))
]

-- Each cluster of a list that is accepted has an endpoint, and either Azure's method with a scope or
-- a context of the kubeconfig.
pub parse_cluster_list-IsUsable :
    (entries : List Text) (cfgs : List ClusterConfig)
    → parse_cluster_list entries ≡ ok cfgs
    → All IsUsable cfgs
parse_cluster_list-IsUsable entries cfgs h =
    subst AllUsable h (parse_cluster_list-AllUsable entries)

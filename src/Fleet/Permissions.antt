-- ===== src/Fleet/Permissions.antt =====
-- `checkPermissions` of internal/foreigncluster/manager.go: what it warns of. A warning is a line of
-- the log.
use cupboard.Prelude.{
  map, List, [], ◌∷◌, Option, none, some, ok, err, if◌then◌else◌, ◌++◌, ◌≡◌, ◌↔◌, ◌&&◌, true, false,
  Bool, Bool-cases, inl, inr, map, subst, sym,
}
use cupboard.Prelude.Lists.{Any}
use cupboard.Text.{Text, codes}
use cupboard.Dashboard.Groups.{member}
use cupboard.Kube.{GroupVersionKind, KubeError}
use cupboard.Kube.Reader.{Discovery}
use cupboard.Fleet.Manager.{Manager, ClusterHandle}

-- `probeResource`: the kind, with its group and version.
abbrev probe_resource : Text → Text → Text → GroupVersionKind
probe_resource group version kind = record {
  group_version = record { group = group; version = version };
  kind = kind;
}

abbrev pub dashboard_probe_resources : List GroupVersionKind
dashboard_probe_resources =
    probe_resource (codes "networking.k8s.io") (codes "v1") (codes "Ingress")
    ∷ probe_resource (codes "") (codes "v1") (codes "Service")
    ∷ probe_resource (codes "gateway.networking.k8s.io") (codes "v1") (codes "HTTPRoute")
    ∷ probe_resource (codes "gateway.networking.k8s.io") (codes "v1") (codes "GRPCRoute")
    ∷ probe_resource (codes "gateway.networking.k8s.io") (codes "v1") (codes "TLSRoute")
    ∷ probe_resource (codes "gateway.networking.k8s.io") (codes "v1alpha2") (codes "TCPRoute")
    ∷ probe_resource (codes "traefik.io") (codes "v1alpha1") (codes "IngressRoute")
    ∷ probe_resource (codes "traefik.containo.us") (codes "v1alpha1") (codes "IngressRoute")
    ∷ []

-- `List` of one object, given the kind of the list, for a client: its error, if any.
abbrev pub ListOne : Type 0
ListOne = GroupVersionKind → Option KubeError

abbrev pub list_kind : GroupVersionKind → GroupVersionKind
list_kind p = record p { kind = p.kind ++ codes "List" }

unfoldable pub is_denied : Option KubeError → Bool
is_denied none = false
is_denied (some e) = e.denied

-- Whether the cluster serves the kind.
unfoldable pub is_served : Discovery → GroupVersionKind → Bool
is_served discovery p = elim (discovery.server_resources p.group_version) [
  | err e ↦ false
  | ok kinds ↦ member p.kind kinds
]

-- Whether a probe leads to a warning.
unfoldable pub is_warned : Discovery → ListOne → GroupVersionKind → Bool
is_warned discovery list_one p = is_served discovery p && is_denied (list_one (list_kind p))

-- The loop over the probes: those that it warns of.
unfoldable pub warnings : Discovery → ListOne → List GroupVersionKind → List GroupVersionKind
warnings discovery list_one [] = []
warnings discovery list_one (p ∷ ps) =
    let rest = warnings discovery list_one ps in
    if is_warned discovery list_one p then p ∷ rest else rest

unfoldable pub check_permissions : Discovery → ListOne → List GroupVersionKind
check_permissions discovery list_one = warnings discovery list_one dashboard_probe_resources

-- The warnings about one cluster, by its endpoint; a handle without clients has none.
unfoldable pub check_handle : (Text → ListOne) → ClusterHandle → List (Text × GroupVersionKind)
check_handle list_one h = elim h.clients [
  | none ↦ []
  | some clients ↦
      map (λ p. (h.cfg.endpoint, p)) (check_permissions clients.1 (list_one h.cfg.endpoint))
]

check_handles : (Text → ListOne) → List ClusterHandle → List (Text × GroupVersionKind)
check_handles list_one [] = []
check_handles list_one (h ∷ hs) =
    let rest = check_handles list_one hs in
    if h.ready then check_handle list_one h ++ rest else rest

-- `checkAllPermissions`, on what listing returns for each endpoint.
unfoldable pub check_all_permissions : (Text → ListOne) → Manager → List (Text × GroupVersionKind)
unfolding check_handles
check_all_permissions list_one m = check_handles list_one m.handles

warning_of :
    (discovery : Discovery) (list_one : ListOne) (p : GroupVersionKind) (ps : List GroupVersionKind)
    → Any (λ q. q ≡ p) (warnings discovery list_one ps)
    → Any (λ q. q ≡ p) ps × (is_warned discovery list_one p ≡ true)
unfolding warnings
warning_of discovery list_one p [] i = absurd i
warning_of discovery list_one p (q ∷ ps) i = elim (Bool-cases (is_warned discovery list_one q)) [
  | inr e ↦
      let k : Any (λ x. x ≡ p) ps × (is_warned discovery list_one p ≡ true) =
        warning_of discovery list_one p ps (rw (warnings, e) at i) in
      (inr k.0, k.1)
  | inl e ↦ elim (rw (warnings, e) at i) [
    | inl same ↦ (inl same, subst (λ x. is_warned discovery list_one x ≡ true) same e)
    | inr later ↦
        let k : Any (λ x. x ≡ p) ps × (is_warned discovery list_one p ≡ true) =
          warning_of discovery list_one p ps later in
        (inr k.0, k.1)
  ]
]

warned_in :
    (discovery : Discovery) (list_one : ListOne) (p : GroupVersionKind) (ps : List GroupVersionKind)
    → is_warned discovery list_one p ≡ true
    → Any (λ q. q ≡ p) ps
    → Any (λ q. q ≡ p) (warnings discovery list_one ps)
unfolding warnings
warned_in discovery list_one p [] t i = i
warned_in discovery list_one p (q ∷ ps) t (inl same) =
    let e : is_warned discovery list_one q ≡ true =
      subst (λ x. is_warned discovery list_one x ≡ true) (sym same) t in
    rw (warnings, e) (inl same)
warned_in discovery list_one p (q ∷ ps) t (inr i) =
    elim (Bool-cases (is_warned discovery list_one q)) [
      | inl e ↦ rw (warnings, e) (inr (warned_in discovery list_one p ps t i))
      | inr e ↦ rw (warnings, e) (warned_in discovery list_one p ps t i)
    ]

-- A warning about a cluster is given exactly for the probes that it serves and refuses to list.
check_permissions_iff :
    (discovery : Discovery) (list_one : ListOne) (p : GroupVersionKind)
    → Any (λ q. q ≡ p) (check_permissions discovery list_one)
      ↔ (Any (λ q. q ≡ p) dashboard_probe_resources × (is_warned discovery list_one p ≡ true))
unfolding check_permissions
check_permissions_iff discovery list_one p = (
  warning_of discovery list_one p dashboard_probe_resources,
  λ h. warned_in discovery list_one p dashboard_probe_resources h.1 h.0,
)

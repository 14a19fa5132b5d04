-- ===== src/Fleet/Client.antt =====
-- internal/foreigncluster/client.go, `LoadFleetCAPool`, and `connect` of manager.go.
use cupboard.Prelude.{
  ◌++◌, refl, arith, subst, Bool-cases, Option-cases, inl, inr, not, ◌&&◌, Option, none, some,
  Result, ok, err, ◌>>=◌, if◌then◌else◌, ◌≡◌,
}
use cupboard.Text.{Text, codes, ◌==◌}
use cupboard.Text.Trim.{is_blank}
use cupboard.Kube.Reader.{Reader, Discovery}
use cupboard.Sync.Tls.{Files}
use cupboard.Fleet.Azure.{Azure, AzureError, AzureTokenSource, new_azure_token_source}
use cupboard.Fleet.Config.{ClusterConfig, is_azure_workload_identity, kubeconfig_context}

pub data ClientError : Type 0 where
  azure : Text → AzureError → ClientError
  -- "kubeconfig %q not accessible", "building REST config from kubeconfig context %q", and "loading
  -- kubeconfig client certificate"
  inaccessible : Text → Text → Text → ClientError
  no_rest_config : Text → Text → Text → ClientError
  bad_certificate : Text → Text → ClientError
  -- "building HTTP client", "... REST mapper", "... client" and "... discovery client"
  building : Text → Text → ClientError

-- The transport that is set, with the pool of certificates to trust, `none` for the system's.
pub data Transport : Type 0 where
  bearer : AzureTokenSource → Option Text → Transport
  tls : Option Text → Option Text → Transport

-- The fields of a `rest.Config` that the program reads or sets.
pub record RestConfig : Type 0 where
  pub host : Text
  pub cert_data : Text
  pub key_data : Text
  pub ca : Text
  pub transport : Option Transport

-- What the files, package `clientcmd` and the constructors of the clients answer.
pub record Kubernetes : Type 0 where
  pub azure_env : Azure
  pub recommended_home_file : Text
  pub stat : Text → Option Text
  -- `ClientConfig()` of a file, with a context
  pub client_config : Text → Text → Result Text RestConfig
  pub key_pair : Text → Text → Result Text Text
  -- `HTTPClientFor`: the error of it, if any; and the clients of a configuration
  pub http_client_error : RestConfig → Option Text
  pub rest_mapper_error : RestConfig → Option Text
  pub new_client : RestConfig → Result Text Reader
  pub new_discovery : RestConfig → Result Text Discovery

azure_config :
    ClusterConfig → Option Text → Result AzureError AzureTokenSource → Result ClientError RestConfig
azure_config cfg ca_pool (err e) = err (azure cfg.endpoint e)
azure_config cfg ca_pool (ok source) = ok (record {
  host = cfg.endpoint;
  cert_data = codes "";
  key_data = codes "";
  ca = codes "";
  transport = some (bearer source ca_pool);
})

-- `buildAzureRESTConfig`
unfoldable pub build_azure_rest_config :
    Kubernetes → ClusterConfig → Option Text → Result ClientError RestConfig
unfolding azure_config
build_azure_rest_config k cfg ca_pool =
    azure_config cfg ca_pool (new_azure_token_source k.azure_env cfg.azure_scope)

-- The configuration with the trust store in place of its own TLS settings.
abbrev pub trusting : RestConfig → Text → Option Text → RestConfig
trusting c pool client_cert = record c {
  cert_data = codes "";
  key_data = codes "";
  ca = codes "";
  transport = some (tls (some pool) client_cert);
}

with_certificate : RestConfig → Text → Result Text Text → Result ClientError RestConfig
with_certificate c pool (err e) = err (bad_certificate c.host e)
with_certificate c pool (ok cert) = ok (trusting c pool (some cert))

-- The end of `buildKubeconfigRESTConfig`, on a configuration with the host set.
unfoldable pub trust : Kubernetes → Option Text → RestConfig → Result ClientError RestConfig
unfolding with_certificate
trust k none c = ok c
trust k (some pool) c =
    if not (c.cert_data == codes "") && not (c.key_data == codes "")
    then with_certificate c pool (k.key_pair c.cert_data c.key_data)
    else ok (trusting c pool none)

unfoldable pub kubeconfig_config :
    Kubernetes
    → ClusterConfig
    → Option Text
    → Text
    → Result Text RestConfig
    → Result ClientError RestConfig
unfolding trust
kubeconfig_config k cfg ca_pool context_name (err e) =
    err (no_rest_config cfg.endpoint context_name e)
kubeconfig_config k cfg ca_pool context_name (ok c) =
    trust k ca_pool (record c { host = cfg.endpoint })

unfoldable pub kubeconfig_path : Kubernetes → Text → Text
kubeconfig_path k path = if path == codes "" then k.recommended_home_file else path

-- `buildKubeconfigRESTConfig`
unfoldable pub build_kubeconfig_rest_config :
    Kubernetes → ClusterConfig → Option Text → Text → Result ClientError RestConfig
unfolding kubeconfig_config
build_kubeconfig_rest_config k cfg ca_pool given =
    let path = kubeconfig_path k given in
    let context_name = kubeconfig_context cfg in
    elim (k.stat path) [
      | some e ↦ err (inaccessible cfg.endpoint path e)
      | none ↦ kubeconfig_config k cfg ca_pool context_name (k.client_config path context_name)
    ]

-- `BuildRESTConfig`
unfoldable pub build_rest_config :
    Kubernetes → ClusterConfig → Option Text → Text → Result ClientError RestConfig
build_rest_config k cfg ca_pool path =
    if is_azure_workload_identity cfg
    then build_azure_rest_config k cfg ca_pool
    else build_kubeconfig_rest_config k cfg ca_pool path

-- An error of `HTTPClientFor` counts only without a transport of the configuration's own.
unfoldable pub http_client : Kubernetes → RestConfig → Result ClientError RestConfig
http_client k c = elim (k.http_client_error c) [
  | none ↦ ok c
  | some e ↦ elim c.transport [ some t ↦ ok c | none ↦ err (building (codes "HTTP client") e) ]
]

unfoldable pub built {ℓ} : {A : Type ℓ} → Text → Result Text A → Result ClientError A
built what (err e) = err (building what e)
built what (ok x) = ok x

unfoldable pub mapped : Kubernetes → RestConfig → Result ClientError RestConfig
mapped k c = elim (k.rest_mapper_error c) [
  | none ↦ ok c
  | some e ↦ err (building (codes "REST mapper") e)
]

-- `connect`: the clients that the handle gets.
unfoldable pub connect :
    Kubernetes → Option Text → Text → ClusterConfig → Result ClientError (Reader × Discovery)
connect k ca_pool path cfg =
    elim (build_rest_config k cfg ca_pool path >>= λ c. http_client k c >>= λ c. mapped k c) [
      | err e ↦ err e
      | ok c ↦ elim (built (codes "client") (k.new_client c)) [
        | err e ↦ err e
        | ok client ↦ elim (built (codes "discovery client") (k.new_discovery c)) [
          | err e ↦ err e
          | ok discovery ↦ ok (client, discovery)
        ]
      ]
    ]

-- `LoadFleetCAPool`: `none` for the system's authorities.
unfoldable pub load_fleet_ca_pool : Files → Text → Result Text (Option Text)
load_fleet_ca_pool files path = if is_blank path then ok none else elim (files.read_file path) [
  | err e ↦ err (codes "reading fleet trust store from " ++ (path ++ (codes ": " ++ e)))
  | ok pem ↦
      if files.has_certs pem
      then ok (some pem)
      else err (codes "no valid PEM certificates found in fleet trust store " ++ path)
]

-- A transport that trusts the certificates of a pool, and no others.
abbrev pub TrustsOnly : Text → Option Transport → Type 0
TrustsOnly pool (some (bearer source (some p))) = p ≡ pool
TrustsOnly pool (some (tls (some p) cert)) = p ≡ pool
TrustsOnly pool other = ⊥

-- A configuration for a cluster, with such a transport.
abbrev pub IsPinned : ClusterConfig → Text → RestConfig → Type 0
IsPinned cfg pool c = (c.host ≡ cfg.endpoint) × TrustsOnly pool c.transport

not_ok :
    {A : Type 0} {e : ClientError} {c : RestConfig}
    → ◌≡◌ {A = Result ClientError RestConfig} (err e) (ok c)
    → A
not_ok h = absurd (ground arith)

ok_path : {c d : RestConfig} → ◌≡◌ {A = Result ClientError RestConfig} (ok c) (ok d) → c ≡ d
ok_path h = ground arith

azure_config-IsPinned :
    (cfg : ClusterConfig) (pool : Text) (source : Result AzureError AzureTokenSource)
    (c : RestConfig)
    → azure_config cfg (some pool) source ≡ ok c
    → IsPinned cfg pool c
unfolding azure_config
azure_config-IsPinned cfg pool (err e) c h = absurd (ground arith)
azure_config-IsPinned cfg pool (ok source) c h = subst (IsPinned cfg pool) (ok_path h) (refl, refl)

with_certificate-IsPinned :
    (cfg : ClusterConfig) (pool : Text) (c d : RestConfig) (cert : Result Text Text)
    → c.host ≡ cfg.endpoint
    → with_certificate c pool cert ≡ ok d
    → IsPinned cfg pool d
unfolding with_certificate
with_certificate-IsPinned cfg pool c d (err e) n h = absurd (ground arith)
with_certificate-IsPinned cfg pool c d (ok cert) n h =
    subst (IsPinned cfg pool) (ok_path h) (n, refl)

trust-IsPinned :
    (k : Kubernetes) (cfg : ClusterConfig) (pool : Text) (c d : RestConfig)
    → c.host ≡ cfg.endpoint
    → trust k (some pool) c ≡ ok d
    → IsPinned cfg pool d
unfolding trust
trust-IsPinned k cfg pool c d n h =
    elim (Bool-cases (not (c.cert_data == codes "") && not (c.key_data == codes ""))) [
      | inl e ↦
          with_certificate-IsPinned cfg pool c d (k.key_pair c.cert_data c.key_data) n
            (rw (trust, e) at h)
      | inr e ↦ subst (IsPinned cfg pool) (ok_path (rw (trust, e) at h)) (n, refl)
    ]

kubeconfig_config-IsPinned :
    (k : Kubernetes) (cfg : ClusterConfig) (pool context_name : Text)
    (loaded : Result Text RestConfig) (d : RestConfig)
    → kubeconfig_config k cfg (some pool) context_name loaded ≡ ok d
    → IsPinned cfg pool d
unfolding kubeconfig_config
kubeconfig_config-IsPinned k cfg pool context_name (err e) d h = absurd (ground arith)
kubeconfig_config-IsPinned k cfg pool context_name (ok c) d h =
    trust-IsPinned k cfg pool (record c { host = cfg.endpoint }) d refl h

-- With a trust store, a configuration that is built for a cluster is for its endpoint, and its
-- connections trust the certificates of the store and no others, whatever the kubeconfig says.
pub build_rest_config-IsPinned :
    (k : Kubernetes) (cfg : ClusterConfig) (pool path : Text) (c : RestConfig)
    → build_rest_config k cfg (some pool) path ≡ ok c
    → IsPinned cfg pool c
unfolding build_rest_config build_azure_rest_config build_kubeconfig_rest_config
build_rest_config-IsPinned k cfg pool path c h =
    elim (Bool-cases (is_azure_workload_identity cfg)) [
      | inl a ↦
          azure_config-IsPinned cfg pool (new_azure_token_source k.azure_env cfg.azure_scope) c
            (rw (build_rest_config, a) at h)
      | inr a ↦ elim (Option-cases (k.stat (kubeconfig_path k path))) [
        | inl e ↦
            kubeconfig_config-IsPinned k cfg pool (kubeconfig_context cfg) _ c
              (rw (build_rest_config, a, build_kubeconfig_rest_config, e) at h)
        | inr (message, e) ↦
            not_ok (rw (build_rest_config, a, build_kubeconfig_rest_config, e) at h)
      ]
    ]

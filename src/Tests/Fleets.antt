-- ===== src/Tests/Fleets.antt =====
-- Two clusters, one of which can be connected to.
use cupboard.Prelude.{◌≤◌, subst, arith, [], ◌∷◌, ok, err, ◌≡◌, refl, if◌then◌else◌}
use cupboard.Text.{codes, ◌==◌}
use cupboard.Fleet.Config.{ClusterConfig, is_azure_workload_identity}
use cupboard.Fleet.Manager.{Connect, Manager, active_clusters}
use cupboard.Prelude.{some, none, inl, inr}
use cupboard.Prelude.Int.{plus, pos, pos_part}
use cupboard.Prelude.Lists.{Any}
use cupboard.Fleet.Client.{
  building, tls, Kubernetes, RestConfig, IsPinned, build_rest_config, build_rest_config-IsPinned,
}
use cupboard.Fleet.Config.{kubeconfig_context}
use cupboard.Fleet.Azure.{
  is_fresh, lifetime, TokenResult, TokenResult, Azure, AzureTokenSource, AzureCachedToken, token,
  exchange_token, lifetime,
}
use cupboard.Fleet.Expiry.{IsToken, HasShortLifetimes, token-IsToken, token_of-overflow}
use cupboard.Fleet.Laws.{
  after, connected, first_clients, active_clusters-after, active_clusters-Connects,
}
use cupboard.Tests.Fixtures.{reader, discovery}

abbrev azure : ClusterConfig
azure = record {
  endpoint = codes "https://aks:443";
  auth_method = codes "azure-workload-identity";
  azure_scope = codes "api://x";
}

abbrev home : ClusterConfig
home = record { endpoint = codes "https://home"; auth_method = codes "ctx"; azure_scope = codes "" }

-- Only the cluster at home can be connected to.
abbrev connect : Connect
connect cfg =
    if cfg.endpoint == codes "https://home"
    then ok (reader, discovery)
    else err (building (codes "client") (codes "no route"))

abbrev manager : Manager
manager = record { configs = azure ∷ home ∷ []; handles = [] }

-- Both clusters can be connected to.
abbrev connect_both : Connect
connect_both cfg = ok (reader, discovery)

active_clusters-after_example :
    active_clusters (after manager connect (connect_both ∷ connect ∷ []))
    ≡ connected (first_clients connect (connect_both ∷ connect ∷ [])) (azure ∷ home ∷ [])
active_clusters-after_example = active_clusters-after manager connect (connect_both ∷ connect ∷ [])

active_clusters-Connects_example :
    Any
      (λ i. i.name ≡ codes "https://aks:443")
      (active_clusters (after manager connect (connect ∷ connect_both ∷ [])))
active_clusters-Connects_example =
    active_clusters-Connects manager connect (connect ∷ connect_both ∷ []) azure (inl refl)
      (inr (inr (inl ((reader, discovery), refl))))

-- An environment with a token endpoint that answers.
abbrev azure_env : Azure
azure_env = record {
  getenv = λ name. codes "id";
  read_file = λ path. ok (codes " token\n");
  post_form = λ url form. ok (codes "answer");
  read_body = λ resp. ok resp;
  unmarshal = λ raw. ok (record {
    access_token = codes "secret";
    expires_in = pos 600;
    error = codes "";
    description = codes "";
  });
}

abbrev source : AzureTokenSource
source = record {
  tenant_id = codes "id";
  client_id = codes "id";
  token_file = codes "id";
  scope = codes "api://x";
  cached = some (record { value = codes "old"; expires_at = pos 1020000000000 });
}

abbrev fresh_token : AzureCachedToken
fresh_token = record { value = codes "secret"; expires_at = pos 1600000000000 }

azure_env-HasShortLifetimes : HasShortLifetimes azure_env
azure_env-HasShortLifetimes raw result e =
    let same : pos 600 ≡ result.expires_in = ground arith in
    subst (λ n. pos_part n ≤ 9223372036) same (omega arith)

token-IsToken_example : IsToken 1000000000000 (codes "secret") (some fresh_token)
unfolding token exchange_token cupboard.Fleet.Azure.token_or_refresh cupboard.Fleet.Azure.is_fresh
    cupboard.Fleet.Azure.refreshed cupboard.Fleet.Azure.token_for cupboard.Fleet.Azure.token_answer
    cupboard.Fleet.Azure.token_in cupboard.Fleet.Azure.token_of cupboard.Fleet.Azure.lifetime
    cupboard.Fleet.Azure.expires_in_or_hour cupboard.Prelude.Int.plus cupboard.Prelude.Int.◌*ℤ◌ ◌==◌
token-IsToken_example =
    token-IsToken azure_env 1000000000000 source (record source { cached = some fresh_token })
      (codes "secret") azure_env-HasShortLifetimes refl

-- An answer with a token for 10000000000 seconds, and what is made of it.
abbrev long_lived : TokenResult
long_lived = record {
  access_token = codes "secret";
  expires_in = pos 10000000000;
  error = codes "";
  description = codes "";
}

abbrev wrapped_token : AzureCachedToken
wrapped_token = record {
  value = codes "secret";
  expires_at = plus 1000000000000 (lifetime (pos 10000000000));
}

token_of-overflow_example : is_fresh 1000000000000 (some wrapped_token) ≡ none
unfolding cupboard.Fleet.Azure.token_of ◌==◌
token_of-overflow_example =
    token_of-overflow 1000000000000 1000000000000 10000000000 long_lived wrapped_token refl
      (omega arith) (omega arith) (omega arith) refl

abbrev kubernetes : Kubernetes
kubernetes = record {
  azure_env = azure_env;
  recommended_home_file = codes "/home/.kube/config";
  stat = λ path. none;
  client_config = λ path context. ok (record {
    host = codes "https://other";
    cert_data = codes "cert";
    key_data = codes "key";
    ca = codes "ca";
    transport = none;
  });
  key_pair = λ cert key. ok cert;
  http_client_error = λ c. none;
  rest_mapper_error = λ c. none;
  new_client = λ c. ok reader;
  new_discovery = λ c. ok discovery;
}

abbrev pinned : RestConfig
pinned = record {
  host = codes "https://home";
  cert_data = codes "";
  key_data = codes "";
  ca = codes "";
  transport = some (tls (some (codes "store")) (some (codes "cert")));
}

build_rest_config-IsPinned_example : IsPinned home (codes "store") pinned
unfolding build_rest_config is_azure_workload_identity kubeconfig_context ◌==◌
    cupboard.Fleet.Client.build_kubeconfig_rest_config
build_rest_config-IsPinned_example =
    build_rest_config-IsPinned kubernetes home (codes "store") (codes "") pinned refl

-- ===== src/Command/Start/Laws.antt =====
-- What is started is safe: peers that can be asked for a certificate are, and each foreign cluster
-- has a usable configuration.
use cupboard.Prelude.{
  ℕ, Bool, true, false, ◌&&◌, List, [], ◌∷◌, ◌++◌, Option, none, some, Result, ok, err, ◌>>=◌, ◌≡◌,
  refl, subst, arith, Bool-cases, inl, inr,
}
use cupboard.Prelude.Lists.{All, All-append}
use cupboard.Text.{Text, codes, ◌==◌}
use cupboard.Text.Trim.{is_blank}
use cupboard.Dashboard.Types.{LinkGroup, StaticLink, SyncOptions}
use cupboard.Fleet.Client.{load_fleet_ca_pool}
use cupboard.Fleet.Config.{ClusterConfig, parse_cluster_list, IsUsable, parse_cluster_list-IsUsable}
use cupboard.Sync.Tls.{
  TlsConfig, build_sync_server_tls_config, build_sync_server_tls_config_verifies,
  build_sync_http_client,
}
use cupboard.Web.Templates.{load_page_template, Parsed}
use cupboard.Command.Start.{
  new_manager_with, setup_runtime_config, template_failure, static_links, link_groups,
  enable_webhooks, sync_options, Viper, CommandLine, add_components, start_with, readyz,
  web_interface, sync_client, is_nil, healthz, Runnable, Exit, Machine, or_exit, unless_error, add,
  add_all, add_sync_client, wait_for_issuer, add_fleet, add_web_interface, add_sync_endpoint,
  controllers, webhooks, dashboard_notifier, sync_endpoint, fleet_manager,
}

bind-ok :
    {A B : Type 0} (m : Result Exit A) (f : A → Result Exit B) (b : B)
    → (m >>= f) ≡ ok b
    → (a : A) × ((m ≡ ok a) × (f a ≡ ok b))
bind-ok (ok a) f b h = (a, (refl, h))
bind-ok (err e) f b h = absurd (ground arith)

or_exit-ok : {A : Type 0} (r : Result Text A) (x : A) → or_exit r ≡ ok x → r ≡ ok x
unfolding or_exit
or_exit-ok (ok y) x h = ground arith
or_exit-ok (err e) x h = absurd (ground arith)

unless_error-ok : {A : Type 0} (e : Option Text) (x y : A) → unless_error e x ≡ ok y → x ≡ y
unfolding unless_error
unless_error-ok none x y h = ground arith
unless_error-ok (some e) x y h = absurd (ground arith)

module _ (m : Machine) (options : SyncOptions) where
  -- The properties of what is added.
  abbrev pub IsSafe : Runnable → Type 0
  IsSafe (fleet_manager configs) = All IsUsable configs
  IsSafe (sync_endpoint address (some tls)) =
      (options.tls.ca == codes "") ≡ false → tls.requires_client_cert ≡ true
  IsSafe r = Unit

  -- A step after which all that is added is safe, if it was before.
  abbrev IsKept : (List Runnable → Result Exit (List Runnable)) → Type 0
  IsKept step =
      (added out : List Runnable) → All IsSafe added → step added ≡ ok out → All IsSafe out

  add-IsKept : (r : Runnable) → IsSafe r → IsKept (add m r)
  unfolding add
  add-IsKept r s added out h e =
      subst (All IsSafe) (unless_error-ok (m.adding r) (added ++ r ∷ []) out e)
        (All-append IsSafe added (r ∷ []) h (s, tt))

  then-IsKept :
      (f g : List Runnable → Result Exit (List Runnable))
      → IsKept f
      → IsKept g
      → IsKept (λ added. f added >>= g)
  then-IsKept f g p q added out h e =
      let k : (mid : List Runnable) × ((f added ≡ ok mid) × (g mid ≡ ok out)) =
        bind-ok (f added) g out e in
      q k.0 out (p added k.0 h k.1.0) k.1.1

  unchanged :
      (added out : List Runnable)
      → All IsSafe added
      → ◌≡◌ {A = Result Exit (List Runnable)} (ok added) (ok out)
      → All IsSafe out
  unchanged added out h e = subst (All IsSafe) (ground arith) h

  add_all-IsKept : (rs : List Runnable) → All IsSafe rs → IsKept (add_all m rs)
  unfolding add_all
  add_all-IsKept [] s added out h e = unchanged added out h e
  add_all-IsKept (r ∷ rs) (s, k) added out h e =
      then-IsKept (add m r) (add_all m rs) (add-IsKept r s) (add_all-IsKept rs k) added out h e

  add_sync_client-IsKept : IsKept (add_sync_client m options)
  unfolding add_sync_client
  add_sync_client-IsKept added out h e =
      elim (Bool-cases (is_nil options.urls && is_nil options.srv_records)) [
        | inl t ↦ unchanged added out h (rw (add_sync_client, t) at e)
        | inr t ↦
            let k : (client : Option TlsConfig) × ((or_exit
                      (build_sync_http_client m.files options.tls)
                    ≡ ok client)
                  × (add m (sync_client options) added ≡ ok out)) =
              bind-ok _ _ out (rw (add_sync_client, t) at e) in
            add-IsKept (sync_client options) tt added out h k.1.1
      ]

  wait_for_issuer-IsKept :
      (rounds : ℕ) (skips : Bool) (issuer_url : Text)
      → IsKept (wait_for_issuer m rounds skips issuer_url)
  unfolding wait_for_issuer
  wait_for_issuer-IsKept rounds skips issuer_url added out h e =
      unchanged added out h (ground (arith, e))

  add_fleet-IsKept :
      (trust_store : Text) (entries : List Text) → IsKept (add_fleet m trust_store entries)
  unfolding add_fleet
  add_fleet-IsKept trust_store entries added out h e = elim (Bool-cases (is_nil entries)) [
    | inl t ↦ unchanged added out h (rw (add_fleet, t) at e)
    | inr t ↦
        let k : (configs : List ClusterConfig) × (_ × (_ ≡ ok out)) =
          bind-ok (or_exit (parse_cluster_list entries)) _ out (rw (add_fleet, t) at e) in
        let l : (pool : Option Text) × (_ × (_ ≡ ok out)) =
          bind-ok (or_exit (load_fleet_ca_pool m.files trust_store)) _ out k.1.1 in
        add-IsKept (fleet_manager k.0)
          (parse_cluster_list-IsUsable entries k.0
            (or_exit-ok (parse_cluster_list entries) k.0 k.1.0))
          added out h l.1.1
  ]

  add_web_interface-IsKept : (set address : Text) → IsKept (add_web_interface m set address)
  unfolding add_web_interface
  add_web_interface-IsKept set address added out h e =
      let k : (parsed : Parsed) × (_ × (_ ≡ ok out)) =
        bind-ok (template_failure (load_page_template m.templates m.parse_template set))
          (λ p. add m (web_interface address) added) out e in
      add-IsKept (web_interface address) tt added out h k.1.1

  endpoint-IsSafe :
      (tls : Option TlsConfig)
      → build_sync_server_tls_config m.files options.tls ≡ ok tls
      → IsSafe (sync_endpoint options.bind_address tls)
  endpoint-IsSafe none e = tt
  endpoint-IsSafe (some tls) e =
      λ ca. build_sync_server_tls_config_verifies m.files options.tls tls ca e

  add_sync_endpoint-IsKept : IsKept (add_sync_endpoint m options)
  unfolding add_sync_endpoint
  add_sync_endpoint-IsKept added out h e = elim (Bool-cases (is_blank options.bind_address)) [
    | inl t ↦ unchanged added out h (rw (add_sync_endpoint, t) at e)
    | inr t ↦
        let k : (tls : Option TlsConfig) × (_ × (_ ≡ ok out)) =
          bind-ok (or_exit (build_sync_server_tls_config m.files options.tls)) _ out
            (rw (add_sync_endpoint, t) at e) in
        add-IsKept (sync_endpoint options.bind_address k.0)
          (endpoint-IsSafe k.0 (or_exit-ok _ k.0 k.1.0)) added out h k.1.1
  ]

  rest-IsSafe :
      (enabled : Bool) → All IsSafe (controllers ++ (webhooks enabled ++ (healthz ∷ readyz ∷ [])))
  rest-IsSafe true = (tt, (tt, (tt, (tt, (tt, (tt, (tt, tt)))))))
  rest-IsSafe false = (tt, (tt, (tt, (tt, (tt, tt)))))

add_components-IsSafe :
    (m : Machine) (rounds : ℕ) (line : CommandLine) (config : Viper) (added : List Runnable)
    → add_components m rounds config line ≡ ok added
    → All (IsSafe m (sync_options config line)) added
unfolding add_components
add_components-IsSafe m rounds line config added e =
    let o : SyncOptions = sync_options config line in
    then-IsKept m o _ _ (add-IsKept m o dashboard_notifier tt)
      (then-IsKept m o _ _ (add_sync_client-IsKept m o) (
        then-IsKept m o _ _ (wait_for_issuer-IsKept m o rounds _ _) (
          then-IsKept m o _ _ (add_fleet-IsKept m o _ _) (
            then-IsKept m o _ _ (add_web_interface-IsKept m o _ _) (
              then-IsKept m o _ _ (add_sync_endpoint-IsKept m o)
                (add_all-IsKept m o _ (rest-IsSafe m o (enable_webhooks config))))))))
      [] added tt e

-- Everything that the program has added to its manager when it starts is safe: the foreign clusters
-- have usable configurations, and the sync endpoint asks peers for certificates if it serves TLS and
-- a CA is configured.
pub start_with-IsSafe :
    (m : Machine) (rounds : ℕ) (line : CommandLine) (config : Viper) (added : List Runnable)
    → start_with m rounds line config ≡ ok added
    → All (IsSafe m (sync_options config line)) added
unfolding start_with
start_with-IsSafe m rounds line config added e =
    let links : (x : List LinkGroup) × (_ × (_ ≡ ok added)) =
      bind-ok (or_exit (link_groups config)) _ added e in
    let runtime : (x : List StaticLink) × (_ × (_ ≡ ok added)) =
      bind-ok (or_exit (static_links config)) _ added links.1.1 in
    let cfg : (x : Text) × (_ × (_ ≡ ok added)) =
      bind-ok (or_exit (setup_runtime_config m (config.get_bool (codes "localTesting")))) _ added
        runtime.1.1 in
    let made : (x : Text) × (_ × (_ ≡ ok added)) =
      bind-ok (unless_error (new_manager_with m line config) cfg.0) _ added cfg.1.1 in
    let found : (x : Text) × (_ × (_ ≡ ok added)) =
      bind-ok (unless_error m.new_discovery_client made.0) _ added made.1.1 in
    add_components-IsSafe m rounds line config added found.1.1

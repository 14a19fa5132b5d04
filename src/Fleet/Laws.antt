-- ===== src/Fleet/Laws.antt =====
-- The active clusters after connecting, and after any rounds of reconnecting.
use cupboard.Prelude.{
  ◌⊎◌, ap, inl, inr, true, if◌then◌else◌, false, List, [], ◌∷◌, Option, none, some, Result, ok, err,
  ◌≡◌, refl, ap, ◌∙◌, arith,
}
use cupboard.Prelude.Lists.{Any}
use cupboard.Kube.Reader.{Reader, Discovery}
use cupboard.Dashboard.Merge.{ClusterInfo}
use cupboard.Fleet.Client.{ClientError}
use cupboard.Fleet.Config.{ClusterConfig}
use cupboard.Fleet.Manager.{
  Connect, ClusterHandle, Manager, try_connect, connect_configs, connect_all, reconnect,
  reconnect_down, active, info_of, active_clusters,
}

-- The manager after its start and rounds of reconnecting, the last round first.
abbrev pub after : Manager → Connect → List Connect → Manager
after m start [] = connect_all start m
after m start (round ∷ rounds) = reconnect_down round (after m start rounds)

abbrev pub Clients : Type 0
Clients = Reader × Discovery

abbrev pub clients_of : Result ClientError Clients → Option Clients
clients_of (err e) = none
clients_of (ok clients) = some clients

abbrev pub or_else : Option Clients → Option Clients → Option Clients
or_else none later = later
or_else (some clients) later = some clients

-- The clients of the first success to connect to a cluster.
abbrev pub first_clients : Connect → List Connect → ClusterConfig → Option Clients
first_clients start [] cfg = clients_of (start cfg)
first_clients start (round ∷ rounds) cfg =
    or_else (first_clients start rounds cfg) (clients_of (round cfg))

abbrev pub info : ClusterConfig → Option Clients → List ClusterInfo → List ClusterInfo
info cfg none rest = rest
info cfg (some clients) rest =
    record { name = cfg.endpoint; client = clients.0; discovery = clients.1 } ∷ rest

-- The specification: each cluster that could be connected to, in the order of the configurations,
-- with the clients of the first success.
abbrev pub connected : (ClusterConfig → Option Clients) → List ClusterConfig → List ClusterInfo
connected f [] = []
connected f (cfg ∷ cfgs) = info cfg (f cfg) (connected f cfgs)

-- The handle of a cluster with the clients that it has, if any.
abbrev handle : ClusterConfig → Option Clients → ClusterHandle
handle cfg none = record { cfg = cfg; clients = none; ready = false }
handle cfg (some clients) = record { cfg = cfg; clients = some clients; ready = true }

abbrev handles : (ClusterConfig → Option Clients) → List ClusterConfig → List ClusterHandle
handles f [] = []
handles f (cfg ∷ cfgs) = handle cfg (f cfg) ∷ handles f cfgs

connected_once :
    (start : Connect) (cfg : ClusterConfig) (answer : Result ClientError Clients)
    → start cfg ≡ answer
    → try_connect start (handle cfg none) ≡ handle cfg (clients_of answer)
unfolding try_connect
connected_once start cfg (err e) h = rw (try_connect, h) refl
connected_once start cfg (ok c) h = rw (try_connect, h) refl

connect_configs-handles :
    (start : Connect) (cfgs : List ClusterConfig)
    → connect_configs start cfgs ≡ handles (λ cfg. clients_of (start cfg)) cfgs
unfolding connect_configs
connect_configs-handles start [] = refl
connect_configs-handles start (cfg ∷ cfgs) =
    ground (arith, connected_once start cfg (start cfg) refl, connect_configs-handles start cfgs)

reconnected :
    (round : Connect) (cfg : ClusterConfig) (had : Option Clients)
    → (if (handle cfg had).ready then handle cfg had else try_connect round (handle cfg had))
      ≡ handle cfg (or_else had (clients_of (round cfg)))
reconnected round cfg none = connected_once round cfg (round cfg) refl
reconnected round cfg (some clients) = refl

reconnect-handles :
    (round : Connect) (f : ClusterConfig → Option Clients) (cfgs : List ClusterConfig)
    → reconnect round (handles f cfgs)
      ≡ handles (λ cfg. or_else (f cfg) (clients_of (round cfg))) cfgs
unfolding reconnect
reconnect-handles round f [] = refl
reconnect-handles round f (cfg ∷ cfgs) =
    ground (arith, reconnected round cfg (f cfg), reconnect-handles round f cfgs)

after-handles :
    (m : Manager) (start : Connect) (rounds : List Connect)
    → (after m start rounds).handles ≡ handles (first_clients start rounds) m.configs
unfolding connect_all reconnect_down
after-handles m start [] = connect_configs-handles start m.configs
after-handles m start (round ∷ rounds) =
    ap (reconnect round) (after-handles m start rounds)
    ∙ reconnect-handles round (first_clients start rounds) m.configs

active-handle :
    (cfg : ClusterConfig) (had : Option Clients) (hs : List ClusterHandle)
    → active (handle cfg had ∷ hs) ≡ info cfg had (active hs)
unfolding active info_of
active-handle cfg none hs = refl
active-handle cfg (some clients) hs = refl

active-handles :
    (f : ClusterConfig → Option Clients) (cfgs : List ClusterConfig)
    → active (handles f cfgs) ≡ connected f cfgs
active-handles f [] = unfold active in refl
active-handles f (cfg ∷ cfgs) =
    active-handle cfg (f cfg) (handles f cfgs) ∙ ap (info cfg (f cfg)) (active-handles f cfgs)

-- After the start and any rounds of reconnecting, the active clusters are those that could be
-- connected to at the start or in some round, in their order, each with the clients of the first
-- success.
pub active_clusters-after :
    (m : Manager) (start : Connect) (rounds : List Connect)
    → active_clusters (after m start rounds) ≡ connected (first_clients start rounds) m.configs
unfolding active_clusters
active_clusters-after m start rounds =
    ap active (after-handles m start rounds) ∙ active-handles (first_clients start rounds) m.configs

-- Connecting to a cluster succeeds at the start or in some round.
abbrev pub Connects : Connect → List Connect → ClusterConfig → Type 0
Connects start rounds cfg =
    ((clients : Clients) × (start cfg ≡ ok clients))
    ⊎ Any (λ round. (clients : Clients) × (round cfg ≡ ok clients)) rounds

kept_clients :
    (had : Option Clients) (clients : Clients)
    → (c : Clients) × (or_else had (some clients) ≡ some c)
kept_clients none clients = (clients, refl)
kept_clients (some c) clients = (c, refl)

first_clients-some :
    (start : Connect) (rounds : List Connect) (cfg : ClusterConfig)
    → Connects start rounds cfg
    → (clients : Clients) × (first_clients start rounds cfg ≡ some clients)
first_clients-some start [] cfg (inl (clients, e)) = (clients, rw e refl)
first_clients-some start [] cfg (inr i) = absurd i
first_clients-some start (round ∷ rounds) cfg (inl s) =
    let k : (clients : Clients) × (first_clients start rounds cfg ≡ some clients) =
      first_clients-some start rounds cfg (inl s) in
    (k.0, rw k.1 refl)
first_clients-some start (round ∷ rounds) cfg (inr (inl (clients, e))) =
    rw e (kept_clients (first_clients start rounds cfg) clients)
first_clients-some start (round ∷ rounds) cfg (inr (inr i)) =
    let k : (clients : Clients) × (first_clients start rounds cfg ≡ some clients) =
      first_clients-some start rounds cfg (inr i) in
    (k.0, rw k.1 refl)

-- Whether a cluster is listed, with the clients that it has.
listed :
    (f : ClusterConfig → Option Clients) (cfg : ClusterConfig) (cfgs : List ClusterConfig)
    (clients : Clients)
    → Any (λ c. c ≡ cfg) cfgs
    → f cfg ≡ some clients
    → Any (λ i. i.name ≡ cfg.endpoint) (connected f cfgs)
listed f cfg [] clients i e = absurd i
listed f cfg (c ∷ cfgs) clients (inl same) e =
    rw (ap f same ∙ e) (inl (ap (λ (x : ClusterConfig). x.endpoint) same))
listed f cfg (c ∷ cfgs) clients (inr i) e = behind c (f c) (listed f cfg cfgs clients i e)
  where
    behind :
        (c : ClusterConfig) (had : Option Clients)
        → Any (λ i. i.name ≡ cfg.endpoint) (connected f cfgs)
        → Any (λ i. i.name ≡ cfg.endpoint) (info c had (connected f cfgs))
    behind c none h = h
    behind c (some clients) h = inr h

-- A cluster that could be connected to once, at the start or in any round, is active from then on.
pub active_clusters-Connects :
    (m : Manager) (start : Connect) (rounds : List Connect) (cfg : ClusterConfig)
    → Any (λ c. c ≡ cfg) m.configs
    → Connects start rounds cfg
    → Any (λ i. i.name ≡ cfg.endpoint) (active_clusters (after m start rounds))
active_clusters-Connects m start rounds cfg i h =
    let k : (clients : Clients) × (first_clients start rounds cfg ≡ some clients) =
      first_clients-some start rounds cfg h in
    rw (active_clusters-after m start rounds)
      (listed (first_clients start rounds) cfg m.configs k.0 i k.1)

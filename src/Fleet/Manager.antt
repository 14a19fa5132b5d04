-- ===== src/Fleet/Manager.antt =====
-- internal/foreigncluster/manager.go. What connecting returns is a parameter, one for each round.
use cupboard.Prelude.{
  Bool, true, false, List, [], ◌∷◌, Option, none, some, Result, ok, err, if◌then◌else◌,
}
use cupboard.Fleet.Client.{ClientError}
use cupboard.Kube.Reader.{Reader, Discovery}
use cupboard.Dashboard.Merge.{ClusterInfo}
use cupboard.Fleet.Config.{ClusterConfig}

-- What `connect` returns for each cluster at some time: an error, or the two clients.
abbrev pub Connect : Type 0
Connect = ClusterConfig → Result ClientError (Reader × Discovery)

-- `clusterHandle`. The clients are set when it is ready.
pub record ClusterHandle : Type 0 where
  pub cfg : ClusterConfig
  pub clients : Option (Reader × Discovery)
  pub ready : Bool

pub record Manager : Type 0 where
  pub configs : List ClusterConfig
  pub handles : List ClusterHandle

-- `connect`, and `ready` where it returns nil.
unfoldable pub try_connect : Connect → ClusterHandle → ClusterHandle
try_connect connect h = elim (connect h.cfg) [
  | err e ↦ h
  | ok clients ↦ record h { clients = some clients; ready = true }
]

unfoldable pub connect_configs : Connect → List ClusterConfig → List ClusterHandle
connect_configs connect [] = []
connect_configs connect (cfg ∷ cfgs) =
    try_connect connect (record { cfg = cfg; clients = none; ready = false })
    ∷ connect_configs connect cfgs

-- `connectAll`
unfoldable pub connect_all : Connect → Manager → Manager
unfolding connect_configs
connect_all connect m = record m { handles = connect_configs connect m.configs }

unfoldable pub reconnect : Connect → List ClusterHandle → List ClusterHandle
reconnect connect [] = []
reconnect connect (h ∷ hs) = (if h.ready then h else try_connect connect h) ∷ reconnect connect hs

-- `reconnectDown`
unfoldable pub reconnect_down : Connect → Manager → Manager
unfolding reconnect
reconnect_down connect m = record m { handles = reconnect connect m.handles }

unfoldable pub info_of : ClusterHandle → List ClusterInfo → List ClusterInfo
info_of h rest = elim h.clients [
  | none ↦ rest
  | some clients ↦
      record { name = h.cfg.endpoint; client = clients.0; discovery = clients.1 } ∷ rest
]

unfoldable pub active : List ClusterHandle → List ClusterInfo
active [] = []
active (h ∷ hs) = let rest = active hs in if h.ready then info_of h rest else rest

-- `ActiveClusters`
unfoldable pub active_clusters : Manager → List ClusterInfo
unfolding active info_of
active_clusters m = active m.handles

-- ===== src/Sync.antt =====
-- web/sync.go: polling peers, and serving them. The DNS resolver, the HTTP client, and the parsers
-- of certificates are parameters.
pub mod Cache
pub mod Handler
pub mod Tls
use cupboard.Prelude.{
  ℕ, Bool, true, false, List, [], ◌∷◌, ◌++◌, Option, none, some, Result, ok, err, if◌then◌else◌,
  ◌==◌ as nat_eq,
}
use cupboard.Prelude.Decimal.{format}
use cupboard.Text.{Text, codes, ◌==◌}
use cupboard.Text.Search.{trim_suffix}
use cupboard.Text.Case.{Unicode}
use cupboard.GoMap.{GoMap, insert}
use cupboard.Kube.{KubeError}
use cupboard.Dashboard.Types.{DashboardResponse, SyncOptions}
use cupboard.Dashboard.Groups.{member, add_group, add_groups, all_link_groups_wildcard}
use cupboard.Dashboard.Response.{DashboardCollector, collect_dashboard}

-- A `net.SRV`
pub record Srv : Type 0 where
  pub target : Text
  pub port : ℕ

-- An HTTP response to a `GET`: its status, and its body as `json.Decoder.Decode` reads it.
pub record PeerAnswer : Type 0 where
  pub status : ℕ
  pub decoded : Result Text DashboardResponse

-- What the network answers: `LookupSRV("", "", record)`, and `Do` of a `GET` request, an error of
-- `NewRequestWithContext` included.
pub record Network : Type 0 where
  pub lookup_srv : Text → Result Text (List Srv)
  pub get : Text → Result Text PeerAnswer

-- The state of a `SyncClient`.
pub record SyncClient : Type 0 where
  pub options : SyncOptions
  pub cache : GoMap DashboardResponse

srv_url : Srv → Text
srv_url addr =
    codes "https://" ++ trim_suffix addr.target (codes ".") ++ codes ":" ++ format addr.port

srv_urls : List Srv → List Text
srv_urls [] = []
srv_urls (addr ∷ addrs) = srv_url addr ∷ srv_urls addrs

-- `lookupSRVPeers`
unfoldable pub lookup_srv_peers : Network → Text → List Text
unfolding srv_urls srv_url
lookup_srv_peers net record_name = elim (net.lookup_srv record_name) [
  | err e ↦ []
  | ok addrs ↦ srv_urls addrs
]

-- The peers of all SRV records, in their order.
unfoldable pub srv_peers : Network → List Text → List Text
srv_peers net [] = []
srv_peers net (record_name ∷ records) = lookup_srv_peers net record_name ++ srv_peers net records

-- `discoverPeers`. Its closure `add` is that of `normalizedGroups`: trimmed, not empty, not seen.
unfoldable pub discover_peers : Network → SyncOptions → List Text
discover_peers net options =
    add_groups (add_groups [] options.urls) (srv_peers net options.srv_records)

-- `fetchFromPeer`
unfoldable pub fetch_from_peer : Network → Text → Result Text DashboardResponse
fetch_from_peer net peer = elim (net.get (peer ++ codes "/dashboard")) [
  | err e ↦ err e
  | ok answer ↦
      if nat_eq answer.status 200
      then answer.decoded
      else err (codes "peer returned HTTP " ++ format answer.status)
]

-- `s.cache[peer] = resp`, unless fetching failed.
store : Text → Result Text DashboardResponse → GoMap DashboardResponse → GoMap DashboardResponse
store peer (err e) cache = cache
store peer (ok response) cache = insert peer response cache

-- The body of the loop over the peers, on the cache.
unfoldable pub fetch_peer : Network → Text → GoMap DashboardResponse → GoMap DashboardResponse
unfolding store
fetch_peer net peer cache = store peer (fetch_from_peer net peer) cache

unfoldable pub fetch_peers : Network → List Text → GoMap DashboardResponse → GoMap DashboardResponse
fetch_peers net [] cache = cache
fetch_peers net (peer ∷ peers) cache = fetch_peers net peers (fetch_peer net peer cache)

-- The loop that deletes the entries of peers that are not discovered.
unfoldable pub remove_absent : List Text → GoMap DashboardResponse → GoMap DashboardResponse
remove_absent peers [] = []
remove_absent peers (entry ∷ cache) =
    let rest = remove_absent peers cache in if member entry.0 peers then entry ∷ rest else rest

-- `fetchAll`
unfoldable pub fetch_all : Network → SyncClient → SyncClient
fetch_all net s =
    let peers = discover_peers net s.options in
    record s { cache = remove_absent peers (fetch_peers net peers s.cache) }

-- What `newSyncHandler` writes: a status, and the payload.
pub record SyncAnswer : Type 0 where
  pub status : ℕ
  pub payload : Option DashboardResponse

-- The payload, or the error of `collectDashboard`.
answer_for : Result KubeError DashboardResponse → SyncAnswer
answer_for (err e) = record { status = 500; payload = none }
answer_for (ok payload) = record { status = 200; payload = some payload }

module _ ⦃u : Unicode⦄ where
  -- The handler of "/dashboard" that `newSyncHandler` registers, on the method of the request.
  unfoldable pub sync_handler : DashboardCollector → Text → SyncAnswer
  unfolding answer_for
  sync_handler collector method =
      if method == codes "GET"
      then answer_for (collect_dashboard collector (all_link_groups_wildcard ∷ []) true)
      else record { status = 405; payload = none }

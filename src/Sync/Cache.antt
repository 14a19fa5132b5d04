-- ===== src/Sync/Cache.antt =====
-- The cache of the peers' responses after a poll.
use cupboard.Prelude.{
  List, [], ◌∷◌, Option, none, some, Result, ok, err, ◌≡◌, refl, ◌∙◌, arith, if◌then◌else◌,
}
use cupboard.Text.{Text, ◌==◌, eq_iff}
use cupboard.GoMap.{GoMap, lookup, lookup-insert}
use cupboard.Dashboard.Types.{DashboardResponse, SyncOptions}
use cupboard.Dashboard.Groups.{member}
use cupboard.Dashboard.Groups.Normalized.{IsNormal, add_groups-IsNormal}
use cupboard.Sync.{
  Network, SyncClient, discover_peers, fetch_from_peer, fetch_peer, store, fetch_peers,
  remove_absent, fetch_all,
}

-- The peers that are polled are trimmed and not empty, and none is polled twice.
discover_peers-IsNormal :
    (net : Network) (options : SyncOptions) → IsNormal (discover_peers net options)
unfolding discover_peers
discover_peers-IsNormal net options =
    add_groups-IsNormal _ _ (add_groups-IsNormal [] options.urls (tt, tt))

-- What a poll leaves for a peer that it asks: the new response, or the old one after a failure.
abbrev pub fresh_or :
    Option DashboardResponse → Result Text DashboardResponse → Option DashboardResponse
fresh_or old (ok response) = some response
fresh_or old (err e) = old

lookup-store :
    (peer other : Text) (answer : Result Text DashboardResponse) (cache : GoMap DashboardResponse)
    → lookup other (store peer answer cache)
      ≡ (if peer == other then fresh_or (lookup other cache) answer else lookup other cache)
unfolding store
lookup-store peer other (err e) cache = ground arith
lookup-store peer other (ok response) cache = lookup-insert peer other response cache

lookup-fetch_peer :
    (net : Network) (peer other : Text) (cache : GoMap DashboardResponse)
    → lookup other (fetch_peer net peer cache) ≡ (
        if peer == other
        then fresh_or (lookup other cache) (fetch_from_peer net other)
        else lookup other cache)
unfolding fetch_peer
lookup-fetch_peer net peer other cache =
    lookup-store peer other (fetch_from_peer net peer) cache ∙ ground (arith, eq_iff peer other)

lookup-fetch_peers :
    (net : Network) (other : Text) (peers : List Text) (cache : GoMap DashboardResponse)
    → lookup other (fetch_peers net peers cache) ≡ (
        if member other peers
        then fresh_or (lookup other cache) (fetch_from_peer net other)
        else lookup other cache)
unfolding fetch_peers member
lookup-fetch_peers net other [] cache = refl
lookup-fetch_peers net other (peer ∷ peers) cache = ground (
  arith,
  lookup-fetch_peers net other peers (fetch_peer net peer cache),
  lookup-fetch_peer net peer other cache,
)

lookup-remove_absent :
    (other : Text) (peers : List Text) (cache : GoMap DashboardResponse)
    → lookup other (remove_absent peers cache)
      ≡ (if member other peers then lookup other cache else none)
unfolding remove_absent lookup
lookup-remove_absent other peers [] = ground arith
lookup-remove_absent other peers (entry ∷ cache) =
    ground (arith, lookup-remove_absent other peers cache, eq_iff entry.0 other)

-- After a poll the cache holds, for each peer that is discovered, the new response, or the old one
-- if fetching failed, and nothing for other peers.
pub lookup-fetch_all :
    (net : Network) (s : SyncClient) (peer : Text)
    → lookup peer (fetch_all net s).cache ≡ (
        if member peer (discover_peers net s.options)
        then fresh_or (lookup peer s.cache) (fetch_from_peer net peer)
        else none)
unfolding fetch_all
lookup-fetch_all net s peer = ground (
  arith,
  lookup-remove_absent peer (discover_peers net s.options)
      (fetch_peers net (discover_peers net s.options) s.cache),
  lookup-fetch_peers net peer (discover_peers net s.options) s.cache,
)

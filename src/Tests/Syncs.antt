-- ===== src/Tests/Syncs.antt =====
-- Polling a peer that answers and one that fails, serving a peer, and the TLS configuration.
use cupboard.Prelude.{true, [], ◌∷◌, none, some, ok, err, ◌≡◌, refl, if◌then◌else◌}
use cupboard.Prelude.Lists.{All}
use cupboard.Text.{codes, ◌==◌}
use cupboard.GoMap.{lookup}
use cupboard.Dashboard.Types.{DashboardResponse, SyncOptions, SyncTlsOptions}
use cupboard.Dashboard.Groups.{member, all_link_groups_wildcard}
use cupboard.Dashboard.Response.{respond}
use cupboard.Dashboard.Response.Invariant.{final_maps}
use cupboard.Dashboard.Response.Export.{IsExportable}
use cupboard.Dashboard.Response.Total.{collect_dashboard-succeeds}
use cupboard.Sync.{Network, SyncClient, discover_peers, fetch_all, fetch_from_peer, sync_handler}
use cupboard.Sync.Cache.{fresh_or, lookup-fetch_all}
use cupboard.Sync.Handler.{sync_handler-exported}
use cupboard.Sync.Tls.{Files, TlsConfig, no_config}
use cupboard.Tests.Fixtures.{reader-IsReadable, collector, peer_response, ascii}

abbrev tls : SyncTlsOptions
tls = record {
  ca = codes "/ca.pem";
  cert = codes "/tls.crt";
  key = codes "/tls.key";
  auth_cert = codes "";
  auth_key = codes "";
}

abbrev options : SyncOptions
options = record {
  bind_address = codes ":8443";
  urls = codes "https://a" ∷ codes " https://a " ∷ codes "" ∷ [];
  srv_records = codes "_cupboard._tcp.example.com" ∷ [];
  tls = tls;
}

-- "https://a" answers, and no other peer.
abbrev network : Network
network = record {
  lookup_srv = λ name. ok (record { target = codes "b.example.com."; port = 8443 } ∷ []);
  get = λ url.
      if url == codes "https://a/dashboard"
      then ok (record { status = 200; decoded = ok peer_response })
      else err (codes "connection refused");
}

abbrev client : SyncClient
client = record { options = options; cache = (codes "https://gone", peer_response) ∷ [] }

lookup-fetch_all_example : lookup (codes "https://a") (fetch_all network client).cache ≡ (
    if member (codes "https://a") (discover_peers network client.options)
    then fresh_or
        (lookup (codes "https://a") client.cache)
        (fetch_from_peer network (codes "https://a"))
    else none)
lookup-fetch_all_example = lookup-fetch_all network client (codes "https://a")

abbrev exported : DashboardResponse
exported = respond true (all_link_groups_wildcard ∷ []) (final_maps collector true)

payload_sent : (sync_handler collector (codes "GET")).payload ≡ some exported
unfolding sync_handler ◌==◌
payload_sent =
    rw (collect_dashboard-succeeds collector (all_link_groups_wildcard ∷ []) true reader-IsReadable)
      refl

sync_handler-exported_example :
    ((codes "GET" == codes "GET") ≡ true)
    × (((sync_handler collector (codes "GET")).status ≡ 200) × All IsExportable exported.groups)
sync_handler-exported_example = sync_handler-exported collector (codes "GET") exported payload_sent

abbrev files : Files
files = record {
  read_file = λ path. ok path;
  has_certs = λ data_read. true;
  load_key_pair = λ cert key. ok cert;
}

abbrev server : TlsConfig
server = record no_config {
  certificates = some (codes "/tls.crt");
  client_cas = some (codes "/ca.pem");
  requires_client_cert = true;
}

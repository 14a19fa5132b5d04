-- ===== src/Sync/Tls.antt =====
-- The TLS configurations of web/sync.go. The files and the parsers of certificates are parameters.
use cupboard.Prelude.{
  Bool, true, false, ◌&&◌, ◌||◌, not, Option, none, some, Result, ok, err, if◌then◌else◌, ◌≡◌, ◌++◌,
  arith,
}
use cupboard.Text.{Text, codes, ◌==◌}
use cupboard.Dashboard.Types.{SyncTlsOptions}

-- `os.ReadFile` and `AppendCertsFromPEM` as one, and `tls.LoadX509KeyPair`, of paths. A pool or a
-- certificate is named by what it was read from.
pub record Files : Type 0 where
  pub read_file : Text → Result Text Text
  -- whether the data has a certificate
  pub has_certs : Text → Bool
  -- the data of the pair
  pub load_key_pair : Text → Text → Result Text Text

-- The fields of a `tls.Config` that the program sets.
pub record TlsConfig : Type 0 where
  pub root_cas : Option Text
  pub certificates : Option Text
  pub client_cas : Option Text
  -- `ClientAuth == tls.RequireAndVerifyClientCert`
  pub requires_client_cert : Bool

abbrev pub no_config : TlsConfig
no_config = record {
  root_cas = none;
  certificates = none;
  client_cas = none;
  requires_client_cert = false;
}

-- `loadCertPool`
unfoldable pub load_cert_pool : Files → Text → Result Text Text
load_cert_pool files path = elim (files.read_file path) [
  | err e ↦ err (codes "reading CA certificate from " ++ path ++ codes ": " ++ e)
  | ok data_read ↦
      if files.has_certs data_read
      then ok data_read
      else err (codes "parsing CA certificate from " ++ path)
]

with_client_cert : Files → Text → Text → TlsConfig → Result Text TlsConfig
with_client_cert files cert_file key_file config =
    if not (cert_file == codes "") && not (key_file == codes "")
    then (elim (files.load_key_pair cert_file key_file) [
      | err e ↦ err (codes "loading sync client certificate: " ++ e)
      | ok cert ↦ ok (record config { certificates = some cert })
    ])
    else ok config

-- `buildClientTLSConfig`
unfoldable pub build_client_tls_config : Files → Text → Text → Text → Result Text TlsConfig
unfolding with_client_cert
build_client_tls_config files ca cert_file key_file =
    if ca == codes ""
    then with_client_cert files cert_file key_file no_config
    else (elim (load_cert_pool files ca) [
      | err e ↦ err e
      | ok pool ↦
          with_client_cert files cert_file key_file (record no_config { root_cas = some pool })
    ])

-- The client certificate of `buildSyncHTTPClient`: that of the server, if none of its own is named.
unfoldable pub client_pair : SyncTlsOptions → Text × Text
client_pair opts =
    if opts.auth_cert == codes "" && opts.auth_key == codes ""
    then (opts.cert, opts.key)
    else (opts.auth_cert, opts.auth_key)

-- `buildSyncHTTPClient`: the TLS configuration of the client's transport, if it gets one.
unfoldable pub build_sync_http_client : Files → SyncTlsOptions → Result Text (Option TlsConfig)
build_sync_http_client files opts =
    let pair = client_pair opts in
    if not (opts.ca == codes "") || (not (pair.0 == codes "") && not (pair.1 == codes ""))
    then (elim (build_client_tls_config files opts.ca pair.0 pair.1) [
      | err e ↦ err e
      | ok config ↦ ok (some config)
    ])
    else ok none

-- The `if opts.CA != ""` of `BuildSyncServerTLSConfig`.
server_config : Files → Text → Text → Result Text (Option TlsConfig)
server_config files ca cert =
    let config = record no_config { certificates = some cert } in
    if ca == codes "" then ok (some config) else (elim (load_cert_pool files ca) [
      | err e ↦ err e
      | ok pool ↦ ok (some (record config { client_cas = some pool; requires_client_cert = true }))
    ])

-- `BuildSyncServerTLSConfig`
unfoldable pub build_sync_server_tls_config :
    Files → SyncTlsOptions → Result Text (Option TlsConfig)
unfolding server_config
build_sync_server_tls_config files opts =
    if opts.cert == codes "" || opts.key == codes ""
    then ok none
    else (elim (files.load_key_pair opts.cert opts.key) [
      | err e ↦ err (codes "loading sync server certificate: " ++ e)
      | ok cert ↦ server_config files opts.ca cert
    ])

server_config-verifies :
    (files : Files) (ca cert : Text) (config : TlsConfig)
    → (ca == codes "") ≡ false
    → server_config files ca cert ≡ ok (some config)
    → config.requires_client_cert ≡ true
unfolding server_config
server_config-verifies files ca cert config h e = ground arith

-- A sync server with a CA that serves TLS requires client certificates.
pub build_sync_server_tls_config_verifies :
    (files : Files) (opts : SyncTlsOptions) (config : TlsConfig)
    → (opts.ca == codes "") ≡ false
    → build_sync_server_tls_config files opts ≡ ok (some config)
    → config.requires_client_cert ≡ true
unfolding build_sync_server_tls_config
build_sync_server_tls_config_verifies files opts config h e = ground arith

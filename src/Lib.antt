-- ===== src/Lib.antt =====
-- Cupboard, a dashboard of links for Kubernetes clusters: a model of its core, and what is proved.
--
-- The program collects links from custom resources and from labelled resources of its own cluster
-- (web/dashboard.go), merges what peer instances and foreign clusters hold, filters the result by
-- the groups of the user, or for a peer by the replication marks, and sorts it.
--
-- The parts, and the files that model them:
-- web/dashboard.go: Dashboard.Types (the records), Dashboard.Meta (annotations and
--   `resourceMetaFrom`), Dashboard.Groups (access and replication filters), Dashboard.Maps (the three
--   maps and `resolveLinkGroupName`), Dashboard.Collector (what all collectors share),
--   Dashboard.Collect (one file for each family of collectors), Dashboard.Merge (peers and foreign
--   clusters), Dashboard.Order (`sortLinkGroups` and the stable sorts) and Dashboard.Response
--   (`collectDashboard`). A Go function `collectIngresses` is `collect_ingresses`.
-- web/auth.go: Auth.Service (the service and its options), Auth.Cookie and Auth.Session (signed
--   cookies), Auth.Request (what a request says), Auth.Oidc (the calls of the identity provider and
--   the two caches), Auth.Authenticate and Auth.Config; the proxy of the discovery document is
--   Web.Discovery, and `normalizedGroups` is in Dashboard.Groups.
-- web/handler.go: Web.Server (the state, and the world around it), Web.Answer, Web.Assets,
--   Web.Handlers (one function for each handler), Web.Docs and Web.Routes (`ServeHTTP`).
-- web/templates.go: Web.Templates (the lookup of the files) and Web.Templates.Functions.
-- cmd/main.go: Command.Flags and Command.Settings (options), Command.Start (`main`),
--   Command.Manager, Command.Probe and Command.Watches.
-- internal/webhook/dashboard/v1alpha1: Webhook.UrlResolver (url_resolver.go), and Webhook.Host for
--   the hosts; Webhook.Validator (bookmark_webhook.go and bookmarkgroup_webhook.go).
-- api: Kube.Bookmark, Kube.InfoTile and Kube.ForecastleApp.
-- web/sync.go: Sync (discovery, polling, cache, handler) and Sync.Tls.
-- web/notifier.go: Notifier, a step relation of the loop and its callers, and Notifier.Origin.
-- internal/controller/dashboard: Controller, one file for each reconciler.
-- internal/foreigncluster: Fleet.Config (config.go), Fleet.Azure (azure.go),
--   with times in nanoseconds as in a `time.Duration`, Fleet.Client (client.go, and `connect` of manager.go), Fleet.Manager and Fleet.Permissions
--   (manager.go).
-- the libraries of Go: Text (strings as lists of code points), GoMap (a map as a list of entries
--   whose order stands for the order of `range`), Sort (a stable sort), Any (decoded JSON).
--
-- The shared maps are passed and returned: a collector is a function from the maps to an error and
-- the maps, and what it wrote before an error stays. The answers of the Kubernetes clients are the
-- fields of Kube.Reader, given for one call; Go's case tables beyond ASCII are the instance
-- Text.Case.Unicode. Integers that can overflow wrap around in Prelude.Int. All loops of the code
-- run over lists, and are structural recursions here, but for the probe of the issuer in `main`,
-- which takes a number of rounds: any number beyond the first request that succeeds is enough. What
-- the identity provider, the files, Azure and the API servers answer is given for one call, in
-- Auth.Oidc.Provider, Web.Server.World, Web.Templates.Sources, Fleet.Client.Kubernetes and
-- Command.Start.Machine.
-- `http.ServeMux` redirects a path that is not clean; Web.Routes takes the request that follows.
--
-- Not modelled: logging (but for the warnings about permissions), contexts and timeouts, the loop
-- that reads a WebSocket until it is closed, the shutdown of the HTTP servers, and generated code.
pub mod Prelude
pub mod Text
pub mod GoMap
pub mod Sort
pub mod Any
pub mod Kube
pub mod Web
pub mod Webhook
pub mod Dashboard
pub mod Sync
pub mod Auth
pub mod Command
pub mod Controller
pub mod Notifier
pub mod Fleet
pub mod Tests

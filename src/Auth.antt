-- ===== src/Auth.antt =====
-- web/auth.go: sessions, their cookies and bearer tokens, and the identity provider. The HTTP client,
-- the cryptographic functions and JSON are parameters; times are seconds, as `Unix()` gives them, and
-- nanoseconds in Auth.Oidc, as a `time.Duration` is.
pub mod Authenticate
pub mod Config
pub mod Cookie
pub mod Oidc
pub mod Request
pub mod Service
pub mod Session

-- ===== src/Fleet.antt =====
-- internal/foreigncluster: the list of foreign clusters, and the state of their connections.
pub mod Azure
pub mod Client
pub mod Config
pub mod Expiry
pub mod Laws
pub mod Manager
pub mod Permissions

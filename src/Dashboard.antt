-- ===== src/Dashboard.antt =====
-- web/dashboard.go: what the collectors read, the maps that they fill, and the response.
pub mod Types
pub mod Meta
pub mod Groups
pub mod Maps
pub mod Collector
pub mod Collect
pub mod Order
pub mod Merge
pub mod Response

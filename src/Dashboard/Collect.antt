-- ===== src/Dashboard/Collect.antt =====
-- The collectors of web/dashboard.go, by the resources that they read.
pub mod Withheld
pub mod Config
pub mod Bookmarks
pub mod Forecastle
pub mod Resources
pub mod Routes
pub mod Tiles
pub mod Keeps

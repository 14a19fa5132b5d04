-- ===== src/Web/Laws.antt =====
-- What the routes guarantee.
pub mod Granted
pub mod Guarded
pub mod Login
pub mod Visible

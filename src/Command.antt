-- ===== src/Command.antt =====
-- cmd/main.go: the options, the watches and the start of the program. The libraries for flags and
-- configuration, and the controller manager, are parameters.
pub mod Flags
pub mod Laws
pub mod Manager
pub mod Probe
pub mod Settings
pub mod Start
pub mod Watches

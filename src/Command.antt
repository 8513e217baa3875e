-- ===== src/Command.antt =====
-- Commands: what a line typed by a player or at the console means (internal/command).
pub mod Args
pub mod Registry
pub mod Lookup
pub mod Permissions
pub mod Dispatch
pub mod Defaults
pub mod Guarded
pub mod Chat
pub mod Heard
pub mod Runes

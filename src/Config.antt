-- ===== src/Config.antt =====
-- The server's configuration file (internal/config/config.go).
pub mod Strings
pub mod Numbers
pub mod Properties
pub mod Lines
pub mod Decimals
pub mod Reading
pub mod RoundTrip

-- ===== src/Config.antt =====
-- config/config.go: the configuration, its file, and its defaults.
pub mod Types
pub mod Keys
pub mod Read
pub mod Write
pub mod Defaults
pub mod Load
pub mod Settled
pub mod Valid
pub mod Carried
pub mod Fields
pub mod RoundTrip

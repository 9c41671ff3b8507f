-- ===== src/Servers.antt =====
-- The package dnsservers: the upstream servers, which of them a name is sent to, and how.
pub mod Types
pub mod Whitelist
pub mod Endpoint
pub mod Routing
pub mod Fallbacks
pub mod Commands
pub mod Rows

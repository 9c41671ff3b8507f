-- ===== src/Records.antt =====
-- dnsrecords/dnsrecords.go: the local DNS records.
pub mod Types
pub mod Normalize
pub mod Find
pub mod Add
pub mod Args
pub mod Remove
pub mod Filter
pub mod Lookup
pub mod Keys
pub mod Invariant
pub mod History
pub mod Found

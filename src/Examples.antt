-- ===== src/Examples.antt =====
-- Concrete inputs on which the theorems are applied.
pub mod Stores
pub mod Upstream
pub mod Peers
pub mod Caching
pub mod Signed
pub mod Serving
pub mod Commands
pub mod Data
pub mod Nodes
pub mod Exchanged
pub mod Figures
pub mod Settings

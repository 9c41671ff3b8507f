-- ===== src/Resolver.antt =====
-- resolver/resolver.go: the race of the sources of an answer, and the caching of answers.
pub mod Race
pub mod Order
pub mod Caching
pub mod Slots
pub mod Resolve
pub mod Ends

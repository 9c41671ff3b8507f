-- ===== src/LookupIndex.antt =====
-- data/lookup_index.go: the lookup maps over the local records and the cache, the cached RRsets,
-- and the answer from memory.
pub mod Index
pub mod RrSet
pub mod RoundTrip
pub mod Answer
pub mod Coherent
pub mod Clip
pub mod Fresh

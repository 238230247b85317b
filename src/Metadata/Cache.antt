-- ===== src/Metadata/Cache.antt =====
-- internal/metadata/cache.go and cache_publication.go.
pub mod Ops
mod Lookup
mod Budget
pub mod Invariant
pub mod Reads
pub mod World
mod Coherent
pub mod Coherence
mod Tests

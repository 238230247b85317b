-- ===== src/Metadata.antt =====
-- internal/metadata: the rows, the cache in front of them, and the operations on the tables.
pub mod Model
pub mod Cache
pub mod Objects
pub mod Multipart
pub mod Listing
pub mod Buckets
pub mod Grants
pub mod Users

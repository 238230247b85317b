-- ===== src/Storage.antt =====
-- internal/storage: keys and paths of the files that back the objects.
pub mod Paths
pub mod Utf8
pub mod Sanitize
pub mod Segments
pub mod Within
mod Tests

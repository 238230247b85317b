-- ===== src/Auth/SigV4.antt =====
-- internal/auth/sigv4.go: requests signed with AWS Signature Version 4.
pub mod Clock
pub mod Window
pub mod Stamp
pub mod Request
pub mod Uri
pub mod Canonical
pub mod Header
pub mod Verify
pub mod Sound
pub mod Query
pub mod AnyOrder
pub mod Sign
pub mod Printed
pub mod Signed
pub mod Accepted
mod Tests

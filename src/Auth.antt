-- ===== src/Auth.antt =====
-- internal/auth: who a request comes from.
pub mod Principal
pub mod Chain
pub mod Secret
pub mod Bearer
pub mod SigV4
mod Tests

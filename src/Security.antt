-- ===== src/Security.antt =====
-- internal/security/security.go.
mod Tests
pub mod RawUrl
pub mod AccessToken
pub mod Encryption
pub mod Password
pub mod Ids

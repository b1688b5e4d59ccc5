-- ===== src/Auth.antt =====
-- backend/internal/auth
pub mod Domain
pub mod Repo
pub mod Service
pub mod Calls
pub mod Mfa
mod Tests
mod MfaTests

-- ===== src/Auth.antt =====
-- internal/auth: credentials and sessions.
pub mod Model
pub mod Statements
pub mod Repository
pub mod Service
pub mod Revocation
pub mod Kept
mod Run
mod Logins
pub mod Access
mod Usable
mod Issued
mod Admission
pub mod Tests
pub mod Http
pub mod Limited
pub mod Middleware

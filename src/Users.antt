-- ===== src/Users.antt =====
-- internal/users: player identity.
pub mod Model
pub mod Statements
pub mod Repository
pub mod Service
pub mod Frame
pub mod Shapes
pub mod Profiles
pub mod Invariant
mod Tests
pub mod Http
pub mod Editing
pub mod Edited

-- ===== src/Matches.antt =====
-- internal/matches: the life of a match, from its creation by a room to its end.
pub mod Model
pub mod Statements
pub mod Repository
pub mod Service
pub mod Created
pub mod Frame
pub mod Turn
pub mod Actor
pub mod Registry
pub mod Listing
pub mod Http
mod Tests

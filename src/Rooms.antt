-- ===== src/Rooms.antt =====
-- internal/rooms: the pre-match lobby.
pub mod Model
pub mod Statements
pub mod Rows
pub mod Invariant
pub mod Sound
pub mod Repository
pub mod Service
pub mod Start
pub mod Seating
pub mod Leaving
pub mod Founding
pub mod Starting
pub mod Safety
pub mod Listing
pub mod Http
pub mod Codes
pub mod Privacy
pub mod Run
pub mod Sides
pub mod Seats
pub mod Started
pub mod Tests
pub mod Capacity

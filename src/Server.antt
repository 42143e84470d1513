-- ===== src/Server.antt =====
-- apps/server/cmd/server: the server process. Middleware is middleware.go, with Headers about what
-- it sets and Finishing about how every request ends; Routes is the router of main.go with the
-- routes of each package, with Guarding about who gets through; Process is its start and end.
pub mod Middleware
pub mod Headers
pub mod Recovering
pub mod Finishing
pub mod Routes
pub mod Guarding
pub mod OwnProfile
pub mod Refused
pub mod Internal
pub mod Process
pub mod Orphans
pub mod Ending
mod Tests

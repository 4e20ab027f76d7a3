-- ===== src/Router.antt =====
-- router/: one request, from its attempt list to the one answer that the client gets.
pub mod State
pub mod Pool
pub mod Sticky
pub mod Budget
pub mod World
pub mod Bookkeeping
pub mod Attempts
pub mod Chain
pub mod Listing
pub mod Handle
pub mod Jev
pub mod Model
mod Fixtures
mod Tests

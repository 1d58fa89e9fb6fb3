-- ===== src/Windows.antt =====
-- The game server of week13 for Windows, with its completion port, and its relation to the Linux
-- build.
pub mod Types
pub mod Table
pub mod Handlers
pub mod Worker
pub mod View
pub mod Port
pub mod Rounds
pub mod Pending
pub mod Runs
pub mod Whole
mod Tests
mod RunTests

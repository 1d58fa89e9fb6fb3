-- ===== src/Game.antt =====
-- The multiplayer game server of week13: its data, its player table, its packet handlers and the
-- event loop of the Linux build.
pub mod Types
pub mod Table
pub mod Handlers
pub mod Server
pub mod Client
pub mod Cases
pub mod Alloc
pub mod Invariant
pub mod Lobby
pub mod Refines
pub mod Persist
pub mod Delivery
pub mod Stale
pub mod Inbox
pub mod Visit
pub mod Play
pub mod Whole
pub mod Among
pub mod Full
pub mod Tests
mod VisitTests
mod AmongTests

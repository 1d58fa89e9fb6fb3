-- ===== src/Chat.antt =====
-- The chat server of week7/server.c: the shared array of client sockets, and the threads over it.
pub mod Table
pub mod Shift
pub mod Sections
pub mod Threads
pub mod Invariant
pub mod Safety
pub mod Client
pub mod Hearing
pub mod Tests
mod HearingTests

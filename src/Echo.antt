-- ===== src/Echo.antt =====
-- The echo programs of week2 over a stream and of week9 over datagrams.
pub mod Stream
pub mod Datagram
pub mod Talk
pub mod Builds
mod Tests

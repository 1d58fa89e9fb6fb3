-- ===== src/Broadcast.antt =====
-- The message server of week11 over epoll, with its unordered array of clients.
pub mod Server
pub mod Swap
pub mod Delivery
pub mod Run
pub mod Clients
pub mod Selecting
pub mod Relay
mod Tests
mod ClientTests

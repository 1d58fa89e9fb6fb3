-- ===== src/Sockets.antt =====
-- How the programs of every week set up their sockets, check the calls and take them down again.
pub mod Calls
pub mod Address
pub mod Monitor
pub mod Streams
pub mod Polling
pub mod Practice
pub mod Rules
pub mod Heads
pub mod Tidy
pub mod Checked
pub mod AllChecked
pub mod Orderly
pub mod InOrder
pub mod GameInOrder
pub mod Unchecked
pub mod Shown
pub mod Resolve
mod Tests

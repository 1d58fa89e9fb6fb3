-- ===== src/Files.antt =====
-- The file-transfer server and client of week5: the line protocol of Icommon.h and the commands
-- over it.
pub mod Line
pub mod Commands
pub mod Download
pub mod Stream
pub mod Transfer
pub mod Upload
pub mod Receive
pub mod Send
pub mod Session
pub mod Fuel
pub mod Conversation
pub mod Client
pub mod Exchange
mod ClientFuel
pub mod Uses
pub mod Listing
pub mod Together
pub mod Loading
pub mod Talk
pub mod Disks
pub mod Left
pub mod Spares
pub mod Shelf
mod Tests
mod TalkTests
mod ShelfTests

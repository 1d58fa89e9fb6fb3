-- ===== src/Drawing.antt =====
-- The drawing messages of week6: six numbers as a struct in network order, and as lines of text.
pub mod Message
pub mod Wire
pub mod Text
pub mod Parse
pub mod Exchange
mod Tests

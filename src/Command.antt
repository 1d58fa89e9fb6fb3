-- ===== src/Command.antt =====
-- The command servers of week3 and week3_Prac.
pub mod Loop
pub mod Server
pub mod Practice
pub mod Bounds
pub mod Client
pub mod Answers
mod Session
pub mod Talk
pub mod Served
pub mod Unanswered
mod Tests
mod TalkTests

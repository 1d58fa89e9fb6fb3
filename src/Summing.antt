-- ===== src/Summing.antt =====
-- The thread example of week7: ten threads over one array of structs.
pub mod Threads
pub mod Results
pub mod Ends
mod Tests

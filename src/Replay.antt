-- ===== src/Replay.antt =====
-- The replay engine of src/send_packets.c.
pub mod Unique
pub mod Rate
pub mod Send
pub mod Whole
mod Tests

-- ===== src/Streamer.antt =====
-- streamer/: which websocket is told of what.
pub mod Filter
pub mod Clauses
pub mod Messages
pub mod Client

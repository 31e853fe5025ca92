-- ===== src/Realtime.antt =====
-- server/chess_server/src/Realtime: motions and jumps in progress, and the events of passing time.
pub mod Arbiter
pub mod Order
pub mod Advance
pub mod Motions

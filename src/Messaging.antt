-- ===== src/Messaging.antt =====
-- server/chess_server/src/Messaging and shared/cpp/include/Messaging.
pub mod Event
pub mod Snapshot
pub mod Bus
pub mod EventBus
pub mod Subscribers
pub mod Counts

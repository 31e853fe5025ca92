-- ===== src/Server.antt =====
-- server/chess_server/src/Server: the sessions of the players and the life of a game.
pub mod Setup
pub mod State
pub mod Sessions
pub mod Closing
pub mod Service
pub mod Loop
pub mod Stable
pub mod Invariant
pub mod Admits
pub mod Closes
pub mod Lasting
pub mod Runs
pub mod Waiting
pub mod Deadline
pub mod Return
pub mod Expired
pub mod Guard
pub mod Broadcasts
pub mod Starts
pub mod Plays
pub mod Replies
pub mod Exchange

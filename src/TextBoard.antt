-- ===== src/TextBoard.antt =====
-- server/chess_server/src/IO: a board as lines of text, read and printed.
pub mod Tokens
pub mod Parser
pub mod Printer
pub mod Errors
pub mod Placing
pub mod Rows
pub mod RoundTrip

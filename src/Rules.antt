-- ===== src/Rules.antt =====
-- server/chess_server/src/Rules: which moves of a piece the board allows.
pub mod Path
pub mod Shapes
pub mod Validate
pub mod Clear
pub mod Lines
pub mod Steps
pub mod Pawns

-- ===== src/Engine.antt =====
-- server/chess_server/src/Engine/GameEngine.cpp, one child for each group of its methods.
pub mod State
pub mod Cells
pub mod Castling
pub mod Record
pub mod Steps
pub mod Requests
pub mod Frame
pub mod Effects
pub mod Outcome
pub mod Progress
pub mod Settles
pub mod Wait
pub mod Accepts
pub mod Invariant
pub mod Runs
pub mod Ledger
pub mod LedgerSteps
pub mod LedgerRuns
pub mod Standing
pub mod Scores
pub mod Played
pub mod Meeting
pub mod Stopped
pub mod Endings
pub mod Encounters

-- ===== src/Client.antt =====
-- The desktop client's game: its copy of the server's state, its phases and its display name.
pub mod GameState
pub mod Phases
pub mod Username
pub mod GameClient
pub mod Incoming
pub mod NetworkController
pub mod Pending
pub mod Cells
pub mod Pieces
pub mod Clicks
pub mod Sending
pub mod Numbering
pub mod Exchanges

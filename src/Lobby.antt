-- ===== src/Lobby.antt =====
-- The lobby of the desktop client: the events of its server and the state that its screens show.
pub mod Events
pub mod State
pub mod Session
pub mod Apply
pub mod Coherence
pub mod Revisions
pub mod Connection

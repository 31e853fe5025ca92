-- ===== src/Control.antt =====
-- The server's side of the messages, and the controller that turns clicks into them.
pub mod Builder
pub mod Handler
pub mod BoardMapper
pub mod Controller
pub mod Answers

-- ===== src/Graphics.antt =====
-- client/desktop_client/src/Graphics: the frames of an animation.
pub mod Animation
pub mod Frames

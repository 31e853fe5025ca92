-- ===== src/Console.antt =====
-- server/chess_server/src/App/ConsoleApp.cpp: the game on a terminal.
pub mod App
pub mod Sessions

-- ===== src/Lib.antt =====
-- Verification of the real-time chess program: its rules, its clock and its engine on the server,
-- the messages and the controller around the engine, the sessions of the game server, and the
-- connection and the state of the desktop client.
--
-- The parts, from the bottom up. Paths are from the repository's root.
-- Core models shared/cpp/src/Core: Position, Piece and Board. A shared_ptr<Piece> is an address
--   (Ref) and a heap gives the piece at each address, so a piece that is changed through the board,
--   a motion or a pending castle is changed for all of them. Method names become snake_case names:
--   setPieceAt is set_piece_at.
-- Rules models server/chess_server/src/Rules: Path and Shapes are PieceRules.cpp, Validate is
--   RuleEngine.cpp; Clear, Lines, Pawns and Steps hold the proofs.
-- Realtime models server/chess_server/src/Realtime/RealTimeArbiter.cpp: the motions, the jumps and
--   the clock, which emit at most one step for each motion and the landings that are due.
-- Engine models server/chess_server/src/Engine/GameEngine.cpp. State is its fields, Cells finds
--   pieces on the board and in motion, Castling, Record (scores, notation, histories, events), Steps
--   (time events and wait) and Requests (moves, jumps, messages) are its methods. Frame and Effects
--   say which pieces each of them touches; Outcome, Progress, Settles, Wait, Invariant and Runs build
--   the proof about wait from them; Ledger, LedgerSteps and LedgerRuns follow what is recorded over
--   runs, Standing and Scores what a capture scores, Accepts how a request ends, and Played an engine
--   back to the one that it came from. Meeting says who is met on a cell, Stopped which pieces a step
--   leaves idle or captured, and Encounters shows how processStepEvent ends, as Endings lists it.
-- Messaging models the data of shared/cpp/include/Messaging, the events of the engine, and of
--   server/chess_server/src/Messaging the message bus, the event bus and its subscribers, whose
--   handlers change one shared record; Counts holds the proofs about them.
-- Control models GameStateSnapshotBuilder.cpp and EngineMessageHandler.cpp of the same directory,
--   server/chess_server/src/IO/BoardMapper.cpp and server/chess_server/src/Control/Controller.cpp,
--   which sends each request over its bus to the handler and reads the response back.
-- Client models client/desktop_client/src/Client/ClientGameState.cpp (the latest snapshot),
--   client/desktop_client/include/Client/GameStartState.hpp (the phases of the window),
--   shared/cpp/include/Client/Username.hpp, and GameClient.cpp and NetworkController.cpp of
--   client/desktop_client/src/Client (the connection, and the clicks of its player). Incoming and
--   Pending hold the proofs about the queue of the connection, Cells, Pieces and Clicks those about a
--   click, Sending and Numbering those about the requests that are sent, and Exchanges those about a request and
--   the response to it.
-- Lobby models client/desktop_client/src/Lobby/LobbyApplicationState.cpp with the events of
--   client/desktop_client/include/Network/LobbyProtocol.hpp: State is the view, Session and Apply are
--   its operations; Coherence, Revisions and Connection hold the proofs.
-- Server models server/chess_server/src/Server/GameServer.cpp and ClientSession.cpp. State is the
--   fields and the sessions, which a slot refers to by an id; Setup is createInitialBoard; Sessions
--   lets players in and out, Closing ends a game that waited for one too long, Service is
--   handleClient, and Loop is the game loop and the handshake, with all of it as a sequence of events.
--   Stable and Lasting state what a property needs in order to outlast each handler; Invariant, Runs,
--   Waiting, Deadline, Plays and Expired apply that to one property each; Admits, Return, Closes,
--   Guard, Starts and Broadcasts are about single operations, Replies is about what the
--   client makes of a response, and Exchange joins the server to the controller of its player.
-- TextBoard models server/chess_server/src/IO/BoardParser.cpp and BoardPrinter.cpp: Tokens and Parser
--   read a board, Printer prints one; Errors, Placing, Rows and RoundTrip hold the proofs.
-- Console models server/chess_server/src/App/ConsoleApp.cpp, which plays on a board that was read,
--   through the controller; Sessions is about whole sessions.
-- Graphics models client/desktop_client/src/Graphics/AnimationPlayer.cpp; Frames is about its loop.
-- Common has the integers, Boolean tests, lists and decimal texts that all parts share, and Tests
--   the concrete boards and runs.
--
-- Numbers. Positions, pixels and durations are integers (ℤ over the native numbers); times, scores
-- and sequence numbers are natural numbers that do not wrap. Texts of the game are lists of character
-- codes, those of the lobby are strings; reasons and phases are constructors named after their texts.
--
-- Fuel. The path loop takes the larger coordinate distance, which is enough on rows, columns and
-- diagonals. The loop of wait takes the number of steps by which the motions are behind the clock,
-- and one more for each landing: each round brings the motions closer or lands what is left. The
-- loop over waiting messages takes any number beyond their count. Digits of n take n + 1. The
-- broadcast of the server and the removal of a session call each other: two levels are enough, since
-- each removal empties one of the two slots. The loop over pending updates of the client takes the
-- number of messages that wait. The loop over the frames of an animation takes any number beyond the
-- milliseconds that have gone by.
--
-- Parameters. The configuration of the pieces (times for each cell, a jump and a rest) comes from
-- files that the program reads with regular expressions: the reader is an argument of the engine. The
-- random tokens of the server, its two clocks, and what the sockets of server and client do are
-- arguments too.
--
-- Not modelled: sockets, HTTP and WebSocket transports, the JSON protocol, threads and locks (each
-- locked method is one step, and each handler of the server runs to its end), drawing, sound, log
-- files, the words and numbers on the input stream of the console, the lobby's controller and input,
-- and the web services in Python.
pub mod Common
pub mod Core
pub mod Rules
pub mod Realtime
pub mod Messaging
pub mod Engine
pub mod Control
pub mod Client
pub mod Lobby
pub mod Server
pub mod TextBoard
pub mod Console
pub mod Graphics
pub mod Tests

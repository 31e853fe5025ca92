-- ===== src/Server/Service.antt =====
-- GameServer.cpp: `handleClient`, which greets a session, starts the game and answers requests. An
-- exception ends in the handler of the session's thread, which removes the session.
use ctd_tamar.Common.{
  ℕ, ◌+◌, Bool, true, false, not, ◌&&◌, ◌||◌, Option, none, some, List, [], ◌∷◌, if◌then◌else◌, ltb,
  leb,
}
use ctd_tamar.Core.Piece.{PieceColor, white, black, color_eq}
use ctd_tamar.Core.Board.{get_piece_at}
use ctd_tamar.Core.Results.{Reason}
use ctd_tamar.Messaging.Snapshot.{Message, MessageType, default_message, GameStateSnapshot}
use ctd_tamar.Messaging.Bus.{MessageBus, send_to_engine, receive_for_client}
use ctd_tamar.Messaging.Subscribers.{publish_started, standard_bus}
use ctd_tamar.Control.Builder.{build}
use ctd_tamar.Control.Handler.{process_next_message}
use ctd_tamar.Engine.State.{GameEngine, PieceConfigReader, current_time}
use ctd_tamar.Server.State.{Environment, GameServer, ClientSession, put_engine}
use ctd_tamar.Server.Sessions.{
  token_of, has_two_players, send_to, drop_session, waiting_message, broadcast, remove_session,
}

unfoldable pub build_snapshot : GameServer → GameStateSnapshot
unfolding has_two_players
build_snapshot s = record (build s.engine) {
  white_username = s.white_username;
  black_username = s.black_username;
  players_ready = s.game_started || (s.game_was_started && has_two_players s);
  gameplay_starts_at_epoch_ms = s.gameplay_starts_at_epoch_ms;
}

unfoldable pub is_gameplay_enabled : ℕ → GameServer → Bool
is_gameplay_enabled epoch s =
    s.game_started
    && (ltb 0 s.gameplay_starts_at_epoch_ms && leb s.gameplay_starts_at_epoch_ms epoch)

-- `disconnect` and `removeSession`, after the loop of requests or an exception.
unfoldable pub leave : ℕ → ℕ → GameServer → GameServer
leave now i s = remove_session now i (drop_session i s)

abbrev pub color_text : PieceColor → List ℕ
color_text white = b'w' ∷ b'h' ∷ b'i' ∷ b't' ∷ b'e' ∷ []
color_text black = b'b' ∷ b'l' ∷ b'a' ∷ b'c' ∷ b'k' ∷ []

abbrev pub assignment : ClientSession → GameServer → Message
assignment c s = record default_message {
  type = MessageType.player_assigned;
  accepted = true;
  reason = Reason.player_assigned;
  player_color = color_text c.assigned_color;
  reconnect_token = token_of c.assigned_color s;
  username = c.username;
  white_username = s.white_username;
  black_username = s.black_username;
}

abbrev pub state_message : Reason → GameServer → Message
state_message why s = record default_message {
  type = MessageType.game_state_updated;
  accepted = true;
  reason = why;
  created_at_ms = current_time s.engine;
  has_snapshot = true;
  snapshot = build_snapshot s;
}

abbrev pub started_message : GameServer → Message
started_message s = record default_message {
  type = MessageType.game_started;
  accepted = true;
  reason = Reason.game_started;
  white_username = s.white_username;
  black_username = s.black_username;
  has_snapshot = true;
  snapshot = build_snapshot s;
}

-- The first start of a game sets its beginning; a return to it does not.
unfoldable pub mark_started : ℕ → GameServer → GameServer
unfolding publish_started
mark_started epoch s =
    let t = record s {
      game_started = true;
      game_was_started = true;
      reconnection_pending = false;
    } in
    if s.game_was_started then t else record t {
      gameplay_starts_at_epoch_ms = epoch + 4000;
      subscribers = (publish_started standard_bus s.subscribers).0;
    }

unfoldable pub start_game : ℕ → ℕ → GameServer → GameServer
unfolding mark_started
start_game epoch now s =
    if s.game_started
    then s
    else (let t = mark_started epoch s in broadcast now (started_message t) t)

unfoldable pub welcome : ℕ → ℕ → ℕ → GameServer → GameServer
unfolding start_game has_two_players
welcome epoch now i s =
    let out = send_to i waiting_message s in
    if has_two_players s
    then start_game epoch now s
    else (if out.1 then out.0 else leave now i out.0)

-- What `handleClient` does before its loop of requests.
unfoldable pub greet : ℕ → ℕ → ℕ → GameServer → GameServer
unfolding welcome leave send_to
greet epoch now i s =
    let a = send_to i (assignment (s.sessions i) s) s in
    let b = send_to i (state_message Reason.initial_state a.0) a.0 in
    if not a.1
    then leave now i a.0
    else (if not b.1 then leave now i b.0 else welcome epoch now i b.0)

-- Whether a piece of the other colour stands on the request's source.
unfoldable pub is_foreign : PieceColor → Message → GameServer → Bool
unfolding get_piece_at
is_foreign color m s = elim (get_piece_at s.engine.board m.source) [
  | none ↦ false
  | some r ↦ not (color_eq (s.engine.heap r).color color)
]

abbrev pub rejection : Reason → Message → GameServer → Message
rejection why m s = record default_message {
  type = MessageType.move_rejected;
  sequence = m.sequence;
  source = m.source;
  destination = m.destination;
  accepted = false;
  reason = why;
  created_at_ms = current_time s.engine;
  has_snapshot = true;
  snapshot = build_snapshot s;
}

-- The request goes through the message bus; `none` is an exception.
unfoldable pub take_answer :
    GameServer → (GameEngine × MessageBus) × Bool → GameServer × Option Message
take_answer s ((g, b), false) = (record (put_engine g s) { message_bus = b }, none)
take_answer s ((g, b), true) = elim (receive_for_client b) [
  | none ↦ (record (put_engine g s) { message_bus = b }, none)
  | some (m, rest) ↦ (record (put_engine g s) { message_bus = rest }, some m)
]

unfoldable pub ask_engine : PieceConfigReader → Message → GameServer → GameServer × Option Message
unfolding take_answer process_next_message
ask_engine load m s =
    take_answer s (process_next_message load (s.engine, send_to_engine m s.message_bus))

unfoldable pub answer :
    Environment → ℕ → PieceColor → Message → GameServer → GameServer × Option Message
unfolding is_gameplay_enabled ask_engine
answer env epoch color m s =
    if not (is_gameplay_enabled epoch s)
    then (
      s,
      some (
          rejection
            (if s.game_started then Reason.countdown_in_progress else Reason.waiting_for_opponent) m
            s),
    )
    else (if is_foreign color m s
        then (s, some (rejection Reason.not_your_piece m s))
        else ask_engine env.load m s)

abbrev pub reply : ℕ → ℕ → GameServer × Option Message → GameServer
reply now i (s, none) = leave now i s
reply now i (s, some m) = let out = send_to i m s in if out.1 then out.0 else leave now i out.0

-- One round of the loop of requests; what cannot be read is `none`, as is an empty text.
unfoldable pub serve : Environment → ℕ → ℕ → ℕ → Option Message → GameServer → GameServer
unfolding answer leave send_to
serve env epoch now i none s = leave now i s
serve env epoch now i (some m) s =
    if (s.sessions i).connected
    then reply now i (answer env epoch (s.sessions i).assigned_color m s)
    else leave now i s

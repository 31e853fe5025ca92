-- ===== src/Server/State.antt =====
-- server/chess_server/include/Server: GameServer.hpp and ClientSession.hpp. A message on the wire is
-- a value, times are nanoseconds of the steady clock, and a session's address is its client id.
use ctd_tamar.Common.{
  ℕ, Bool, true, false, not, Option, none, some, List, [], ◌∷◌, ◌++◌, ◌==◌, if◌then◌else◌, drop,
  length,
}
use ctd_tamar.Core.Piece.{PieceColor, white}
use ctd_tamar.Messaging.Snapshot.{Message}
use ctd_tamar.Messaging.Event.{GameEvent}
use ctd_tamar.Messaging.Bus.{MessageBus}
use ctd_tamar.Messaging.Bus
use ctd_tamar.Messaging.EventBus.{publish}
use ctd_tamar.Messaging.Subscribers.{Subscribers, standard_bus}
use ctd_tamar.Messaging.Subscribers
use ctd_tamar.Engine.State.{GameEngine, PieceConfigReader}
use ctd_tamar.Engine.State
use ctd_tamar.Server.Setup.{initial_board}

-- What the server takes from outside of it: the piece configuration and the random tokens.
pub record Environment : Type 0 where
  pub load : PieceConfigReader
  pub make_token : ℕ → List ℕ

-- A session with its connection: `sent` is what the peer was sent, oldest first, and a write to a
-- `broken` connection throws.
pub record ClientSession : Type 0 where
  pub client_id : ℕ
  pub assigned_color : PieceColor
  pub username : List ℕ
  pub connected : Bool
  pub is_open : Bool
  pub broken : Bool
  pub sent : List Message

abbrev pub new_session : ℕ → PieceColor → List ℕ → ClientSession
new_session id color name = record {
  client_id = id;
  assigned_color = color;
  username = name;
  connected = true;
  is_open = true;
  broken = false;
  sent = [];
}

-- `ClientSession::sendMessage`; the flag is false where it throws.
unfoldable pub send_message : Message → ClientSession → ClientSession × Bool
send_message m c =
    if not c.connected
    then (c, true)
    else (if c.broken then (c, false) else (record c { sent = c.sent ++ m ∷ [] }, true))

-- `ClientSession::disconnect`.
unfoldable pub disconnect : ClientSession → ClientSession
disconnect c = if not c.connected then c else record c { connected = false; is_open = false }

pub record GameServer : Type 0 where
  pub sessions : ℕ → ClientSession
  pub subscribers : Subscribers
  pub engine : GameEngine
  pub message_bus : MessageBus
  pub white_player : Option ℕ
  pub black_player : Option ℕ
  pub next_client_id : ℕ
  pub game_started : Bool
  pub white_reconnect_token : List ℕ
  pub black_reconnect_token : List ℕ
  pub white_username : List ℕ
  pub black_username : List ℕ
  pub expired_reconnect_tokens : List (List ℕ)
  pub game_was_started : Bool
  pub reconnection_pending : Bool
  pub closing_expired_game : Bool
  pub reserved_color : PieceColor
  pub reconnection_deadline : ℕ
  pub last_reconnect_seconds_sent : Option ℕ
  pub gameplay_starts_at_epoch_ms : ℕ

-- An engine on the standard board, with the server's event bus.
unfoldable pub fresh_engine : GameEngine
fresh_engine = State.new initial_board.0 initial_board.1 true

-- No session stands at an address before it is given out.
abbrev pub no_session : ClientSession
no_session = record (new_session 0 white []) { connected = false; is_open = false }

abbrev pub new : GameServer
new = record {
  sessions = λ _. no_session;
  subscribers = Subscribers.new;
  engine = fresh_engine;
  message_bus = Bus.new;
  white_player = none;
  black_player = none;
  next_client_id = 1;
  game_started = false;
  white_reconnect_token = [];
  black_reconnect_token = [];
  white_username = [];
  black_username = [];
  expired_reconnect_tokens = [];
  game_was_started = false;
  reconnection_pending = false;
  closing_expired_game = false;
  reserved_color = white;
  reconnection_deadline = 0;
  last_reconnect_seconds_sent = none;
  gameplay_starts_at_epoch_ms = 0;
}

-- A write to the session at an address.
unfoldable pub put_session : ℕ → ClientSession → GameServer → GameServer
put_session i c s = record s { sessions = λ j. if j == i then c else s.sessions j }

unfoldable pub receive_events : List GameEvent → Subscribers → Subscribers
receive_events [] s = s
receive_events (e ∷ es) s = receive_events es (publish e standard_bus s)

-- The engine after a call, whose new events have reached the subscribers.
unfoldable pub put_engine : GameEngine → GameServer → GameServer
unfolding receive_events
put_engine g s = record s {
  engine = g;
  subscribers = receive_events (drop (length s.engine.published) g.published) s.subscribers;
}

abbrev pub is_connected : Option ℕ → GameServer → Bool
is_connected none s = false
is_connected (some i) s = (s.sessions i).connected

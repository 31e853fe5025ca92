-- ===== src/Client/GameClient.antt =====
-- client/desktop_client/src/Client/GameClient.cpp: the connection of a player to the game server.
-- The socket is outside of the model: what arrives and what fails are arguments.
use ctd_tamar.Common.{
  ℕ, suc, Bool, true, false, not, ◌&&◌, ◌||◌, Option, none, some, List, [], ◌∷◌, ◌++◌, ◌==◌,
  if◌then◌else◌, same_text,
}
use ctd_tamar.Core.Piece.{PieceColor, white, black}
use ctd_tamar.Messaging.Snapshot.{
  Message, MessageType, default_message, move_accepted, move_rejected, player_assigned,
  waiting_for_opponent, game_started, game_full, reconnecting, game_closed, reconnect_request,
}
use ctd_tamar.Server.Service.{color_text}

-- The texts of the errors, named.
pub data ConnectionError : Type 0 where
  server_disconnected send_failed invalid_color connect_failed unreadable_message : ConnectionError

-- `incoming_messages` is oldest first; `handshakes` and `sent` are what
-- `connectWithSavedToken` and `send` have written.
pub record GameClient : Type 0 where
  pub connected : Bool
  pub player_assigned : Bool
  pub game_started : Bool
  pub game_ever_started : Bool
  pub game_full : Bool
  pub reconnecting : Bool
  pub trying_to_reconnect : Bool
  pub game_closed : Bool
  pub stop_requested : Bool
  pub reconnect_seconds_remaining : ℕ
  pub assigned_color : PieceColor
  pub next_sequence : ℕ
  pub incoming_messages : List Message
  pub connection_error : Option ConnectionError
  pub reconnect_token : List ℕ
  pub username : List ℕ
  pub white_username : List ℕ
  pub black_username : List ℕ
  pub handshakes : List Message
  pub sent : List Message

-- The constructor, with the token that the environment holds.
abbrev pub new : List ℕ → GameClient
new token = record {
  connected = false;
  player_assigned = false;
  game_started = false;
  game_ever_started = false;
  game_full = false;
  reconnecting = false;
  trying_to_reconnect = false;
  game_closed = false;
  stop_requested = false;
  reconnect_seconds_remaining = 0;
  assigned_color = white;
  next_sequence = 1;
  incoming_messages = [];
  connection_error = none;
  reconnect_token = token;
  username = [];
  white_username = [];
  black_username = [];
  handshakes = [];
  sent = [];
}

abbrev pub reconnect_message : GameClient → Message
reconnect_message c = record default_message {
  type = reconnect_request;
  reconnect_token = c.reconnect_token;
  username = c.username;
}

-- `connectWithSavedToken`, given the error of connecting or of the first send, if there is one.
unfoldable pub connect_with_saved_token : Option ConnectionError → GameClient → GameClient × Bool
connect_with_saved_token (some e) c = (record c { connection_error = some e }, false)
connect_with_saved_token none c =
    let d = record c { handshakes = c.handshakes ++ reconnect_message c ∷ [] } in
    if c.stop_requested
    then (d, false)
    else (record d { connected = true; connection_error = none }, true)

-- `connectTo`; the flag is false where it throws.
unfoldable pub connect_to : List ℕ → Option ConnectionError → GameClient → GameClient × Bool
unfolding connect_with_saved_token
connect_to name error c =
    if c.connected
    then (c, false)
    else connect_with_saved_token error (record (new c.reconnect_token) {
      username = name;
      handshakes = c.handshakes;
      sent = c.sent;
    })

unfoldable pub mark_connection_lost : ConnectionError → GameClient → GameClient
mark_connection_lost e c = record c {
  connected = false;
  trying_to_reconnect =
      c.trying_to_reconnect
      || (c.player_assigned && (not c.game_full && (not c.game_closed && not c.stop_requested)));
  connection_error = some e;
}

abbrev pub newer_name : List ℕ → List ℕ → List ℕ
newer_name [] old = old
newer_name (x ∷ xs) old = x ∷ xs

abbrev pub names_players : MessageType → Bool
names_players player_assigned = true
names_players game_started = true
names_players _ = false

-- The names of the players, from a snapshot or from the two messages that carry them.
unfoldable pub learn_names : Message → GameClient → GameClient
learn_names m c =
    if m.has_snapshot
    then record c {
      white_username = newer_name m.snapshot.white_username c.white_username;
      black_username = newer_name m.snapshot.black_username c.black_username;
    }
    else (if names_players m.type
        then record c { white_username = m.white_username; black_username = m.black_username }
        else c)

abbrev pub assign : PieceColor → Message → GameClient → GameClient
assign color m c = record c {
  assigned_color = color;
  player_assigned = true;
  reconnect_token = m.reconnect_token;
  username = m.username;
}

-- An unknown colour is an exception, which ends the connection.
unfoldable pub receive_assignment : Message → GameClient → GameClient
unfolding mark_connection_lost same_text
receive_assignment m c =
    if same_text m.player_color (color_text white)
    then assign white m c
    else (if same_text m.player_color (color_text black)
        then assign black m c
        else (if c.stop_requested then c else mark_connection_lost invalid_color c))

abbrev pub enqueue : Message → GameClient → GameClient
enqueue m c = record c { incoming_messages = c.incoming_messages ++ m ∷ [] }

-- What a message of each type changes beside the queue.
abbrev pub note_message : MessageType → Message → GameClient → GameClient
note_message waiting_for_opponent m c = record c {
  game_started = c.game_started && c.game_ever_started;
  reconnecting = false;
  trying_to_reconnect = false;
  reconnect_seconds_remaining = 0;
}
note_message game_started m c = record c {
  game_started = true;
  game_ever_started = true;
  reconnecting = false;
  trying_to_reconnect = false;
  reconnect_seconds_remaining = 0;
}
note_message game_full m c = record c {
  game_started = false;
  trying_to_reconnect = false;
  game_full = true;
}
note_message reconnecting m c = record c {
  reconnecting = true;
  reconnect_seconds_remaining = m.seconds_remaining;
}
note_message game_closed m c = record c {
  game_started = false;
  reconnecting = false;
  trying_to_reconnect = false;
  game_closed = true;
  reconnect_seconds_remaining = 0;
}
note_message _ m c = c

abbrev pub receive_by_type : MessageType → Message → GameClient → GameClient
receive_by_type player_assigned m c = receive_assignment m c
receive_by_type t m c = enqueue m (note_message t m c)

-- A round of the receiving loop for one message.
unfoldable pub receive_message : Message → GameClient → GameClient
unfolding learn_names receive_assignment
receive_message m c = receive_by_type m.type m (learn_names m c)

-- The receiving loop on what arrives, as long as it is connected and not stopped.
unfoldable pub receive_messages : List Message → GameClient → GameClient
unfolding receive_message
receive_messages [] c = c
receive_messages (m ∷ ms) c =
    receive_messages ms (if c.connected && not c.stop_requested then receive_message m c else c)

-- Whether the receiving thread ends once its connection is lost.
abbrev pub gives_up : GameClient → Bool
gives_up c = c.stop_requested || (c.game_full || (c.game_closed || not c.player_assigned))

-- The attempts to reconnect, one a second, until one succeeds; each comes with its error, if any.
unfoldable pub reconnect : List (Option ConnectionError) → GameClient → GameClient
unfolding connect_with_saved_token
reconnect [] c = c
reconnect (e ∷ es) c =
    let out = connect_with_saved_token e c in
    let rest = reconnect es out.0 in if out.1 then out.0 else rest

-- The end of a connection: the thread stops, or tries to reconnect.
unfoldable pub after_loss : List (Option ConnectionError) → GameClient → GameClient
unfolding reconnect
after_loss attempts c =
    if gives_up c
    then record c { connected = false }
    else reconnect attempts (record c { trying_to_reconnect = true })

abbrev pub disconnect : GameClient → GameClient
disconnect c = record c {
  stop_requested = true;
  trying_to_reconnect = false;
  game_started = false;
  connected = false;
}

abbrev pub create_sequence : GameClient → GameClient × ℕ
create_sequence c = (record c { next_sequence = suc c.next_sequence }, c.next_sequence)

-- `send`; the flag is false where it throws.
unfoldable pub send : Bool → Message → GameClient → GameClient × Bool
unfolding mark_connection_lost
send fails m c =
    if not c.connected
    then (c, false)
    else (if fails
        then (mark_connection_lost send_failed c, false)
        else (record c { sent = c.sent ++ m ∷ [] }, true))

abbrev pub is_response : MessageType → Bool
is_response move_accepted = true
is_response move_rejected = true
is_response _ = false

abbrev pub is_matching_response : ℕ → Message → Bool
is_matching_response sequence m = m.sequence == sequence && is_response m.type

-- The first message that passes a test, and the others.
unfoldable pub take_first : (Message → Bool) → List Message → Option (Message × List Message)
take_first test [] = none
take_first test (m ∷ ms) =
    if test m
    then some (m, ms)
    else elim (take_first test ms) [ none ↦ none | some (x, rest) ↦ some (x, m ∷ rest) ]

abbrev pub put_back : GameClient → Option (Message × List Message) → GameClient × Option Message
put_back c none = (c, none)
put_back c (some (m, rest)) = (record c { incoming_messages = rest }, some m)

-- `waitForResponse` once it has been woken; `none` is an exception, after a timeout or a loss.
unfoldable pub take_response : ℕ → GameClient → GameClient × Option Message
unfolding take_first
take_response sequence c =
    put_back c (take_first (is_matching_response sequence) c.incoming_messages)

unfoldable pub try_receive_update : GameClient → GameClient × Option Message
unfolding take_first
try_receive_update c =
    put_back c (take_first (λ (m : Message). not (is_response m.type)) c.incoming_messages)

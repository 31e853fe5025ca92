-- ===== src/Server/Sessions.antt =====
-- GameServer.cpp: who is let in, what the players are told, and what happens when one leaves. Each
-- part that holds the lock of the players is one step.
use ctd_tamar.Common.{
  ℕ, zero, suc, ◌+◌, ◌*◌, Bool, true, false, not, ◌&&◌, ◌||◌, Option, none, some, List, [], ◌∷◌,
  ◌++◌, ◌==◌, if◌then◌else◌, is_empty_list, same_text, contains_text,
}
use ctd_tamar.Core.Piece.{PieceColor, white, black}
use ctd_tamar.Core.Results.{Reason}
use ctd_tamar.Messaging.Snapshot.{Message, MessageType, default_message}
use ctd_tamar.Client.Username.{trim, is_valid}
use ctd_tamar.Server.State.{
  Environment, new_session, send_message, disconnect, GameServer, put_session, is_connected,
}

-- How `createSession` ends: a message to a connection that is closed, or a session.
pub data Admission : Type 0 where
  refused : Message → Admission
  admitted : ℕ → Admission

abbrev pub refusal : MessageType → Reason → Admission
refusal t why = refused (record default_message { type = t; accepted = false; reason = why })

-- White's value or Black's.
abbrev pub pick : {A : Type 0} → PieceColor → A → A → A
pick white a b = a
pick black a b = b

abbrev pub token_of : PieceColor → GameServer → List ℕ
token_of color s = pick color s.white_reconnect_token s.black_reconnect_token

abbrev pub username_of : PieceColor → GameServer → List ℕ
username_of color s = pick color s.white_username s.black_username

abbrev pub player_of : PieceColor → GameServer → Option ℕ
player_of color s = pick color s.white_player s.black_player

abbrev pub set_player : PieceColor → Option ℕ → GameServer → GameServer
set_player color o s = record s {
  white_player = pick color o s.white_player;
  black_player = pick color s.black_player o;
}

abbrev pub set_identity : PieceColor → List ℕ → List ℕ → GameServer → GameServer
set_identity color token name s = record s {
  white_reconnect_token = pick color token s.white_reconnect_token;
  black_reconnect_token = pick color s.black_reconnect_token token;
  white_username = pick color name s.white_username;
  black_username = pick color s.black_username name;
}

-- A new session in a player's slot.
unfoldable pub seat : ℕ → PieceColor → List ℕ → GameServer → GameServer
unfolding put_session
seat i color name s = set_player color (some i) (put_session i (new_session i color name) s)

unfoldable pub valid_reconnect : List ℕ → GameServer → Bool
valid_reconnect token s =
    s.reconnection_pending
    && (not (is_empty_list token) && same_text token (token_of s.reserved_color s))

unfoldable pub has_expired : List ℕ → GameServer → Bool
has_expired token s = not (is_empty_list token) && contains_text token s.expired_reconnect_tokens

abbrev pub invalid_reason : List ℕ → Reason
invalid_reason [] = Reason.empty_username
invalid_reason (_ ∷ _) = Reason.invalid_username

-- The reserved slot goes to the holder of its token.
unfoldable pub reclaim : ℕ → GameServer → GameServer
unfolding seat
reclaim i s = record (seat i s.reserved_color (username_of s.reserved_color s) s) {
  reconnection_pending = false;
  last_reconnect_seconds_sent = none;
}

unfoldable pub join : Environment → ℕ → PieceColor → List ℕ → GameServer → GameServer
unfolding seat
join env i color name s = seat i color name (set_identity color (env.make_token i) name s)

-- The free slots, White's first, where none is reserved.
unfoldable pub assign_slot : Environment → ℕ → List ℕ → GameServer → GameServer × Admission
assign_slot env i name s =
    if not s.reconnection_pending && not (is_connected s.white_player s)
    then (join env i white name s, admitted i)
    else (if not s.reconnection_pending && not (is_connected s.black_player s)
        then (join env i black name s, admitted i)
        else (s, refusal MessageType.game_full Reason.game_full))

-- `createSession` once a client id is taken.
unfoldable pub admit : Environment → ℕ → List ℕ → List ℕ → GameServer → GameServer × Admission
unfolding has_expired valid_reconnect
admit env i token name s =
    if s.closing_expired_game
    then (s, refusal MessageType.game_full Reason.game_closing)
    else (if has_expired token s
        then (s, refusal MessageType.game_closed Reason.opponent_did_not_reconnect)
        else (if not (valid_reconnect token s) && not (is_valid name)
            then (s, refusal MessageType.invalid_username (invalid_reason name))
            else (if valid_reconnect token s
                then (reclaim i s, admitted i)
                else assign_slot env i name s)))

unfoldable pub create_session : Environment → List ℕ → List ℕ → GameServer → GameServer × Admission
unfolding admit
create_session env token requested s =
    admit env s.next_client_id token (trim requested)
      (record s { next_client_id = suc s.next_client_id })

unfoldable pub has_two_players : GameServer → Bool
has_two_players s = is_connected s.white_player s && is_connected s.black_player s

abbrev pub slot_list : Option ℕ → List ℕ
slot_list none = []
slot_list (some i) = i ∷ []

-- The connected players, White first.
unfoldable pub connected_players : GameServer → List ℕ
connected_players s =
    (if is_connected s.white_player s then slot_list s.white_player else [])
    ++ (if is_connected s.black_player s then slot_list s.black_player else [])

-- A send to one session and whether it went through.
unfoldable pub send_to : ℕ → Message → GameServer → GameServer × Bool
unfolding send_message put_session
send_to i m s = let out = send_message m (s.sessions i) in (put_session i out.0 s, out.1)

unfoldable pub drop_session : ℕ → GameServer → GameServer
unfolding disconnect put_session
drop_session i s = put_session i (disconnect (s.sessions i)) s

-- The loop of `broadcast`: a player whose connection fails is removed, by a call that is passed in.
unfoldable pub send_each :
    (ℕ → GameServer → GameServer) → Message → List ℕ → GameServer → GameServer
send_each remove m [] s = s
send_each remove m (i ∷ is) s =
    let out = send_to i m s in
    send_each remove m is (if out.1 then out.0 else remove i (drop_session i out.0))

abbrev pub reconnecting_message : ℕ → Message
reconnecting_message seconds = record default_message {
  type = MessageType.reconnecting;
  accepted = true;
  reason = Reason.opponent_disconnected;
  seconds_remaining = seconds;
}

abbrev pub waiting_message : Message
waiting_message = record default_message {
  type = MessageType.waiting_for_opponent;
  accepted = true;
  reason = Reason.waiting_for_opponent;
}

abbrev pub holds : Option ℕ → ℕ → Bool
holds none i = false
holds (some j) i = j == i

abbrev pub vacate : Option ℕ → ℕ → Option ℕ
vacate o i = if holds o i then none else o

-- The slots without a session that leaves.
unfoldable pub vacated : ℕ → GameServer → GameServer
vacated i s = record s {
  white_player = vacate s.white_player i;
  black_player = vacate s.black_player i;
  game_started = false;
}

abbrev pub first_player : Option ℕ → Option ℕ → Option ℕ
first_player none o = o
first_player (some i) _ = some i

-- Twenty seconds of the steady clock.
abbrev pub reconnection_period : ℕ
reconnection_period = 20 * 1000000000

unfoldable pub reserve : ℕ → PieceColor → GameServer → GameServer
reserve now color s = record s {
  reserved_color = color;
  reconnection_pending = true;
  reconnection_deadline = now + reconnection_period;
  last_reconnect_seconds_sent = none;
}

unfoldable pub forget : PieceColor → GameServer → GameServer
forget color s = if s.game_was_started then s else set_identity color [] [] s

-- A failed send only disconnects here.
unfoldable pub notify_waiting : Option ℕ → GameServer → GameServer
unfolding send_to drop_session
notify_waiting none s = s
notify_waiting (some i) s =
    let out = send_to i waiting_message s in if out.1 then out.0 else drop_session i out.0

abbrev pub remaining_of : GameServer → Option ℕ
remaining_of s = first_player s.white_player s.black_player

abbrev pub reserves_slot : GameServer → Bool
reserves_slot s =
    s.game_was_started && (not s.closing_expired_game && is_connected (remaining_of s) s)

-- `removeSession` once a slot is empty.
unfoldable pub depart : (ℕ → GameServer → GameServer) → ℕ → PieceColor → GameServer → GameServer
unfolding reserve forget notify_waiting
depart announce now color s =
    if reserves_slot s
    then announce 20 (reserve now color s)
    else notify_waiting (if is_connected (remaining_of s) s then remaining_of s else none)
        (forget color s)

-- `removeSession`, which announces a reserved slot by the call that is passed in.
unfoldable pub remove_with : (ℕ → GameServer → GameServer) → ℕ → ℕ → GameServer → GameServer
unfolding depart vacated
remove_with announce now i s =
    if holds s.white_player i || holds s.black_player i
    then depart announce now (s.sessions i).assigned_color (vacated i s)
    else s

-- `broadcast`. It removes the players that it cannot reach, which may broadcast again to the other
-- one; each round empties a slot, so that two levels are enough.
unfoldable pub broadcast_with : ℕ → ℕ → Message → GameServer → GameServer
unfolding connected_players
broadcast_with zero now m s = s
broadcast_with (suc fuel) now m s =
    send_each (remove_with (λ seconds. broadcast_with fuel now (reconnecting_message seconds)) now)
      m (connected_players s) s

unfoldable pub broadcast : ℕ → Message → GameServer → GameServer
unfolding broadcast_with
broadcast now m s = broadcast_with 2 now m s

unfoldable pub send_reconnecting_status : ℕ → ℕ → GameServer → GameServer
unfolding broadcast
send_reconnecting_status now seconds s = broadcast now (reconnecting_message seconds) s

unfoldable pub remove_session : ℕ → ℕ → GameServer → GameServer
unfolding remove_with
remove_session now i s = remove_with (send_reconnecting_status now) now i s

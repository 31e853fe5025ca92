-- ===== src/Lobby/Apply.antt =====
-- client/desktop_client/src/Lobby/LobbyApplicationState.cpp. The events; the log lines are left out.
use Prim.Native.String.{◌++◌}
use ctd_tamar.Common.{
  ltb, pos, String, Bool, true, false, ◌&&◌, Option, none, some, List, if◌then◌else◌,
}
use ctd_tamar.Lobby.Events.{
  LobbyRoom, GameStartedEvent, WatchingGameEvent, MatchReadyEvent, MatchCountdownEvent,
  MatchStartedEvent, MatchStateEvent, MoveResultEvent, LobbyEvent, connected, pong, lobby_snapshot,
  room_created, game_started, watching_game, match_ready, match_countdown, match_started,
  match_cancelled, match_snapshot, match_state, move_result, spectator_left, opponent_disconnected,
  room_status, protocol_error, searching, match_not_found, find_match_cancelled, rating_updated,
  text_eq,
}
use ctd_tamar.Lobby.State.{
  LobbyScreen, authentication, connecting, lobby, waiting_room, hidden_room_waiting, room_ready,
  spectator_placeholder, game, spectator_game, no_modal, PendingLobbyAction, no_action,
  join_public_room, join_hidden, watch_room, find_match, MatchPhase, countdown, playing,
  AuthoritativeMatchView, LobbyViewModel,
}

-- A snapshot of the lobby shows it only to one who waits for it or is there.
abbrev pub snapshot_screen : LobbyScreen → LobbyScreen
snapshot_screen connecting = lobby
snapshot_screen authentication = lobby
snapshot_screen s = s

-- A join or a watch is still waited for.
abbrev pub snapshot_action : PendingLobbyAction → PendingLobbyAction
snapshot_action join_public_room = join_public_room
snapshot_action join_hidden = join_hidden
snapshot_action watch_room = watch_room
snapshot_action _ = no_action

abbrev pub apply_lobby_snapshot : List LobbyRoom → List LobbyRoom → LobbyViewModel → LobbyViewModel
apply_lobby_snapshot waiting active v = record v {
  waiting_rooms = waiting;
  active_rooms = active;
  screen = snapshot_screen v.screen;
  status_message = "";
  visible_error = "";
  pending_action = snapshot_action v.pending_action;
  waiting_page = 0;
  active_page = 0;
}

-- The waiting room of a room with its code, if it has one.
abbrev pub created_screen : String → Option String → LobbyViewModel → LobbyViewModel
created_screen visibility none v = record v { screen = waiting_room }
created_screen visibility (some code) v =
    if text_eq visibility "hidden"
    then record v { hidden_room_code = code; screen = hidden_room_waiting }
    else record v { screen = waiting_room }

abbrev pub apply_room_created : LobbyRoom → LobbyViewModel → LobbyViewModel
apply_room_created room v = record (created_screen room.visibility room.room_code v) {
  pending_action = no_action;
  current_room_name = room.name;
  room_name_input = "";
  modal = no_modal;
  pending_room_id = room.room_id;
}

abbrev pub apply_game_started : GameStartedEvent → LobbyViewModel → LobbyViewModel
apply_game_started e v = record v {
  current_room_name = e.room_name;
  room_ready = some (record {
    room_id = e.room_id;
    room_name = e.room_name;
    assigned_color = e.color;
    opponent_username = e.opponent.username;
    opponent_rating = e.opponent.rating;
  });
  screen = room_ready;
  pending_action = no_action;
}

abbrev pub apply_watching_game : WatchingGameEvent → LobbyViewModel → LobbyViewModel
apply_watching_game e v = record v {
  spectator = some (record {
    room_id = e.room_id;
    room_name = e.room_name;
    white_username = e.white.username;
    black_username = e.black.username;
    spectator_count = e.spectator_count;
  });
  screen = spectator_placeholder;
  pending_action = no_action;
}

abbrev pub match_of : MatchReadyEvent → AuthoritativeMatchView
match_of e = record {
  room_id = e.room_id;
  assigned_color = e.color;
  opponent_username = e.opponent;
  revision = e.revision;
  next_sequence = 1;
  snapshot = e.state;
  selected_source = none;
  move_status = "";
  spectator = text_eq e.color "spectator";
  phase = countdown;
  game_starts_at = e.game_starts_at;
  countdown_value = "3";
  white_rating = e.white_rating;
  black_rating = e.black_rating;
}

abbrev pub apply_match_ready : MatchReadyEvent → LobbyViewModel → LobbyViewModel
apply_match_ready e v = record v {
  current_match = some (match_of e);
  pending_room_id = e.room_id;
  screen = if text_eq e.color "spectator" then spectator_game else game;
  room_ready = none;
  pending_action = no_action;
}

abbrev pub apply_match_snapshot : MatchStateEvent → LobbyViewModel → LobbyViewModel
apply_match_snapshot e v = record v {
  current_match = some (record {
    room_id = e.room_id;
    assigned_color = "";
    opponent_username = "";
    revision = e.revision;
    next_sequence = 1;
    snapshot = e.state;
    selected_source = none;
    move_status = "";
    spectator = true;
    phase = playing;
    game_starts_at = "";
    countdown_value = "";
    white_rating = pos 1200;
    black_rating = pos 1200;
  });
  pending_room_id = e.room_id;
  screen = spectator_game;
  pending_action = no_action;
}

abbrev pub is_countdown : MatchPhase → Bool
is_countdown countdown = true
is_countdown _ = false

-- A change of the match, where there is one and its room is the event's.
abbrev pub update_match :
    String
    → (AuthoritativeMatchView → AuthoritativeMatchView)
    → Option AuthoritativeMatchView
    → Option AuthoritativeMatchView
update_match room f none = none
update_match room f (some m) = if text_eq m.room_id room then some (f m) else some m

abbrev pub apply_to_match :
    String → (AuthoritativeMatchView → AuthoritativeMatchView) → LobbyViewModel → LobbyViewModel
apply_to_match room f v = record v { current_match = update_match room f v.current_match }

abbrev pub count_match : MatchCountdownEvent → AuthoritativeMatchView → AuthoritativeMatchView
count_match e m =
    if is_countdown m.phase && text_eq m.game_starts_at e.game_starts_at
    then record m { countdown_value = e.value }
    else m

abbrev pub start_match : MatchStartedEvent → AuthoritativeMatchView → AuthoritativeMatchView
start_match e m = record m {
  revision = e.revision;
  snapshot = e.state;
  phase = playing;
  countdown_value = "";
}

-- Only a later revision replaces the game.
abbrev pub advance_match : MatchStateEvent → AuthoritativeMatchView → AuthoritativeMatchView
advance_match e m =
    if ltb m.revision e.revision then record m { revision = e.revision; snapshot = e.state } else m

abbrev pub answer_move : MoveResultEvent → AuthoritativeMatchView → AuthoritativeMatchView
answer_move e m = record m {
  move_status = if e.accepted then "" else "Move rejected: " ++ e.reason;
}

abbrev pub is_match_of : String → Option AuthoritativeMatchView → Bool
is_match_of room none = false
is_match_of room (some m) = text_eq m.room_id room

abbrev pub apply_match_cancelled : String → LobbyViewModel → LobbyViewModel
apply_match_cancelled room v =
    if is_match_of room v.current_match
    then record v {
      current_match = none;
      screen = lobby;
      visible_error = "Match cancelled because a player disconnected.";
    }
    else v

abbrev pub apply_room_status : String → LobbyViewModel → LobbyViewModel
apply_room_status status v =
    if text_eq status "removed"
    then record v {
      screen = lobby;
      visible_error = "The room is no longer available.";
      pending_room_id = "";
      spectator = none;
      pending_action = no_action;
    }
    else record v { pending_action = no_action }

unfoldable pub apply_event : LobbyEvent → LobbyViewModel → LobbyViewModel
apply_event (connected user) v = record v {
  authenticated_username = user.username;
  authenticated_user_rating = user.rating;
  status_message = "Loading lobby...";
}
apply_event pong v = v
apply_event (lobby_snapshot waiting active) v = apply_lobby_snapshot waiting active v
apply_event (room_created room) v = apply_room_created room v
apply_event (game_started e) v = apply_game_started e v
apply_event (watching_game e) v = apply_watching_game e v
apply_event (match_ready e) v = apply_match_ready e v
apply_event (match_countdown e) v = apply_to_match e.room_id (count_match e) v
apply_event (match_started e) v = apply_to_match e.room_id (start_match e) v
apply_event (match_cancelled room reason) v = apply_match_cancelled room v
apply_event (match_snapshot e) v = apply_match_snapshot e v
apply_event (match_state e) v = apply_to_match e.room_id (advance_match e) v
apply_event (move_result e) v = apply_to_match e.room_id (answer_move e) v
apply_event (spectator_left room) v = v
apply_event (opponent_disconnected room) v = record v {
  visible_error = "The opponent disconnected.";
  pending_action = no_action;
}
apply_event (room_status room status) v = apply_room_status status v
apply_event (protocol_error code message) v = record v {
  visible_error = message;
  pending_action = no_action;
}
apply_event searching v = record v {
  pending_action = find_match;
  status_message = "Searching for an opponent...";
  visible_error = "";
}
apply_event match_not_found v = record v {
  pending_action = no_action;
  status_message = "";
  visible_error = "No opponent was found. Try again.";
}
apply_event find_match_cancelled v = record v { pending_action = no_action; status_message = "" }
apply_event (rating_updated rating) v = record v { authenticated_user_rating = rating }

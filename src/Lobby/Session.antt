-- ===== src/Lobby/Session.antt =====
-- client/desktop_client/src/Lobby/LobbyApplicationState.cpp: signing in and out, and the connection.
use ctd_tamar.Common.{String, Bool, true, false, not, if◌then◌else◌}
use ctd_tamar.Lobby.State.{
  LobbyScreen, authentication, connecting, lobby, waiting_room, hidden_room_waiting, room_ready,
  spectator_placeholder, game, spectator_game, no_modal, PendingLobbyAction, no_action, register,
  join_public_room, join_hidden, watch_room, find_match, WebSocketConnectionState, disconnected,
  failed, SpectatorView, RoomReadyView, MatchPhase, countdown, playing, AuthoritativeMatchView,
  LobbyViewModel,
}
use ctd_tamar.Lobby.State

abbrev pub begin_authentication : PendingLobbyAction → LobbyViewModel → LobbyViewModel
begin_authentication action v = record v {
  pending_action = action;
  visible_error = "";
  status_message = elim action [ register ↦ "Creating account..." | _ ↦ "Signing in..." ];
}

abbrev pub authentication_failed : String → LobbyViewModel → LobbyViewModel
authentication_failed message v = record v {
  screen = authentication;
  pending_action = no_action;
  status_message = "";
  visible_error = message;
  password_length = 0;
  confirm_password_length = 0;
}

abbrev pub authentication_succeeded : String → LobbyViewModel → LobbyViewModel
authentication_succeeded username v = record v {
  screen = connecting;
  authenticated_username = username;
  username_input = username;
  password_length = 0;
  confirm_password_length = 0;
  visible_error = "";
  status_message = "Connecting to lobby...";
  pending_action = no_action;
}

abbrev pub is_down : WebSocketConnectionState → Bool
is_down failed = true
is_down disconnected = true
is_down _ = false

abbrev pub is_authentication : LobbyScreen → Bool
is_authentication authentication = true
is_authentication _ = false

unfoldable pub set_connection_state : WebSocketConnectionState → LobbyViewModel → LobbyViewModel
set_connection_state state v =
    if is_down state
    then record v {
      connection_state = state;
      visible_error =
          if not (is_authentication v.screen)
          then "Lobby connection is unavailable."
          else v.visible_error;
      pending_action = no_action;
    }
    else record v { connection_state = state }

abbrev pub show_error : String → LobbyViewModel → LobbyViewModel
show_error message v = record v { visible_error = message; pending_action = no_action }

abbrev pub clear_pending : LobbyViewModel → LobbyViewModel
clear_pending v = record v { pending_action = no_action }

abbrev pub reset_for_logout : LobbyViewModel → LobbyViewModel
reset_for_logout v = State.new

-- ===== src/Lobby/State.antt =====
-- client/desktop_client/include/Lobby/LobbyApplicationState.hpp: what the lobby's screens show.
use ctd_tamar.Common.{ℕ, ℤ, pos, String, Bool, true, false, Option, none, some, List, [], ◌&&◌}
use ctd_tamar.Core.Position.{Position}
use ctd_tamar.Messaging.Snapshot.{GameStateSnapshot}
use ctd_tamar.Lobby.Events.{LobbyRoom}

pub data LobbyScreen : Type 0 where
  authentication connecting lobby waiting_room hidden_room_waiting room_ready : LobbyScreen
  match_history spectator_placeholder game spectator_game error : LobbyScreen

pub data LobbyModal : Type 0 where
  no_modal create_room join_hidden_room : LobbyModal

pub data AuthenticationField : Type 0 where
  username_field password_field confirm_password_field : AuthenticationField

pub data AuthenticationMode : Type 0 where
  login_mode register_mode : AuthenticationMode

pub data RoomVisibilitySelection : Type 0 where
  public_room hidden_room : RoomVisibilitySelection

pub data PendingLobbyAction : Type 0 where
  no_action login register create_public_room create_hidden_room join_public_room :
      PendingLobbyAction
  join_hidden watch_room find_match logout : PendingLobbyAction

-- client/desktop_client/include/Network/WebSocketClient.hpp.
pub data WebSocketConnectionState : Type 0 where
  disconnected socket_connecting socket_connected closing failed : WebSocketConnectionState

pub record SpectatorView : Type 0 where
  pub room_id : String
  pub room_name : String
  pub white_username : String
  pub black_username : String
  pub spectator_count : ℤ

pub record RoomReadyView : Type 0 where
  pub room_id : String
  pub room_name : String
  pub assigned_color : String
  pub opponent_username : String
  pub opponent_rating : ℤ

pub data MatchPhase : Type 0 where
  loading countdown playing finished : MatchPhase

pub record AuthoritativeMatchView : Type 0 where
  pub room_id : String
  pub assigned_color : String
  pub opponent_username : String
  pub revision : ℕ
  pub next_sequence : ℕ
  pub snapshot : GameStateSnapshot
  pub selected_source : Option Position
  pub move_status : String
  pub spectator : Bool
  pub phase : MatchPhase
  pub game_starts_at : String
  pub countdown_value : String
  pub white_rating : ℤ
  pub black_rating : ℤ

-- client/desktop_client/include/Network/ApiClient.hpp.
pub record MatchHistoryEntry : Type 0 where
  pub opponent : String
  pub color : String
  pub result : String
  pub rating_before : ℤ
  pub rating_after : ℤ
  pub reason : String
  pub ended_at : String

pub record LobbyViewModel : Type 0 where
  pub screen : LobbyScreen
  pub modal : LobbyModal
  pub focused_field : AuthenticationField
  pub auth_mode : AuthenticationMode
  pub pending_action : PendingLobbyAction
  pub connection_state : WebSocketConnectionState
  pub username_input : String
  pub password_length : ℕ
  pub confirm_password_length : ℕ
  pub authenticated_username : String
  pub authenticated_user_rating : ℤ
  pub visible_error : String
  pub status_message : String
  pub room_name_input : String
  pub current_room_name : String
  pub selected_room_visibility : RoomVisibilitySelection
  pub hidden_room_code_input : String
  pub hidden_room_code : String
  pub pending_room_id : String
  pub waiting_rooms : List LobbyRoom
  pub active_rooms : List LobbyRoom
  pub spectator : Option SpectatorView
  pub room_ready : Option RoomReadyView
  pub current_match : Option AuthoritativeMatchView
  pub waiting_page : ℕ
  pub active_page : ℕ
  pub match_history : List MatchHistoryEntry
  pub match_history_error : String

abbrev pub new : LobbyViewModel
new = record {
  screen = authentication;
  modal = no_modal;
  focused_field = username_field;
  auth_mode = login_mode;
  pending_action = no_action;
  connection_state = disconnected;
  username_input = "";
  password_length = 0;
  confirm_password_length = 0;
  authenticated_username = "";
  authenticated_user_rating = pos 1200;
  visible_error = "";
  status_message = "";
  room_name_input = "";
  current_room_name = "";
  selected_room_visibility = public_room;
  hidden_room_code_input = "";
  hidden_room_code = "";
  pending_room_id = "";
  waiting_rooms = [];
  active_rooms = [];
  spectator = none;
  room_ready = none;
  current_match = none;
  waiting_page = 0;
  active_page = 0;
  match_history = [];
  match_history_error = "";
}

abbrev pub is_lobby : LobbyScreen → Bool
is_lobby lobby = true
is_lobby _ = false

abbrev pub is_connected : WebSocketConnectionState → Bool
is_connected socket_connected = true
is_connected _ = false

abbrev pub is_no_action : PendingLobbyAction → Bool
is_no_action no_action = true
is_no_action _ = false

unfoldable pub network_actions_enabled : LobbyViewModel → Bool
network_actions_enabled v =
    is_lobby v.screen && (is_connected v.connection_state && is_no_action v.pending_action)

abbrev pub match_is_over : Option AuthoritativeMatchView → Bool
match_is_over none = false
match_is_over (some m) = m.snapshot.game_over

-- `gameplayPresentation`, whose two status lines are always empty.
unfoldable pub shows_back_button : LobbyViewModel → Bool
shows_back_button v = elim v.screen [
  | spectator_game ↦ true
  | game ↦ match_is_over v.current_match
  | _ ↦ false
]

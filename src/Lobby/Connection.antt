-- ===== src/Lobby/Connection.antt =====
-- A lost connection disables the lobby in LobbyApplicationState.cpp.
use ctd_tamar.Common.{
  String, ◌≡◌, refl, ap, ◌∙◌, true, false, Option, none, some, arith, Bool-cases, inl, inr,
}
use ctd_tamar.Lobby.Events.{
  LobbyEvent, connected, pong, lobby_snapshot, room_created, game_started, watching_game,
  match_ready, match_countdown, match_started, match_cancelled, match_snapshot, match_state,
  move_result, spectator_left, opponent_disconnected, room_status, protocol_error, searching,
  match_not_found, find_match_cancelled, rating_updated, text_eq,
}
use ctd_tamar.Lobby.State.{
  WebSocketConnectionState, LobbyViewModel, network_actions_enabled, is_connected,
}
use ctd_tamar.Lobby.Session.{set_connection_state, is_down}
use ctd_tamar.Lobby.Apply.{apply_event, is_match_of, created_screen}

connection_state-created_screen :
    (visibility : String) (code : Option String) (v : LobbyViewModel)
    → (created_screen visibility code v).connection_state ≡ v.connection_state
connection_state-created_screen visibility none v = refl
connection_state-created_screen visibility (some code) v =
    elim (Bool-cases (text_eq visibility "hidden")) [ inl y ↦ rw y refl | inr n ↦ rw n refl ]

connection_state-apply_event :
    (e : LobbyEvent) (v : LobbyViewModel) → (apply_event e v).connection_state ≡ v.connection_state
unfolding apply_event
connection_state-apply_event (room_created room) v =
    connection_state-created_screen room.visibility room.room_code v
connection_state-apply_event (match_cancelled room reason) v =
    elim (Bool-cases (is_match_of room v.current_match)) [ inl y ↦ rw y refl | inr n ↦ rw n refl ]
connection_state-apply_event (room_status room status) v =
    elim (Bool-cases (text_eq status "removed")) [ inl y ↦ rw y refl | inr n ↦ rw n refl ]
connection_state-apply_event (connected user) v = refl
connection_state-apply_event pong v = refl
connection_state-apply_event (lobby_snapshot waiting active) v = refl
connection_state-apply_event (game_started e) v = refl
connection_state-apply_event (watching_game e) v = refl
connection_state-apply_event (match_ready e) v = refl
connection_state-apply_event (match_countdown e) v = refl
connection_state-apply_event (match_started e) v = refl
connection_state-apply_event (match_snapshot e) v = refl
connection_state-apply_event (match_state e) v = refl
connection_state-apply_event (move_result e) v = refl
connection_state-apply_event (spectator_left room) v = refl
connection_state-apply_event (opponent_disconnected room) v = refl
connection_state-apply_event (protocol_error code message) v = refl
connection_state-apply_event searching v = refl
connection_state-apply_event match_not_found v = refl
connection_state-apply_event find_match_cancelled v = refl
connection_state-apply_event (rating_updated rating) v = refl

disabled :
    (v : LobbyViewModel)
    → is_connected v.connection_state ≡ false
    → network_actions_enabled v ≡ false
unfolding network_actions_enabled
disabled v h = ground arith

down_disconnects :
    (s : WebSocketConnectionState) (v : LobbyViewModel)
    → is_down s ≡ true
    → is_connected (set_connection_state s v).connection_state ≡ false
unfolding set_connection_state
down_disconnects s v d = ground arith

-- A connection that is lost or has failed disables the actions of the lobby, and an event of the
-- server after that, whichever it is, does not enable them.
pub network_actions_enabled-down :
    (s : WebSocketConnectionState) (e : LobbyEvent) (v : LobbyViewModel)
    → is_down s ≡ true
    → (network_actions_enabled (set_connection_state s v) ≡ false)
      × (network_actions_enabled (apply_event e (set_connection_state s v)) ≡ false)
network_actions_enabled-down s e v d =
    let w = set_connection_state s v in
    let off = down_disconnects s v d in
    (
      disabled w off,
      disabled (apply_event e w) (ap is_connected (connection_state-apply_event e w) ∙ off),
    )

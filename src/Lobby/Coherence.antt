-- ===== src/Lobby/Coherence.antt =====
-- Every screen of LobbyApplicationState.cpp has the data that it shows.
use ctd_tamar.Common.{
  String, ◌≡◌, refl, sym, subst, ◌∙◌, true, Option, none, some, List, [], ◌∷◌, is_some, Bool-cases,
  inl, inr,
}
use ctd_tamar.Lobby.Events.{
  LobbyEvent, connected, pong, lobby_snapshot, room_created, game_started, watching_game,
  match_ready, match_countdown, match_started, match_cancelled, match_snapshot, match_state,
  move_result, spectator_left, opponent_disconnected, room_status, protocol_error, searching,
  match_not_found, find_match_cancelled, rating_updated, text_eq,
}
use ctd_tamar.Lobby.State.{
  LobbyScreen, authentication, connecting, lobby, waiting_room, hidden_room_waiting, room_ready,
  match_history, spectator_placeholder, game, spectator_game, error, PendingLobbyAction,
  WebSocketConnectionState, AuthoritativeMatchView, LobbyViewModel,
}
use ctd_tamar.Lobby.Session.{
  begin_authentication, authentication_failed, authentication_succeeded, set_connection_state,
  show_error, clear_pending, reset_for_logout, is_down,
}
use ctd_tamar.Lobby.Apply.{
  apply_event, apply_to_match, update_match, is_match_of, apply_room_created, created_screen,
  snapshot_screen, advance_match, count_match, start_match, answer_move,
}

-- The data that a screen shows is there.
abbrev pub Shows : LobbyScreen → LobbyViewModel → Type 0
Shows game v = is_some v.current_match ≡ true
Shows spectator_game v = is_some v.current_match ≡ true
Shows spectator_placeholder v = is_some v.spectator ≡ true
Shows room_ready v = is_some v.room_ready ≡ true
Shows _ v = Unit

abbrev pub IsCoherent : LobbyViewModel → Type 0
IsCoherent v = Shows v.screen v

-- The operations of the state; what the controller does with its editable reference is left out.
pub data LobbyCall : Type 0 where
  begins : PendingLobbyAction → LobbyCall
  fails : String → LobbyCall
  succeeds : String → LobbyCall
  connection : WebSocketConnectionState → LobbyCall
  applies : LobbyEvent → LobbyCall
  shows : String → LobbyCall
  clears : LobbyCall
  logs_out : LobbyCall

unfoldable pub perform : LobbyCall → LobbyViewModel → LobbyViewModel
perform (begins a) v = begin_authentication a v
perform (fails message) v = authentication_failed message v
perform (succeeds username) v = authentication_succeeded username v
perform (connection state) v = set_connection_state state v
perform (applies e) v = apply_event e v
perform (shows message) v = show_error message v
perform clears v = clear_pending v
perform logs_out v = reset_for_logout v

unfoldable pub perform_all : List LobbyCall → LobbyViewModel → LobbyViewModel
perform_all [] v = v
perform_all (c ∷ cs) v = perform_all cs (perform c v)

is_some-update_match :
    (room : String) (f : AuthoritativeMatchView → AuthoritativeMatchView)
    (o : Option AuthoritativeMatchView)
    → is_some (update_match room f o) ≡ is_some o
is_some-update_match room f none = refl
is_some-update_match room f (some m) = elim (Bool-cases (text_eq m.room_id room)) [
  | inl y ↦ rw y refl
  | inr n ↦ rw n refl
]

-- A screen shows what it did where match, spectator and room are there as before.
Shows-same :
    (s : LobbyScreen) (v w : LobbyViewModel)
    → is_some w.current_match ≡ is_some v.current_match
    → is_some w.spectator ≡ is_some v.spectator
    → is_some w.room_ready ≡ is_some v.room_ready
    → Shows s v
    → Shows s w
Shows-same game v w m p r h = m ∙ h
Shows-same spectator_game v w m p r h = m ∙ h
Shows-same spectator_placeholder v w m p r h = p ∙ h
Shows-same room_ready v w m p r h = r ∙ h
Shows-same authentication v w m p r h = tt
Shows-same connecting v w m p r h = tt
Shows-same lobby v w m p r h = tt
Shows-same waiting_room v w m p r h = tt
Shows-same hidden_room_waiting v w m p r h = tt
Shows-same match_history v w m p r h = tt
Shows-same error v w m p r h = tt

same-IsCoherent :
    (v w : LobbyViewModel)
    → w.screen ≡ v.screen
    → is_some w.current_match ≡ is_some v.current_match
    → is_some w.spectator ≡ is_some v.spectator
    → is_some w.room_ready ≡ is_some v.room_ready
    → IsCoherent v
    → IsCoherent w
same-IsCoherent v w s m p r h = subst (λ x. Shows x w) (sym s) (Shows-same v.screen v w m p r h)

apply_to_match-IsCoherent :
    (room : String) (f : AuthoritativeMatchView → AuthoritativeMatchView) (v : LobbyViewModel)
    → IsCoherent v
    → IsCoherent (apply_to_match room f v)
apply_to_match-IsCoherent room f v h =
    same-IsCoherent v (apply_to_match room f v) refl (is_some-update_match room f v.current_match)
      refl refl h

snapshot_screen-Shows :
    (s : LobbyScreen) (v w : LobbyViewModel)
    → is_some w.current_match ≡ is_some v.current_match
    → is_some w.spectator ≡ is_some v.spectator
    → is_some w.room_ready ≡ is_some v.room_ready
    → Shows s v
    → Shows (snapshot_screen s) w
snapshot_screen-Shows game v w m p r h = m ∙ h
snapshot_screen-Shows spectator_game v w m p r h = m ∙ h
snapshot_screen-Shows spectator_placeholder v w m p r h = p ∙ h
snapshot_screen-Shows room_ready v w m p r h = r ∙ h
snapshot_screen-Shows authentication v w m p r h = tt
snapshot_screen-Shows connecting v w m p r h = tt
snapshot_screen-Shows lobby v w m p r h = tt
snapshot_screen-Shows waiting_room v w m p r h = tt
snapshot_screen-Shows hidden_room_waiting v w m p r h = tt
snapshot_screen-Shows match_history v w m p r h = tt
snapshot_screen-Shows error v w m p r h = tt

created_screen-Shows :
    (visibility : String) (code : Option String) (v w : LobbyViewModel)
    → Shows (created_screen visibility code v).screen w
created_screen-Shows visibility none v w = tt
created_screen-Shows visibility (some code) v w = elim (Bool-cases (text_eq visibility "hidden")) [
  | inl y ↦ rw y tt
  | inr n ↦ rw n tt
]

apply_event-IsCoherent :
    (e : LobbyEvent) (v : LobbyViewModel) → IsCoherent v → IsCoherent (apply_event e v)
unfolding apply_event
apply_event-IsCoherent (connected user) v h = same-IsCoherent v _ refl refl refl refl h
apply_event-IsCoherent pong v h = h
apply_event-IsCoherent (lobby_snapshot waiting active) v h =
    snapshot_screen-Shows v.screen v _ refl refl refl h
apply_event-IsCoherent (room_created room) v h =
    created_screen-Shows room.visibility room.room_code v (apply_room_created room v)
apply_event-IsCoherent (game_started e) v h = refl
apply_event-IsCoherent (watching_game e) v h = refl
apply_event-IsCoherent (match_ready e) v h = elim (Bool-cases (text_eq e.color "spectator")) [
  | inl y ↦ rw y refl
  | inr n ↦ rw n refl
]
apply_event-IsCoherent (match_countdown e) v h =
    apply_to_match-IsCoherent e.room_id (count_match e) v h
apply_event-IsCoherent (match_started e) v h =
    apply_to_match-IsCoherent e.room_id (start_match e) v h
apply_event-IsCoherent (match_cancelled room reason) v h =
    elim (Bool-cases (is_match_of room v.current_match)) [ inl y ↦ rw y tt | inr n ↦ rw n h ]
apply_event-IsCoherent (match_snapshot e) v h = refl
apply_event-IsCoherent (match_state e) v h =
    apply_to_match-IsCoherent e.room_id (advance_match e) v h
apply_event-IsCoherent (move_result e) v h = apply_to_match-IsCoherent e.room_id (answer_move e) v h
apply_event-IsCoherent (spectator_left room) v h = h
apply_event-IsCoherent (opponent_disconnected room) v h = same-IsCoherent v _ refl refl refl refl h
apply_event-IsCoherent (room_status room status) v h =
    elim (Bool-cases (text_eq status "removed")) [
      | inl y ↦ rw y tt
      | inr n ↦ rw n (same-IsCoherent v _ refl refl refl refl h)
    ]
apply_event-IsCoherent (protocol_error code message) v h = same-IsCoherent v _ refl refl refl refl h
apply_event-IsCoherent searching v h = same-IsCoherent v _ refl refl refl refl h
apply_event-IsCoherent match_not_found v h = same-IsCoherent v _ refl refl refl refl h
apply_event-IsCoherent find_match_cancelled v h = same-IsCoherent v _ refl refl refl refl h
apply_event-IsCoherent (rating_updated rating) v h = same-IsCoherent v _ refl refl refl refl h

set_connection_state-IsCoherent :
    (s : WebSocketConnectionState) (v : LobbyViewModel)
    → IsCoherent v
    → IsCoherent (set_connection_state s v)
unfolding set_connection_state
set_connection_state-IsCoherent s v h = elim (Bool-cases (is_down s)) [
  | inl y ↦ rw y (same-IsCoherent v _ refl refl refl refl h)
  | inr n ↦ rw n (same-IsCoherent v _ refl refl refl refl h)
]

perform-IsCoherent : (c : LobbyCall) (v : LobbyViewModel) → IsCoherent v → IsCoherent (perform c v)
unfolding perform
perform-IsCoherent (begins a) v h = same-IsCoherent v _ refl refl refl refl h
perform-IsCoherent (fails message) v h = tt
perform-IsCoherent (succeeds username) v h = tt
perform-IsCoherent (connection state) v h = set_connection_state-IsCoherent state v h
perform-IsCoherent (applies e) v h = apply_event-IsCoherent e v h
perform-IsCoherent (shows message) v h = same-IsCoherent v _ refl refl refl refl h
perform-IsCoherent clears v h = same-IsCoherent v _ refl refl refl refl h
perform-IsCoherent logs_out v h = tt

-- Whatever the server sends and in whatever order, and whatever the connection does: from a state
-- in which the screen has its data, a game screen always has its match, a waiting spectator the
-- watched game, and a ready room its room.
pub perform_all-IsCoherent :
    (cs : List LobbyCall) (v : LobbyViewModel) → IsCoherent v → IsCoherent (perform_all cs v)
unfolding perform_all
perform_all-IsCoherent [] v h = h
perform_all-IsCoherent (c ∷ cs) v h =
    perform_all-IsCoherent cs (perform c v) (perform-IsCoherent c v h)

-- ===== src/Lobby/Events.antt =====
-- client/desktop_client/include/Network/LobbyProtocol.hpp: what the lobby server tells the client.
use Prim.Native.Nat.{Ordering}
use Prim.Native.String.{compare}
use ctd_tamar.Common.{ℕ, ℤ, String, Bool, true, false, Option, List}
use ctd_tamar.Messaging.Snapshot.{GameStateSnapshot}

-- `==` of two texts.
unfoldable pub text_eq : String → String → Bool
text_eq s t = elim (compare s t) [ Ordering.eq ↦ true | _ ↦ false ]

pub record LobbyUser : Type 0 where
  pub id : String
  pub username : String
  pub rating : ℤ

pub record LobbyRoom : Type 0 where
  pub room_id : String
  pub name : String
  pub visibility : String
  pub status : String
  pub host : Option LobbyUser
  pub white : Option LobbyUser
  pub black : Option LobbyUser
  pub room_code : Option String
  pub created_at : String
  pub spectator_count : ℤ

pub record GameStartedEvent : Type 0 where
  pub room_id : String
  pub room_name : String
  pub color : String
  pub opponent : LobbyUser

pub record WatchingGameEvent : Type 0 where
  pub room_id : String
  pub room_name : String
  pub white : LobbyUser
  pub black : LobbyUser
  pub spectator_count : ℤ

pub record MatchReadyEvent : Type 0 where
  pub room_id : String
  pub color : String
  pub opponent : String
  pub revision : ℕ
  pub state : GameStateSnapshot
  pub game_starts_at : String
  pub white_rating : ℤ
  pub black_rating : ℤ

pub record MatchCountdownEvent : Type 0 where
  pub room_id : String
  pub value : String
  pub game_starts_at : String

pub record MatchStartedEvent : Type 0 where
  pub room_id : String
  pub revision : ℕ
  pub state : GameStateSnapshot
  pub game_starts_at : String

-- A snapshot or a state of a match: its room, its revision and its game.
pub record MatchStateEvent : Type 0 where
  pub room_id : String
  pub revision : ℕ
  pub state : GameStateSnapshot

pub record MoveResultEvent : Type 0 where
  pub room_id : String
  pub sequence : ℕ
  pub accepted : Bool
  pub reason : String

pub data LobbyEvent : Type 0 where
  connected : LobbyUser → LobbyEvent
  pong : LobbyEvent
  lobby_snapshot : (waiting_rooms active_games : List LobbyRoom) → LobbyEvent
  room_created : LobbyRoom → LobbyEvent
  game_started : GameStartedEvent → LobbyEvent
  watching_game : WatchingGameEvent → LobbyEvent
  match_ready : MatchReadyEvent → LobbyEvent
  match_countdown : MatchCountdownEvent → LobbyEvent
  match_started : MatchStartedEvent → LobbyEvent
  match_cancelled : (room_id reason : String) → LobbyEvent
  match_snapshot : MatchStateEvent → LobbyEvent
  match_state : MatchStateEvent → LobbyEvent
  move_result : MoveResultEvent → LobbyEvent
  spectator_left : (room_id : String) → LobbyEvent
  opponent_disconnected : (room_id : String) → LobbyEvent
  room_status : (room_id status : String) → LobbyEvent
  protocol_error : (code message : String) → LobbyEvent
  searching : LobbyEvent
  match_not_found : LobbyEvent
  find_match_cancelled : LobbyEvent
  rating_updated : (rating : ℤ) → LobbyEvent

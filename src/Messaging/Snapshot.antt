-- ===== src/Messaging/Snapshot.antt =====
-- shared/cpp/include/Messaging: the game state and the messages that server and client exchange.
-- The three words that a snapshot writes as text are constructors here.
use ctd_tamar.Common.{ℕ, ℤ, Bool, false, List, []}
use ctd_tamar.Core.Position.{Position, no_position}
use ctd_tamar.Core.Piece.{PieceColor, PieceKind, PieceState}
use ctd_tamar.Core.Results.{Reason, no_reason}

pub record PieceSnapshot : Type 0 where
  pub id : ℕ
  pub token : List ℕ
  pub position : Position
  pub state : PieceState
  pub has_moved : Bool
  pub remaining_cooldown_ms : ℕ
  pub total_cooldown_ms : ℕ

pub record MotionSnapshot : Type 0 where
  pub piece_id : ℕ
  pub source : Position
  pub destination : Position
  pub current_cell : Position
  pub row_step : ℤ
  pub col_step : ℤ
  pub direct_move : Bool
  pub step_duration_ms : ℕ
  pub next_step_time_ms : ℕ
  pub order : ℕ

pub record JumpSnapshot : Type 0 where
  pub piece_id : ℕ
  pub cell : Position
  pub finish_time_ms : ℕ

pub record MoveHistorySnapshot : Type 0 where
  pub completed_at_ms : ℕ
  pub color : PieceColor
  pub piece_kind : PieceKind
  pub source : Position
  pub destination : Position
  pub was_capture : Bool
  pub was_promotion : Bool
  pub was_jump : Bool
  pub notation : List ℕ

pub record GameStateSnapshot : Type 0 where
  pub server_time_ms : ℕ
  pub game_over : Bool
  pub white_score : ℕ
  pub black_score : ℕ
  pub white_username : List ℕ
  pub black_username : List ℕ
  pub players_ready : Bool
  pub gameplay_starts_at_epoch_ms : ℕ
  pub pieces : List PieceSnapshot
  pub motions : List MotionSnapshot
  pub jumps : List JumpSnapshot
  pub white_move_history : List MoveHistorySnapshot
  pub black_move_history : List MoveHistorySnapshot

abbrev pub default_snapshot : GameStateSnapshot
default_snapshot = record {
  server_time_ms = 0;
  game_over = false;
  white_score = 0;
  black_score = 0;
  white_username = [];
  black_username = [];
  players_ready = false;
  gameplay_starts_at_epoch_ms = 0;
  pieces = [];
  motions = [];
  jumps = [];
  white_move_history = [];
  black_move_history = [];
}

pub data MessageType : Type 0 where
  move_request jump_request move_accepted move_rejected player_assigned : MessageType
  waiting_for_opponent game_started game_full invalid_username reconnect_request : MessageType
  reconnecting game_closed game_state_updated game_over : MessageType

pub record Message : Type 0 where
  pub type : MessageType
  pub sequence : ℕ
  pub source : Position
  pub destination : Position
  pub accepted : Bool
  pub reason : Reason
  pub player_color : List ℕ
  pub reconnect_token : List ℕ
  pub username : List ℕ
  pub white_username : List ℕ
  pub black_username : List ℕ
  pub seconds_remaining : ℕ
  pub created_at_ms : ℕ
  pub has_snapshot : Bool
  pub snapshot : GameStateSnapshot

-- `Message{}`.
abbrev pub default_message : Message
default_message = record {
  type = move_rejected;
  sequence = 0;
  source = no_position;
  destination = no_position;
  accepted = false;
  reason = no_reason;
  player_color = [];
  reconnect_token = [];
  username = [];
  white_username = [];
  black_username = [];
  seconds_remaining = 0;
  created_at_ms = 0;
  has_snapshot = false;
  snapshot = default_snapshot;
}

-- ===== src/Messaging/Event.antt =====
-- server/chess_server/include/Messaging/GameEvent.hpp: what the engine tells its subscribers.
use ctd_tamar.Common.{ℕ, Bool, false, List, []}
use ctd_tamar.Core.Position.{Position, no_position}
use ctd_tamar.Core.Piece.{PieceColor, white, black, PieceKind, pawn}
use ctd_tamar.Core.Results.{Reason, no_reason}

pub data GameEventType : Type 0 where
  move_completed score_updated game_started game_ended sound_requested : GameEventType

pub record GameEvent : Type 0 where
  pub type : GameEventType
  pub source : Position
  pub destination : Position
  pub moving_piece_kind : PieceKind
  pub moving_piece_color : PieceColor
  pub was_capture : Bool
  pub has_captured_piece : Bool
  pub captured_piece_kind : PieceKind
  pub captured_piece_color : PieceColor
  pub was_promotion : Bool
  pub was_jump : Bool
  pub completed_at_ms : ℕ
  pub white_score : ℕ
  pub black_score : ℕ
  pub has_winner : Bool
  pub winner : PieceColor
  pub game_end_reason : Reason
  pub sound : List ℕ

-- An event with the default value in each field but its type.
abbrev pub default_event : GameEventType → GameEvent
default_event t = record {
  type = t;
  source = no_position;
  destination = no_position;
  moving_piece_kind = pawn;
  moving_piece_color = white;
  was_capture = false;
  has_captured_piece = false;
  captured_piece_kind = pawn;
  captured_piece_color = black;
  was_promotion = false;
  was_jump = false;
  completed_at_ms = 0;
  white_score = 0;
  black_score = 0;
  has_winner = false;
  winner = white;
  game_end_reason = no_reason;
  sound = [];
}

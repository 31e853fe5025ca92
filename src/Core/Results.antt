-- ===== src/Core/Results.antt =====
-- shared/cpp/include/Core/Results.hpp, Config.hpp and MoveHistory.hpp. A reason is the constructor
-- named after its text.
use ctd_tamar.Common.{ℕ, Bool, List}
use ctd_tamar.Core.Position.{Position}
use ctd_tamar.Core.Piece.{PieceColor, PieceKind}

pub data Reason : Type 0 where
  ok outside_board empty_source friendly_destination illegal_piece_move game_over : Reason
  no_selection selected click_outside empty_click motion_in_progress cannot_jump : Reason
  jump_started : Reason
  -- Texts that the source writes where it uses them.
  unsupported_request_type missing_engine_response unexpected_response_sequence : Reason
  king_captured opponent_did_not_reconnect no_reason : Reason
  waiting_for_opponent countdown_in_progress not_your_piece : Reason
  game_closing empty_username invalid_username game_full opponent_disconnected : Reason
  player_assigned initial_state game_started state_update : Reason
  network_error missing_server_snapshot client_state_not_initialized : Reason

pub record MoveValidation : Type 0 where
  pub is_valid : Bool
  pub reason : Reason

pub record MoveResult : Type 0 where
  pub is_accepted : Bool
  pub reason : Reason

pub record ControllerResult : Type 0 where
  pub handled : Bool
  pub reason : Reason

pub record MoveHistoryEntry : Type 0 where
  pub completed_at_ms : ℕ
  pub color : PieceColor
  pub piece_kind : PieceKind
  pub source : Position
  pub destination : Position
  pub was_capture : Bool
  pub was_promotion : Bool
  pub was_jump : Bool
  pub notation : List ℕ

abbrev pub cell_size : ℕ
cell_size = 100

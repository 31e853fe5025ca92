-- ===== src/Engine/State.antt =====
-- The state of server/chess_server/include/Engine/GameEngine.hpp, with the heap of the pieces that
-- it shares with its board, its motions and its pending castles. Scores and times do not wrap.
use ctd_tamar.Common.{ℕ, ℤ, Bool, false, List, [], ◌∷◌, ◌++◌, if◌then◌else◌}
use ctd_tamar.Core.Position.{Position}
use ctd_tamar.Core.Piece.{Piece}
use ctd_tamar.Core.Board.{Board, Heap, Ref, modify}
use ctd_tamar.Core.Results.{MoveHistoryEntry}
use ctd_tamar.Realtime.Arbiter.{RealTimeArbiter}
use ctd_tamar.Realtime.Arbiter
use ctd_tamar.Messaging.Event.{GameEvent}

-- server/chess_server/include/Core/PieceConfig.hpp. The files and the regular expressions that it
-- reads them with are outside of the model: the reader is a parameter.
pub record PieceStateConfig : Type 0 where
  pub move_time_per_cell_ms : ℤ
  pub jump_duration_ms : ℤ
  pub short_cooldown_ms : ℤ

pub data ConfigState : Type 0 where
  move jump : ConfigState

-- The configuration of a piece, given by its token, in a state.
abbrev pub PieceConfigReader : Type 0
PieceConfigReader = List ℕ → ConfigState → PieceStateConfig

pub record PendingCastle : Type 0 where
  pub king : Ref
  pub rook : Ref
  pub king_source : Position
  pub king_destination : Position
  pub rook_source : Position
  pub rook_destination : Position

-- `published` is every event given to the event bus, oldest first; `has_bus` tells whether the
-- engine has one.
pub record GameEngine : Type 0 where
  pub heap : Heap
  pub board : Board
  pub real_time : RealTimeArbiter
  pub game_over : Bool
  pub white_score : ℕ
  pub black_score : ℕ
  pub white_move_history : List MoveHistoryEntry
  pub black_move_history : List MoveHistoryEntry
  pub pending_castles : List PendingCastle
  pub has_bus : Bool
  pub published : List GameEvent

-- The constructor, for a board and the heap that its pieces stand in.
unfoldable pub new : Heap → Board → Bool → GameEngine
new h b bus = record {
  heap = h;
  board = b;
  real_time = Arbiter.new;
  game_over = false;
  white_score = 0;
  black_score = 0;
  white_move_history = [];
  black_move_history = [];
  pending_castles = [];
  has_bus = bus;
  published = [];
}

-- A method call on the piece at an address.
unfoldable pub update_piece : Ref → (Piece → Piece) → GameEngine → GameEngine
unfolding modify
update_piece r f g = record g { heap = modify r f g.heap }

abbrev pub update_board : (Board → Board) → GameEngine → GameEngine
update_board f g = record g { board = f g.board }

abbrev pub update_real_time : (RealTimeArbiter → RealTimeArbiter) → GameEngine → GameEngine
update_real_time f g = record g { real_time = f g.real_time }

-- `eventBus->publish`, where there is a bus.
unfoldable pub publish : GameEvent → GameEngine → GameEngine
publish e g = if g.has_bus then record g { published = g.published ++ e ∷ [] } else g

abbrev pub current_time : GameEngine → ℕ
current_time g = g.real_time.current_time_ms

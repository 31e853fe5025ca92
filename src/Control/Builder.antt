-- ===== src/Control/Builder.antt =====
-- server/chess_server/src/Messaging/GameStateSnapshotBuilder.cpp. Pieces in motions and jumps are
-- never null, so the tests for a null piece are left out.
use ctd_tamar.Common.{
  ℕ, zero, suc, pos, Bool, false, ◌||◌, none, some, List, [], ◌∷◌, ◌++◌, map, if◌then◌else◌, ◌==◌,
  find?,
}
use ctd_tamar.Core.Position.{Position, position}
use ctd_tamar.Core.Piece.{is_captured, token, get_remaining_cooldown_ms}
use ctd_tamar.Core.Board.{Ref, get_piece_at}
use ctd_tamar.Core.Results.{MoveHistoryEntry}
use ctd_tamar.Realtime.Arbiter.{Motion, Jump}
use ctd_tamar.Realtime.Motions.{belongs}
use ctd_tamar.Messaging.Snapshot.{
  PieceSnapshot, MotionSnapshot, JumpSnapshot, MoveHistorySnapshot, GameStateSnapshot,
  default_snapshot,
}
use ctd_tamar.Engine.State.{GameEngine, current_time}

unfoldable pub visible_position_of : Ref → Position → List Motion → Position
visible_position_of r p motions = elim (find? (belongs r) motions) [
  | none ↦ p
  | some m ↦ m.current_cell
]

abbrev pub make_history_snapshot : MoveHistoryEntry → MoveHistorySnapshot
make_history_snapshot e = record {
  completed_at_ms = e.completed_at_ms;
  color = e.color;
  piece_kind = e.piece_kind;
  source = e.source;
  destination = e.destination;
  was_capture = e.was_capture;
  was_promotion = e.was_promotion;
  was_jump = e.was_jump;
  notation = e.notation;
}

abbrev pub make_piece_snapshot : GameEngine → Position → Ref → PieceSnapshot
make_piece_snapshot g p r = record {
  id = (g.heap r).id;
  token = token (g.heap r);
  position = visible_position_of r p g.real_time.active_motions;
  state = (g.heap r).state;
  has_moved = (g.heap r).has_moved;
  remaining_cooldown_ms = get_remaining_cooldown_ms (current_time g) (g.heap r);
  total_cooldown_ms = (g.heap r).total_cooldown_ms;
}

abbrev pub make_motion_snapshot : GameEngine → Motion → MotionSnapshot
make_motion_snapshot g m = record {
  piece_id = (g.heap m.piece).id;
  source = m.source;
  destination = m.destination;
  current_cell = m.current_cell;
  row_step = m.row_step;
  col_step = m.col_step;
  direct_move = m.direct_move;
  step_duration_ms = m.step_duration_ms;
  next_step_time_ms = m.next_step_time_ms;
  order = m.order;
}

abbrev pub make_jump_snapshot : GameEngine → Jump → JumpSnapshot
make_jump_snapshot g j = record {
  piece_id = (g.heap j.piece).id;
  cell = j.cell;
  finish_time_ms = j.finish_time_ms;
}

-- `addedPieceIds.count`: the ids already added are those of the pieces added.
abbrev pub has_id : ℕ → List PieceSnapshot → Bool
has_id i [] = false
has_id i (p ∷ ps) = (p.id == i) || has_id i ps

-- The body of the loops over the cells.
unfoldable pub add_cell : GameEngine → Position → List PieceSnapshot → List PieceSnapshot
add_cell g p added = elim (get_piece_at g.board p) [
  | none ↦ added
  | some r ↦
      if is_captured (g.heap r).state || has_id (g.heap r).id added
      then added
      else added ++ make_piece_snapshot g p r ∷ []
]

-- The first `n` columns of a row, then the first `n` rows.
unfoldable pub add_row : GameEngine → ℕ → ℕ → List PieceSnapshot → List PieceSnapshot
unfolding add_cell
add_row g row zero added = added
add_row g row (suc n) added = add_cell g (position (pos row) (pos n)) (add_row g row n added)

unfoldable pub add_rows : GameEngine → ℕ → List PieceSnapshot → List PieceSnapshot
unfolding add_row
add_rows g zero added = added
add_rows g (suc n) added = add_row g n g.board.width (add_rows g n added)

unfoldable pub build : GameEngine → GameStateSnapshot
unfolding add_rows
build g = record default_snapshot {
  server_time_ms = current_time g;
  game_over = g.game_over;
  white_score = g.white_score;
  black_score = g.black_score;
  pieces = add_rows g g.board.height [];
  motions = map (make_motion_snapshot g) g.real_time.active_motions;
  jumps = map (make_jump_snapshot g) g.real_time.active_jumps;
  white_move_history = map make_history_snapshot g.white_move_history;
  black_move_history = map make_history_snapshot g.black_move_history;
}

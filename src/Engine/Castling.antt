-- ===== src/Engine/Castling.antt =====
-- Castling in GameEngine.cpp: the request, its conditions, and its completion.
use ctd_tamar.Common.{
  ℕ, ℤ, pos, negsuc, ◌+ℤ◌, ◌-ℤ◌, ltb_ℤ, eq_ℤ, abs, Bool, false, ◌&&◌, ◌||◌, not, Option, none, some,
  List, [], ◌∷◌, ◌==◌, if◌then◌else◌,
}
use ctd_tamar.Core.Position.{Position, position}
use ctd_tamar.Core.Piece.{
  Piece, PieceColor, white, black, color_eq, king, pawn, is_king, is_rook, idle, is_idle, set_state,
  start_cooldown, is_on_cooldown,
}
use ctd_tamar.Core.Board.{Board, Ref, get_piece_at, remove_piece, set_piece_at}
use ctd_tamar.Core.Results.{MoveHistoryEntry}
use ctd_tamar.Rules.Path.{walk, answer}
use ctd_tamar.Realtime.Arbiter.{StepEvent, finish_motion}
use ctd_tamar.Engine.State.{
  GameEngine, PendingCastle, update_piece, update_board, update_real_time, current_time,
}
use ctd_tamar.Engine.Cells.{is_square_attacked}
use ctd_tamar.Engine.Record.{push_history, publish_move_completed}

unfoldable pub is_castling_request : GameEngine → Position → Position → Bool
is_castling_request g s d = elim (get_piece_at g.board s) [
  | none ↦ false
  | some r ↦ is_king (g.heap r).kind && eq_ℤ s.row d.row && abs (d.col -ℤ s.col) == 2
]

abbrev pub home_row : PieceColor → ℤ
home_row white = pos 7
home_row black = pos 0

abbrev pub enemy_of : PieceColor → PieceColor
enemy_of white = black
enemy_of black = white

abbrev pub castle_direction : Position → Position → ℤ
castle_direction s d = if ltb_ℤ s.col d.col then pos 1 else negsuc 0

abbrev pub rook_source_of : ℤ → Position → Position → Position
rook_source_of home s d = position home (if ltb_ℤ s.col d.col then pos 7 else pos 0)

-- The king may castle at all.
abbrev pub king_ready : Piece → Position → Position → Bool
king_ready k s d =
    is_king k.kind
    && not k.has_moved
    && eq_ℤ s.row (home_row k.color)
    && eq_ℤ d.row (home_row k.color)

abbrev pub rook_ready : ℕ → Piece → Piece → Bool
rook_ready now k r =
    is_rook r.kind
    && color_eq r.color k.color
    && not r.has_moved
    && is_idle r.state
    && not (is_on_cooldown now r)

-- The loop over the columns between king and rook is the path loop with a row step of 0; eight
-- rounds are enough on a board of eight columns.
abbrev pub between_clear : Board → ℤ → ℤ → ℤ → ℤ → Bool
between_clear b home rook_col step col =
    answer (walk 8 b home rook_col (pos 0) step home (col +ℤ step))

abbrev pub crosses_attack : GameEngine → PieceColor → Position → Position → Position → Bool
crosses_attack g enemy s middle d =
    is_square_attacked g s enemy
    || is_square_attacked g middle enemy
    || is_square_attacked g d enemy

unfoldable pub castle_with : GameEngine → Position → Position → Ref → Ref → Option PendingCastle
castle_with g s d k r =
    let color = (g.heap k).color in
    let home = home_row color in
    let step = castle_direction s d in
    let rook_source = rook_source_of home s d in
    let middle = position home (s.col +ℤ step) in
    if not (rook_ready (current_time g) (g.heap k) (g.heap r))
      || not (between_clear g.board home rook_source.col step s.col)
      || crosses_attack g (enemy_of color) s middle d
    then none
    else some (record {
      king = k;
      rook = r;
      king_source = s;
      king_destination = d;
      rook_source = rook_source;
      rook_destination = middle;
    })

-- The castle, or `none` where it is not allowed.
unfoldable pub can_castle : GameEngine → Position → Position → Option PendingCastle
can_castle g s d =
    if not (g.board.height == 8) || not (g.board.width == 8) || not (eq_ℤ s.col (pos 4))
    then none
    else elim (get_piece_at g.board s) [
      | none ↦ none
      | some k ↦
          if not (king_ready (g.heap k) s d)
          then none
          else elim (get_piece_at g.board (rook_source_of (home_row (g.heap k).color) s d)) [
            | none ↦ none
            | some r ↦ castle_with g s d k r
          ]
    ]

-- The first pending castle that the piece belongs to, and the list without it.
unfoldable pub take_castle : Ref → List PendingCastle → Option (PendingCastle × List PendingCastle)
take_castle r [] = none
take_castle r (c ∷ cs) =
    let rest = take_castle r cs in
    if not (r == c.king) && not (r == c.rook)
    then elim rest [ none ↦ none | some (d, ds) ↦ some (d, c ∷ ds) ]
    else some (c, cs)

abbrev pub castle_text : Position → Position → List ℕ
castle_text s d =
    if ltb_ℤ s.col d.col then b'O' ∷ b'-' ∷ b'O' ∷ [] else b'O' ∷ b'-' ∷ b'O' ∷ b'-' ∷ b'O' ∷ []

abbrev pub rest_after_castle : ℕ → Piece → Piece
rest_after_castle at p = start_cooldown at (pos 2000) (set_state idle p)

abbrev pub put_castle : PendingCastle → Board → Board
put_castle c b = set_piece_at c.rook_destination c.rook (
    set_piece_at c.king_destination c.king
      (remove_piece c.rook_source (remove_piece c.king_source b)))

-- King and rook on their destinations, idle and resting. The source sets both states before it
-- starts both cooldowns; king and rook are two pieces, so the order does not matter.
abbrev pub king_placed : PendingCastle → ℕ → GameEngine → GameEngine
king_placed c at g = update_piece c.king (rest_after_castle at) (update_board (put_castle c) g)

abbrev pub both_placed : PendingCastle → ℕ → GameEngine → GameEngine
both_placed c at g = update_piece c.rook (rest_after_castle at) (king_placed c at g)

abbrev pub both_stopped : PendingCastle → GameEngine → GameEngine
both_stopped c = update_real_time (λ a. finish_motion c.rook (finish_motion c.king a))

abbrev pub castle_entry : PendingCastle → ℕ → PieceColor → MoveHistoryEntry
castle_entry c at color = record {
  completed_at_ms = at;
  color = color;
  piece_kind = king;
  source = c.king_source;
  destination = c.king_destination;
  was_capture = false;
  was_promotion = false;
  was_jump = false;
  notation = castle_text c.king_source c.king_destination;
}

-- The body of the loop for the castle found.
unfoldable pub complete_castle : PendingCastle → ℕ → GameEngine → GameEngine
unfolding update_piece push_history publish_move_completed
complete_castle c at g =
    let placed = both_placed c at g in
    let entry = castle_entry c at (placed.heap c.king).color in
    publish_move_completed entry false pawn black (push_history entry (both_stopped c placed))

abbrev pub castle_result :
    StepEvent → GameEngine → Option (PendingCastle × List PendingCastle) → Option GameEngine
castle_result e g none = none
castle_result e g (some (c, rest)) =
    some (record (complete_castle c e.event_time_ms g) { pending_castles = rest })

-- `none` means that no pending castle waits for the piece.
unfoldable pub complete_castle_for : StepEvent → GameEngine → Option GameEngine
unfolding take_castle complete_castle
complete_castle_for e g = castle_result e g (take_castle e.piece g.pending_castles)

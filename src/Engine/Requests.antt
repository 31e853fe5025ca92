-- ===== src/Engine/Requests.antt =====
-- The requests of GameEngine.cpp: moves, jumps, and the messages that carry them.
use ctd_tamar.Common.{
  ℤ, pos, ◌+ℤ◌, leb_ℤ, Bool, true, false, ◌||◌, not, none, some, [], ◌∷◌, ◌++◌, if◌then◌else◌,
}
use ctd_tamar.Core.Position.{Position}
use ctd_tamar.Core.Piece.{is_idle, is_on_cooldown, mark_as_moved, token}
use ctd_tamar.Core.Board.{Ref, is_inside, get_piece_at}
use ctd_tamar.Core.Results.{
  Reason, ok, outside_board, empty_source, illegal_piece_move, game_over, motion_in_progress,
  cannot_jump, jump_started, unsupported_request_type, MoveResult,
}
use ctd_tamar.Rules.Validate.{validate_move}
use ctd_tamar.Realtime.Arbiter.{start_motion, start_jump}
use ctd_tamar.Messaging.Snapshot.{
  Message, MessageType, default_message, move_request, jump_request, move_accepted, move_rejected,
}
use ctd_tamar.Engine.State.{
  GameEngine, PendingCastle, PieceConfigReader, move, jump, update_piece, current_time,
}
use ctd_tamar.Engine.Castling.{is_castling_request, can_castle}

-- The piece is busy: in motion, in the air, captured, or resting.
abbrev pub is_busy : GameEngine → Ref → Bool
is_busy g r = not (is_idle (g.heap r).state) || is_on_cooldown (current_time g) (g.heap r)

-- `realTime.startMotion`.
unfoldable pub begin_motion : Ref → Position → Position → ℤ → Bool → GameEngine → GameEngine
unfolding start_motion
begin_motion r s d duration force g =
    let (h, a) = start_motion (some r) s d duration force g.heap g.real_time in
    record g { heap = h; real_time = a }

abbrev pub refused : Reason → GameEngine → GameEngine × MoveResult
refused why g = (g, record { is_accepted = false; reason = why })

abbrev pub accepted : Reason → GameEngine → GameEngine × MoveResult
accepted why g = (g, record { is_accepted = true; reason = why })

-- `max(1, 2 * time)`.
abbrev pub castle_duration : ℤ → ℤ
castle_duration time = if leb_ℤ (time +ℤ time) (pos 1) then pos 1 else time +ℤ time

unfoldable pub start_castle : PieceConfigReader → PendingCastle → GameEngine → GameEngine
unfolding begin_motion update_piece
start_castle load c g =
    let duration = castle_duration (load (token (g.heap c.king)) move).move_time_per_cell_ms in
    let marked = update_piece c.rook mark_as_moved (update_piece c.king mark_as_moved g) in
    let king_moves = begin_motion c.king c.king_source c.king_destination duration true marked in
    let both_move = begin_motion c.rook c.rook_source c.rook_destination duration true king_moves in
    record both_move { pending_castles = both_move.pending_castles ++ c ∷ [] }

unfoldable pub start_move : PieceConfigReader → Ref → Position → Position → GameEngine → GameEngine
unfolding begin_motion update_piece
start_move load r s d g =
    let time = (load (token (g.heap r)) move).move_time_per_cell_ms in
    begin_motion r s d time false (update_piece r mark_as_moved g)

-- What is asked of an idle piece on the board.
unfoldable pub move_ready :
    PieceConfigReader → Ref → Position → Position → GameEngine → GameEngine × MoveResult
move_ready load r s d g =
    let validation = validate_move g.heap g.board s d in
    if is_castling_request g s d
    then elim (can_castle g s d) [
      | none ↦ refused illegal_piece_move g
      | some c ↦ accepted ok (start_castle load c g)
    ]
    else (if not validation.is_valid
        then refused validation.reason g
        else accepted ok (start_move load r s d g))

unfoldable pub request_move :
    PieceConfigReader → Position → Position → GameEngine → GameEngine × MoveResult
request_move load s d g =
    if g.game_over
    then refused game_over g
    else (if not (is_inside g.board s) || not (is_inside g.board d)
        then refused outside_board g
        else elim (get_piece_at g.board s) [
          | none ↦ refused empty_source g
          | some r ↦ if is_busy g r then refused motion_in_progress g else move_ready load r s d g
        ])

unfoldable pub begin_jump : PieceConfigReader → Ref → Position → GameEngine → GameEngine
unfolding start_jump
begin_jump load r cell g =
    let (h, a) =
      start_jump (some r) cell (load (token (g.heap r)) jump).jump_duration_ms g.heap g.real_time in
    record g { heap = h; real_time = a }

unfoldable pub request_jump : PieceConfigReader → Position → GameEngine → GameEngine × MoveResult
request_jump load cell g =
    if g.game_over
    then refused game_over g
    else (if not (is_inside g.board cell)
        then refused outside_board g
        else elim (get_piece_at g.board cell) [
          | none ↦ refused empty_source g
          | some r ↦
              if is_busy g r
              then refused cannot_jump g
              else accepted jump_started (begin_jump load r cell g)
        ])

-- The fields that every response copies from its request.
abbrev pub response_to : GameEngine → Message → Message
response_to g request = record default_message {
  sequence = request.sequence;
  source = request.source;
  destination = request.destination;
  created_at_ms = current_time g;
}

abbrev pub respond : Message → MoveResult → Message
respond response result = record response {
  accepted = result.is_accepted;
  reason = result.reason;
  type = if result.is_accepted then move_accepted else move_rejected;
}

abbrev pub answer_with : Message → GameEngine × MoveResult → GameEngine × Message
answer_with response (g, result) = (g, respond response result)

abbrev pub dispatch : PieceConfigReader → MessageType → Message → GameEngine → GameEngine × Message
dispatch load move_request request g =
    answer_with (response_to g request) (request_move load request.source request.destination g)
dispatch load jump_request request g =
    answer_with (response_to g request) (request_jump load request.source g)
dispatch load _ request g = (
  g,
  record (response_to g request) {
    type = move_rejected;
    accepted = false;
    reason = unsupported_request_type;
  },
)

unfoldable pub handle_message : PieceConfigReader → Message → GameEngine → GameEngine × Message
handle_message load request g = dispatch load request.type request g

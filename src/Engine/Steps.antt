-- ===== src/Engine/Steps.antt =====
-- The time events of GameEngine.cpp: steps, captures, landings, and the loop of `wait`. Pieces in
-- events are never null, so the tests for a null piece are left out.
use ctd_tamar.Common.{
  ℕ, zero, suc, ◌+◌, ◌*◌, ℤ, pos, Bool, true, false, ◌&&◌, not, Option, none, some, List, [], ◌∷◌,
  if◌then◌else◌, is_empty_list, find?, length, is_negative,
}
use ctd_tamar.Core.Position.{Position}
use ctd_tamar.Core.Piece.{
  Piece, PieceColor, black, PieceKind, pawn, idle, captured, is_white, is_king, is_moving,
  is_airborne, color_eq, set_state, start_cooldown, token,
}
use ctd_tamar.Core.Board.{Ref, get_piece_at, is_inside, remove_piece, set_piece_at}
use ctd_tamar.Core.Results.{MoveHistoryEntry, king_captured}
use ctd_tamar.Rules.Path.{distance}
use ctd_tamar.Realtime.Arbiter.{
  Motion, StepEvent, JumpLandingEvent, TimeEvents, advance_time, update_motion_cell, cancel_motion,
  finish_motion,
}
use ctd_tamar.Realtime.Motions.{backlog, belongs}
use ctd_tamar.Engine.State.{
  GameEngine, PieceConfigReader, jump, update_piece, update_board, update_real_time, current_time,
}
use ctd_tamar.Engine.Cells.{find_piece_at_real_or_virtual_cell, remove_piece_from_board, holds}
use ctd_tamar.Engine.Record.{
  add_capture_score, end_game, publish_move_completed, record_move, push_history,
  promote_pawn_if_needed,
}
use ctd_tamar.Engine.Castling.{complete_castle_for}

unfoldable pub commit_piece_to_cell : Ref → Position → Position → GameEngine → GameEngine
commit_piece_to_cell r s d g =
    if not (is_inside g.board d)
    then g
    else update_board
        (λ b. set_piece_at d r (if holds (get_piece_at b s) r then remove_piece s b else b)) g

-- `history.back()`, where there is one.
abbrev pub last? : List MoveHistoryEntry → Option MoveHistoryEntry
last? [] = none
last? (e ∷ es) = elim (last? es) [ none ↦ some e | some x ↦ some x ]

abbrev pub history_of : PieceColor → GameEngine → List MoveHistoryEntry
history_of c g = if is_white c then g.white_move_history else g.black_move_history

abbrev pub publish_last : PieceColor → Bool → PieceKind → PieceColor → GameEngine → GameEngine
publish_last c was_capture kind color g = elim (last? (history_of c g)) [
  | none ↦ g
  | some e ↦ publish_move_completed e was_capture kind color g
]

-- A piece that has stopped is idle, and rests for a second for each cell of its way.
abbrev pub rests : Position → Position → ℕ → Piece → Piece
rests s final at p = start_cooldown at (pos (distance s final * 1000)) (set_state idle p)

abbrev pub settle_piece : Ref → Position → Position → ℕ → GameEngine → GameEngine
settle_piece r s final at g =
    update_real_time (finish_motion r) (update_piece r (rests s final at) g)

unfoldable pub stop_moving_piece_at :
    Ref → Position → Position → ℕ → Bool → PieceKind → PieceColor → GameEngine → GameEngine
unfolding commit_piece_to_cell promote_pawn_if_needed update_piece record_move
    publish_move_completed
stop_moving_piece_at r s final at was_capture captured_kind captured_color g =
    let original_kind = (g.heap r).kind in
    let (g1, promoted) = promote_pawn_if_needed r final (commit_piece_to_cell r s final g) in
    let g2 = settle_piece r s final at g1 in
    let g3 = record_move r original_kind s final was_capture promoted false at g2 in
    publish_last (g3.heap r).color was_capture captured_kind captured_color g3

abbrev pub end_if_king : PieceKind → PieceColor → GameEngine → GameEngine
end_if_king kind winner g = if is_king kind then end_game winner king_captured g else g

-- The mover runs into a jumping piece and is captured by it.
unfoldable pub captured_by_jumper : Ref → Ref → GameEngine → GameEngine
unfolding remove_piece_from_board update_piece add_capture_score end_game
captured_by_jumper r target g =
    let kind = (g.heap r).kind in
    let winner = (g.heap target).color in
    let removed = update_piece r (set_state captured) (remove_piece_from_board r g) in
    end_if_king kind winner
      (add_capture_score winner kind (update_real_time (cancel_motion r) removed))

-- The mover captures the piece that stands on or passes through the cell, and stops there.
unfoldable pub captures : Ref → Ref → Position → StepEvent → GameEngine → GameEngine
unfolding remove_piece_from_board update_piece add_capture_score end_game stop_moving_piece_at
captures r target source e g =
    let kind = (g.heap target).kind in
    let color = (g.heap target).color in
    let winner = (g.heap r).color in
    let removed = remove_piece_from_board target (update_piece target (set_state captured) g) in
    let scored = add_capture_score winner kind (update_real_time (cancel_motion target) removed) in
    let moved = update_real_time (update_motion_cell r e.to) scored in
    end_if_king kind winner
      (stop_moving_piece_at r source e.to e.event_time_ms true kind color moved)

-- A step onto a cell where nobody is.
unfoldable pub steps_on : Ref → Position → StepEvent → GameEngine → GameEngine
unfolding stop_moving_piece_at update_motion_cell
steps_on r source e g =
    let moved = update_real_time (update_motion_cell r e.to) g in
    if e.reached_destination
    then stop_moving_piece_at r source e.to e.event_time_ms false pawn black moved
    else moved

-- The piece stays where it is, and its motion ends.
abbrev pub stops_short : Ref → Position → StepEvent → GameEngine → GameEngine
stops_short r source e g = stop_moving_piece_at r source e.from e.event_time_ms false pawn black g

unfoldable pub meets : Ref → Ref → Position → StepEvent → GameEngine → GameEngine
unfolding captured_by_jumper captures stop_moving_piece_at
meets r target source e g =
    if color_eq (g.heap target).color (g.heap r).color
    then stops_short r source e g
    else (if is_airborne (g.heap target).state
        then captured_by_jumper r target g
        else captures r target source e g)

unfoldable pub step_motion : Ref → Motion → StepEvent → GameEngine → GameEngine
unfolding meets steps_on stop_moving_piece_at find_piece_at_real_or_virtual_cell
step_motion r m e g =
    if not (is_inside g.board e.to)
    then stops_short r m.source e g
    else elim (find_piece_at_real_or_virtual_cell g e.to r) [
      | none ↦ steps_on r m.source e g
      | some target ↦ meets r target m.source e g
    ]

-- The step of the piece's motion, where it has one.
unfoldable pub motion_step : StepEvent → GameEngine → GameEngine
unfolding step_motion find?
motion_step e g = elim (find? (belongs e.piece) g.real_time.active_motions) [
  | none ↦ g
  | some m ↦ step_motion e.piece m e g
]

unfoldable pub process_step_event : StepEvent → GameEngine → GameEngine
unfolding complete_castle_for motion_step
process_step_event e g =
    if not (is_moving (g.heap e.piece).state)
    then g
    else elim (complete_castle_for e g) [ some done ↦ done | none ↦ motion_step e g ]

-- The jumper stands on its cell again and rests.
unfoldable pub rest_landed : PieceConfigReader → JumpLandingEvent → GameEngine → GameEngine
unfolding update_piece token
rest_landed load e g =
    let landed = update_piece e.piece (set_state idle) g in
    let config = load (token (landed.heap e.piece)) jump in
    update_piece e.piece (start_cooldown e.event_time_ms config.short_cooldown_ms) landed

abbrev pub jump_entry : JumpLandingEvent → Piece → MoveHistoryEntry
jump_entry e p = record {
  completed_at_ms = e.event_time_ms;
  color = p.color;
  piece_kind = p.kind;
  source = e.cell;
  destination = e.cell;
  was_capture = false;
  was_promotion = false;
  was_jump = true;
  notation = b'J' ∷ b'u' ∷ b'm' ∷ b'p' ∷ [];
}

unfoldable pub land : PieceConfigReader → JumpLandingEvent → GameEngine → GameEngine
unfolding rest_landed push_history publish_move_completed
land load e g =
    let rested = rest_landed load e g in
    let entry = jump_entry e (rested.heap e.piece) in
    publish_move_completed entry false pawn black (push_history entry rested)

unfoldable pub process_jump_landing : PieceConfigReader → JumpLandingEvent → GameEngine → GameEngine
unfolding land
process_jump_landing load e g =
    if not (is_airborne (g.heap e.piece).state)
    then g
    else (if not (holds (get_piece_at g.board e.cell) e.piece) then g else land load e g)

unfoldable pub process_steps : List StepEvent → GameEngine → GameEngine
unfolding process_step_event
process_steps [] g = g
process_steps (e ∷ es) g = process_steps es (process_step_event e g)

unfoldable pub process_landings :
    PieceConfigReader → List JumpLandingEvent → GameEngine → GameEngine
unfolding process_jump_landing
process_landings load [] g = g
process_landings load (e ∷ es) g = process_landings load es (process_jump_landing load e g)

unfoldable pub apply_time_events : PieceConfigReader → TimeEvents → GameEngine → GameEngine
unfolding process_steps process_landings
apply_time_events load ev g = process_landings load ev.jump_landings (process_steps ev.steps g)

-- `realTime.advanceTime`.
unfoldable pub advance : ℤ → GameEngine → GameEngine × TimeEvents
unfolding advance_time
advance ms g =
    let (a, events) = advance_time ms g.heap g.real_time in (record g { real_time = a }, events)

abbrev pub is_quiet : TimeEvents → Bool
is_quiet ev = is_empty_list ev.steps && is_empty_list ev.jump_landings

-- The `while` loop of `wait`; `none` means that the fuel ran out.
unfoldable pub settle : ℕ → PieceConfigReader → GameEngine → TimeEvents → Option GameEngine
unfolding apply_time_events advance
settle zero load g events = none
settle (suc fuel) load g events =
    let (g', events') = advance (pos 0) (apply_time_events load events g) in
    let rest = settle fuel load g' events' in if is_quiet events then some g else rest

abbrev pub rounds : GameEngine → TimeEvents → ℕ
rounds g ev = suc (backlog (current_time g) g.real_time.active_motions + length ev.jump_landings)

abbrev pub or_unchanged : GameEngine → Option GameEngine → GameEngine
or_unchanged g none = g
or_unchanged g (some g') = g'

-- `wait`, with fuel for the backlog of its motions.
unfoldable pub wait : PieceConfigReader → ℤ → GameEngine → GameEngine
wait load ms g =
    let (g', events) = advance ms g in
    if is_negative ms then g else or_unchanged g (settle (rounds g' events) load g' events)

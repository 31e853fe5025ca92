-- ===== src/Engine/LedgerRuns.antt =====
-- Time events and calls of GameEngine.cpp only add to what the engine has recorded.
use ctd_tamar.Common.{
  ℕ, zero, suc, ℤ, pos, negsuc, inl, inr, false, List, [], ◌∷◌, Bool-cases, Option-cases,
}
use ctd_tamar.Core.Position.{Position}
use ctd_tamar.Core.Piece.{black, pawn, is_moving, is_airborne}
use ctd_tamar.Core.Board.{Ref, get_piece_at}
use ctd_tamar.Core.Results.{MoveResult}
use ctd_tamar.Realtime.Arbiter.{StepEvent, JumpLandingEvent, TimeEvents}
use ctd_tamar.Engine.State.{GameEngine, PieceConfigReader, PendingCastle}
use ctd_tamar.Engine.Cells.{holds}
use ctd_tamar.Engine.Record.{push_history}
use ctd_tamar.Engine.Castling.{
  complete_castle, complete_castle_for, take_castle, both_placed, both_stopped, castle_entry,
}
use ctd_tamar.Engine.Steps.{
  process_step_event, rest_landed, jump_entry, land, process_jump_landing, process_steps,
  process_landings, apply_time_events, advance, settle, is_quiet, rounds, or_unchanged, wait,
}
use ctd_tamar.Engine.Ledger.{
  Later, Later-refl, Later-trans, publish_move_completed-Later, push_history-Later,
}
use ctd_tamar.Engine.Requests.{start_castle, start_move, begin_jump, request_move}
use ctd_tamar.Engine.Accepts.{
  request_move-ends, request_jump-ends, MoveEnds, refuses, castled, moved,
}
use ctd_tamar.Engine.Runs.{Call, moves, jumps, waits, step, run}
use ctd_tamar.Engine.LedgerSteps.{motion_step-Later}

complete_castle-Later :
    (c : PendingCastle) (at : ℕ) (g : GameEngine) → Later g (complete_castle c at g)
unfolding complete_castle
complete_castle-Later c at g =
    let placed = both_placed c at g in
    let entry = castle_entry c at (placed.heap c.king).color in
    let stopped = both_stopped c placed in
    Later-trans g (push_history entry stopped) (complete_castle c at g)
      (push_history-Later entry stopped)
      (publish_move_completed-Later entry false pawn black (push_history entry stopped))

process_step_event-Later : (e : StepEvent) (g : GameEngine) → Later g (process_step_event e g)
unfolding process_step_event complete_castle_for
process_step_event-Later e g = elim (Bool-cases (is_moving (g.heap e.piece).state)) [
  | inr n ↦ rw n (Later-refl g)
  | inl y ↦ rw y (elim (Option-cases (take_castle e.piece g.pending_castles)) [
    | inl n ↦ rw (n, process_step_event) (motion_step-Later e g)
    | inr ((c, rest), f) ↦ rw (f, process_step_event) (complete_castle-Later c e.event_time_ms g)
  ])
]

land-Later :
    (load : PieceConfigReader) (e : JumpLandingEvent) (g : GameEngine) → Later g (land load e g)
unfolding land rest_landed
land-Later load e g =
    let rested = rest_landed load e g in
    let entry = jump_entry e (rested.heap e.piece) in
    Later-trans g (push_history entry rested) (land load e g) (push_history-Later entry rested)
      (publish_move_completed-Later entry false pawn black (push_history entry rested))

process_jump_landing-Later :
    (load : PieceConfigReader) (e : JumpLandingEvent) (g : GameEngine)
    → Later g (process_jump_landing load e g)
unfolding process_jump_landing
process_jump_landing-Later load e g = elim (Bool-cases (is_airborne (g.heap e.piece).state)) [
  | inr n ↦ rw n (Later-refl g)
  | inl y ↦ rw y (elim (Bool-cases (holds (get_piece_at g.board e.cell) e.piece)) [
    | inr n ↦ rw n (Later-refl g)
    | inl h ↦ rw h (land-Later load e g)
  ])
]

process_steps-Later : (es : List StepEvent) (g : GameEngine) → Later g (process_steps es g)
unfolding process_steps
process_steps-Later [] g = Later-refl g
process_steps-Later (e ∷ es) g =
    Later-trans g (process_step_event e g) (process_steps es (process_step_event e g))
      (process_step_event-Later e g) (process_steps-Later es (process_step_event e g))

process_landings-Later :
    (load : PieceConfigReader) (es : List JumpLandingEvent) (g : GameEngine)
    → Later g (process_landings load es g)
unfolding process_landings
process_landings-Later load [] g = Later-refl g
process_landings-Later load (e ∷ es) g =
    let g' = process_jump_landing load e g in
    Later-trans g g' (process_landings load es g') (process_jump_landing-Later load e g)
      (process_landings-Later load es g')

apply_time_events-Later :
    (load : PieceConfigReader) (ev : TimeEvents) (g : GameEngine)
    → Later g (apply_time_events load ev g)
unfolding apply_time_events
apply_time_events-Later load ev g =
    let g' = process_steps ev.steps g in
    Later-trans g g' (process_landings load ev.jump_landings g') (process_steps-Later ev.steps g)
      (process_landings-Later load ev.jump_landings g')

settle-Later :
    (base : GameEngine) (fuel : ℕ) (load : PieceConfigReader) (g : GameEngine) (ev : TimeEvents)
    → Later base g
    → Later base (or_unchanged base (settle fuel load g ev))
unfolding settle advance
settle-Later base zero load g ev l = Later-refl base
settle-Later base (suc fuel) load g ev l =
    let applied = apply_time_events load ev g in
    let next = advance (pos 0) applied in
    elim (Bool-cases (is_quiet ev)) [
      | inl q ↦ rw q l
      | inr q ↦ rw q (
          settle-Later base fuel load next.0 next.1
            (Later-trans base g applied l (apply_time_events-Later load ev g)))
    ]

advance-Later :
    (base : GameEngine) (ms : ℤ) (g : GameEngine) → Later base g → Later base (advance ms g).0
unfolding advance
advance-Later base ms g l = l

wait-Later : (load : PieceConfigReader) (ms : ℤ) (g : GameEngine) → Later g (wait load ms g)
unfolding wait
wait-Later load (negsuc n) g = Later-refl g
wait-Later load (pos n) g =
    let out = advance (pos n) g in
    settle-Later g (rounds out.0 out.1) load out.0 out.1 (advance-Later g (pos n) g (Later-refl g))

MoveEnds-Later :
    (load : PieceConfigReader) (r : Ref) (s d : Position) (g : GameEngine)
    (out : GameEngine × MoveResult)
    → MoveEnds load r s d g out
    → Later g out.0
unfolding start_castle start_move
MoveEnds-Later load r s d g out (refuses w e) = rw e (Later-refl g)
MoveEnds-Later load r s d g out (castled c q e y p) = rw p (Later-refl g)
MoveEnds-Later load r s d g out (moved q v y p) = rw p (Later-refl g)

step-Later : (load : PieceConfigReader) (c : Call) (g : GameEngine) → Later g (step load c g)
unfolding step begin_jump
step-Later load (moves s d) g = elim (request_move-ends load s d g) [
  | inl (w, e) ↦ rw e (Later-refl g)
  | inr (r, f, b, m) ↦ MoveEnds-Later load r s d g (request_move load s d g) m
]
step-Later load (jumps cell) g = elim (request_jump-ends load cell g) [
  | inl (w, e) ↦ rw e (Later-refl g)
  | inr (r, f, y, e) ↦ rw e (Later-refl g)
]
step-Later load (waits ms) g = wait-Later load ms g

-- Whatever calls follow, a game that is over stays over, no score falls, and the move histories and
-- the published events only grow at their ends.
pub run-Later :
    (load : PieceConfigReader) (cs : List Call) (g : GameEngine) → Later g (run load cs g)
unfolding run
run-Later load [] g = Later-refl g
run-Later load (c ∷ cs) g =
    Later-trans g (step load c g) (run load cs (step load c g)) (step-Later load c g)
      (run-Later load cs (step load c g))

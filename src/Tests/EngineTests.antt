-- ===== src/Tests/EngineTests.antt =====
-- The theorems on time and on the engine at runs of the small game.
use ctd_tamar.Common.{◌+◌, ◌≤◌, ◌<◌, pos, ◌≡◌, ◌⊎◌, true, false, some, List, [], ◌∷◌, All, length}
use mathlib.Core.List.{Perm}
use ctd_tamar.Core.Position.{position}
use ctd_tamar.Core.Piece.{moving}
use ctd_tamar.Core.Board.{Ref, is_inside}
use ctd_tamar.Realtime.Arbiter.{Motion, RealTimeArbiter, StepEvent, advance_time, due_steps}
use ctd_tamar.Realtime.Order.{IsSorted}
use ctd_tamar.Realtime.Advance.{Emits, advance_time_lem}
use ctd_tamar.Engine.State.{GameEngine, current_time, new}
use ctd_tamar.Engine.Steps.{advance, settle, rounds, wait, process_step_event}
use ctd_tamar.Engine.Requests.{request_move, request_jump, begin_jump}
use ctd_tamar.Engine.Accepts.{Unchanged, IsFree, MoveEnds, request_move-ends, request_jump-ends}
use ctd_tamar.Engine.Endings.{Ends}
use ctd_tamar.Engine.Encounters.{process_step_event-Ends}
use ctd_tamar.Engine.Progress.{Timed}
use ctd_tamar.Engine.Wait.{Done, wait-Done}
use ctd_tamar.Engine.Runs.{Call, moves, jumps, waits, run, step, run-new-wait, step-Timed}
use ctd_tamar.Engine.Ledger.{Later}
use ctd_tamar.Engine.Steps.{captures, captured_by_jumper}
use ctd_tamar.Engine.Standing.{standing_of, after_capture}
use ctd_tamar.Engine.Scores.{captures_standing}
use ctd_tamar.Engine.LedgerRuns.{run-Later}
use ctd_tamar.Tests.Scene.{
  corner_cell, side_cell, king_cell, some_heap, some_board, some_config, some_engine,
}

-- The rook on its way to the side, after half a second.
abbrev rook_motion : Motion
rook_motion = record {
  piece = 0;
  source = corner_cell;
  destination = side_cell;
  current_cell = corner_cell;
  row_step = pos 0;
  col_step = pos 1;
  direct_move = false;
  step_duration_ms = 1000;
  next_step_time_ms = 1000;
  order = 0;
}

abbrev some_arbiter : RealTimeArbiter
some_arbiter = record {
  current_time_ms = 500;
  active_motions = rook_motion ∷ [];
  active_jumps = [];
  next_motion_order = 1;
}

abbrev first_step : StepEvent
first_step = record {
  piece = 0;
  source = corner_cell;
  from = corner_cell;
  to = position (pos 0) (pos 1);
  reached_destination = false;
  event_time_ms = 1000;
  order = 0;
}

abbrev some_calls : List Call
some_calls = moves corner_cell side_cell ∷ waits (pos 700) ∷ jumps king_cell ∷ []

abbrev moving_engine : GameEngine
moving_engine = step some_config (moves corner_cell side_cell) some_engine

moving_engine-Timed : Timed moving_engine.heap moving_engine.real_time
unfolding new
moving_engine-Timed = step-Timed some_config (moves corner_cell side_cell) some_engine (tt, tt, tt)

run-new-wait_example :
    let g = run some_config some_calls (new some_heap some_board true) in
    Timed g.heap g.real_time
    × Done (wait some_config (pos 2500) g)
    × (current_time (wait some_config (pos 2500) g) ≡ current_time g + 2500)
run-new-wait_example = run-new-wait some_config some_heap some_board true some_calls 2500

wait-Done_example :
    let (g1, ev) = advance (pos 2500) moving_engine in
    (settle (rounds g1 ev) some_config g1 ev ≡ some (wait some_config (pos 2500) moving_engine))
    × Done (wait some_config (pos 2500) moving_engine)
    × (current_time (wait some_config (pos 2500) moving_engine) ≡ current_time moving_engine + 2500)
wait-Done_example = wait-Done some_config 2500 moving_engine moving_engine-Timed

process_step_event-Ends_example :
    Ends first_step moving_engine (process_step_event first_step moving_engine)
process_step_event-Ends_example = process_step_event-Ends first_step moving_engine

request_move-ends_example :
    let out = request_move some_config corner_cell side_cell some_engine in
    Unchanged some_engine out
    ⊎ ((r : Ref) × IsFree some_engine corner_cell r
        × (is_inside some_engine.board side_cell ≡ true)
        × MoveEnds some_config r corner_cell side_cell some_engine out)
request_move-ends_example = request_move-ends some_config corner_cell side_cell some_engine

request_jump-ends_example :
    let out = request_jump some_config king_cell some_engine in
    Unchanged some_engine out
    ⊎ ((r : Ref) × IsFree some_engine king_cell r
        × (out.1.is_accepted ≡ true)
        × (out.0 ≡ begin_jump some_config r king_cell some_engine))
request_jump-ends_example = request_jump-ends some_config king_cell some_engine

advance_time_lem_example :
    let now = 500 + 700 in
    let (a', events) = advance_time (pos 700) some_heap some_arbiter in
    (a'.current_time_ms ≡ now)
    × IsSorted events.steps
    × Perm events.steps (due_steps now some_heap some_arbiter.active_motions)
    × Emits now some_heap some_arbiter.active_motions
        (due_steps now some_heap some_arbiter.active_motions)
    × All (λ (m : Motion). (some_heap m.piece).state ≡ moving) a'.active_motions
    × All (λ e. e.event_time_ms ≤ now) events.jump_landings
    × All (λ j. now < j.finish_time_ms) a'.active_jumps
    × (length events.jump_landings + length a'.active_jumps ≡ 0)
advance_time_lem_example = advance_time_lem 700 some_heap some_arbiter

run-Later_example : Later some_engine (run some_config some_calls some_engine)
run-Later_example = run-Later some_config some_calls some_engine

captures_standing_example :
    (standing_of (captures 0 1 corner_cell first_step some_engine)
      ≡ after_capture (some_heap 0).color (some_heap 1).kind (standing_of some_engine))
    × (standing_of (captured_by_jumper 0 1 some_engine)
        ≡ after_capture (some_heap 1).color (some_heap 0).kind (standing_of some_engine))
unfolding new
captures_standing_example = captures_standing 0 1 corner_cell first_step some_engine

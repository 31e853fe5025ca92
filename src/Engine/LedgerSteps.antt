-- ===== src/Engine/LedgerSteps.antt =====
-- Each step of a motion in GameEngine.cpp only adds to what the engine has recorded.
use ctd_tamar.Common.{inl, inr, true, false, Bool-cases, Option-cases, find?}
use ctd_tamar.Core.Position.{Position}
use ctd_tamar.Core.Piece.{black, pawn, is_airborne, color_eq, set_state, captured}
use ctd_tamar.Core.Board.{Ref, is_inside}
use ctd_tamar.Realtime.Arbiter.{StepEvent, cancel_motion, update_motion_cell, Motion}
use ctd_tamar.Realtime.Motions.{belongs}
use ctd_tamar.Engine.State.{GameEngine, update_piece, update_real_time}
use ctd_tamar.Engine.Cells.{remove_piece_from_board, find_piece_at_real_or_virtual_cell}
use ctd_tamar.Engine.Record.{add_capture_score}
use ctd_tamar.Engine.Steps.{
  end_if_king, stop_moving_piece_at, captured_by_jumper, captures, steps_on, stops_short, meets,
  step_motion, motion_step,
}
use ctd_tamar.Engine.Ledger.{
  Later, Later-refl, Later-trans, add_capture_score-Later, update_piece-Later,
  remove_piece_from_board-Later, stop_moving_piece_at-Later, end_if_king-Later,
}

captured_by_jumper-Later :
    (r target : Ref) (g : GameEngine) → Later g (captured_by_jumper r target g)
unfolding captured_by_jumper
captured_by_jumper-Later r target g =
    let kind = (g.heap r).kind in
    let winner = (g.heap target).color in
    let g0 = remove_piece_from_board r g in
    let g1 = update_piece r (set_state captured) g0 in
    let g2 = update_real_time (cancel_motion r) g1 in
    let g3 = add_capture_score winner kind g2 in
    Later-trans g g0 (end_if_king kind winner g3) (remove_piece_from_board-Later r g) (
      Later-trans g0 g1 (end_if_king kind winner g3) (update_piece-Later r (set_state captured) g0)
        (Later-trans g1 g3 (end_if_king kind winner g3) (add_capture_score-Later winner kind g2)
          (end_if_king-Later kind winner g3)))

captures-Later :
    (r target : Ref) (s : Position) (e : StepEvent) (g : GameEngine)
    → Later g (captures r target s e g)
unfolding captures
captures-Later r target s e g =
    let kind = (g.heap target).kind in
    let color = (g.heap target).color in
    let winner = (g.heap r).color in
    let g0 = update_piece target (set_state captured) g in
    let g1 = remove_piece_from_board target g0 in
    let g2 = add_capture_score winner kind (update_real_time (cancel_motion target) g1) in
    let moved = update_real_time (update_motion_cell r e.to) g2 in
    let g3 = stop_moving_piece_at r s e.to e.event_time_ms true kind color moved in
    let g4 = end_if_king kind winner g3 in
    Later-trans g g0 g4 (update_piece-Later target (set_state captured) g) (
      Later-trans g0 g1 g4 (remove_piece_from_board-Later target g0) (
        Later-trans g1 g2 g4
          (add_capture_score-Later winner kind (update_real_time (cancel_motion target) g1))
          (Later-trans g2 g3 g4
            (stop_moving_piece_at-Later r s e.to e.event_time_ms true kind color moved)
            (end_if_king-Later kind winner g3))))

steps_on-Later :
    (r : Ref) (s : Position) (e : StepEvent) (g : GameEngine) → Later g (steps_on r s e g)
unfolding steps_on
steps_on-Later r s e g =
    let moved = update_real_time (update_motion_cell r e.to) g in
    elim (Bool-cases e.reached_destination) [
      | inl y ↦ rw y (stop_moving_piece_at-Later r s e.to e.event_time_ms false pawn black moved)
      | inr n ↦ rw n (Later-refl g)
    ]

stops_short-Later :
    (r : Ref) (s : Position) (e : StepEvent) (g : GameEngine) → Later g (stops_short r s e g)
stops_short-Later r s e g = stop_moving_piece_at-Later r s e.from e.event_time_ms false pawn black g

meets-Later :
    (r target : Ref) (s : Position) (e : StepEvent) (g : GameEngine)
    → Later g (meets r target s e g)
unfolding meets
meets-Later r target s e g = elim (Bool-cases (color_eq (g.heap target).color (g.heap r).color)) [
  | inl c ↦ rw c (stops_short-Later r s e g)
  | inr c ↦ rw c (elim (Bool-cases (is_airborne (g.heap target).state)) [
    | inl a ↦ rw a (captured_by_jumper-Later r target g)
    | inr a ↦ rw a (captures-Later r target s e g)
  ])
]

step_motion-Later :
    (r : Ref) (m : Motion) (e : StepEvent) (g : GameEngine) → Later g (step_motion r m e g)
unfolding step_motion
step_motion-Later r m e g = elim (Bool-cases (is_inside g.board e.to)) [
  | inr o ↦ rw o (stops_short-Later r m.source e g)
  | inl i ↦ rw i (elim (Option-cases (find_piece_at_real_or_virtual_cell g e.to r)) [
    | inl n ↦ rw (n, step_motion) (steps_on-Later r m.source e g)
    | inr (t, f) ↦ rw (f, step_motion) (meets-Later r t m.source e g)
  ])
]

pub motion_step-Later : (e : StepEvent) (g : GameEngine) → Later g (motion_step e g)
unfolding motion_step
motion_step-Later e g = elim (Option-cases (find? (belongs e.piece) g.real_time.active_motions)) [
  | inl n ↦ rw (n, motion_step) (Later-refl g)
  | inr (m, f) ↦ rw (f, motion_step) (step_motion-Later e.piece m e g)
]

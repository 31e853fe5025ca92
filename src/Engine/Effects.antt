-- ===== src/Engine/Effects.antt =====
-- What stopping, stepping, capturing and castling in GameEngine.cpp do to pieces and motions.
use ctd_tamar.Common.{ℕ, ◌≡◌, refl, ◌∙◌, ap, Bool, true, false, Bool-cases, inl, inr, ◌⊎◌}
use ctd_tamar.Core.Position.{Position}
use ctd_tamar.Core.Piece.{PieceColor, PieceKind, captured, set_state, pawn, black}
use ctd_tamar.Core.Board.{Ref, Heap}
use ctd_tamar.Realtime.Arbiter.{StepEvent, cancel_motion, update_motion_cell}
use ctd_tamar.Engine.State.{GameEngine, PendingCastle, update_piece, update_board, update_real_time}
use ctd_tamar.Engine.Cells.{remove_piece_from_board}
use ctd_tamar.Engine.Record.{add_capture_score, push_history, record_move, promote_pawn_if_needed}
use ctd_tamar.Engine.Castling.{
  complete_castle, king_placed, both_placed, both_stopped, castle_entry, put_castle,
  rest_after_castle,
}
use ctd_tamar.Engine.Steps.{
  commit_piece_to_cell, stop_moving_piece_at, captured_by_jumper, captures, steps_on, settle_piece,
  rests,
}
use ctd_tamar.Engine.Frame.{
  SameBut, add_capture_score-Frame, end_if_king-Frame, push_history-Frame,
  publish_move_completed-Frame, publish_last-Frame, record_move-Frame,
  remove_piece_from_board-Frame, commit_piece_to_cell-Frame, update_piece-SameBut, promote-SameBut,
}

module _ (r : Ref) (s final : Position) (at : ℕ) (w : Bool) (k : PieceKind) (c : PieceColor) where
  -- Stopping a piece ends its motion and changes no other piece.
  pub stop-real_time :
      (g : GameEngine)
      → (stop_moving_piece_at r s final at w k c g).real_time ≡ cancel_motion r g.real_time
  unfolding stop_moving_piece_at
  stop-real_time g =
      let g0 = commit_piece_to_cell r s final g in
      let (g1, promoted) = promote_pawn_if_needed r final g0 in
      let g2 = settle_piece r s final at g1 in
      let g3 = record_move r (g.heap r).kind s final w promoted false at g2 in
      (publish_last-Frame (g3.heap r).color w k c g3).1
      ∙ (record_move-Frame r (g.heap r).kind s final w promoted false at g2).1
      ∙ ap (cancel_motion r)
          ((promote-SameBut r final g0).1 ∙ (commit_piece_to_cell-Frame r s final g).1)

  pub stop-SameBut :
      (g : GameEngine) → SameBut r g.heap (stop_moving_piece_at r s final at w k c g).heap
  unfolding stop_moving_piece_at
  stop-SameBut g q e =
      let g0 = commit_piece_to_cell r s final g in
      let (g1, promoted) = promote_pawn_if_needed r final g0 in
      let g2 = settle_piece r s final at g1 in
      let g3 = record_move r (g.heap r).kind s final w promoted false at g2 in
      ap (λ h. h q)
        ((publish_last-Frame (g3.heap r).color w k c g3).0
          ∙ (record_move-Frame r (g.heap r).kind s final w promoted false at g2).0)
      ∙ update_piece-SameBut r (rests s final at) g1 q e
      ∙ (promote-SameBut r final g0).0 q e
      ∙ ap (λ h. h q) (commit_piece_to_cell-Frame r s final g).0

pub steps_on-cases :
    (r : Ref) (s : Position) (e : StepEvent) (g : GameEngine)
    → ((steps_on r s e g).heap ≡ g.heap)
        × ((steps_on r s e g).real_time ≡ update_motion_cell r e.to g.real_time)
      ⊎ (SameBut r g.heap (steps_on r s e g).heap
          × ((steps_on r s e g).real_time
              ≡ cancel_motion r (update_motion_cell r e.to g.real_time)))
unfolding steps_on
steps_on-cases r s e g =
    let moved = update_real_time (update_motion_cell r e.to) g in
    elim (Bool-cases e.reached_destination) [
      | inl b ↦ rw b (
          inr (
            stop-SameBut r s e.to e.event_time_ms false pawn black moved,
            stop-real_time r s e.to e.event_time_ms false pawn black moved,
          ))
      | inr b ↦ rw b (inl (refl, refl))
    ]

pub captured_by_jumper-effect :
    (r target : Ref) (g : GameEngine)
    → SameBut r g.heap (captured_by_jumper r target g).heap
      × ((captured_by_jumper r target g).real_time ≡ cancel_motion r g.real_time)
unfolding captured_by_jumper
captured_by_jumper-effect r target g =
    let kind = (g.heap r).kind in
    let winner = (g.heap target).color in
    let g0 = remove_piece_from_board r g in
    let g1 = update_piece r (set_state captured) g0 in
    let g2 = update_real_time (cancel_motion r) g1 in
    let g3 = add_capture_score winner kind g2 in
    let f = end_if_king-Frame kind winner g3 in
    let f2 = add_capture_score-Frame winner kind g2 in
    let f0 = remove_piece_from_board-Frame r g in
    (
      (λ q e.
          ap (λ h. h q) (f.0 ∙ f2.0)
          ∙ update_piece-SameBut r (set_state captured) g0 q e
          ∙ ap (λ h. h q) f0.0),
      f.1 ∙ f2.1 ∙ ap (cancel_motion r) f0.1,
    )

-- A capture changes the captured piece, whose motion ends, and then the mover, which stops.
pub captures-effect :
    (r target : Ref) (s : Position) (e : StepEvent) (g : GameEngine)
    → (h : Heap) × SameBut target g.heap h
      × SameBut r h (captures r target s e g).heap
      × ((captures r target s e g).real_time
          ≡ cancel_motion r (update_motion_cell r e.to (cancel_motion target g.real_time)))
unfolding captures
captures-effect r target s e g =
    let kind = (g.heap target).kind in
    let color = (g.heap target).color in
    let winner = (g.heap r).color in
    let g0 = update_piece target (set_state captured) g in
    let g1 = remove_piece_from_board target g0 in
    let g2 = update_real_time (cancel_motion target) g1 in
    let g3 = add_capture_score winner kind g2 in
    let g4 = update_real_time (update_motion_cell r e.to) g3 in
    let g5 = stop_moving_piece_at r s e.to e.event_time_ms true kind color g4 in
    let f1 = remove_piece_from_board-Frame target g0 in
    let f3 = add_capture_score-Frame winner kind g2 in
    let f5 = end_if_king-Frame kind winner g5 in
    (
      g0.heap,
      update_piece-SameBut target (set_state captured) g,
      (λ q n.
          ap (λ h. h q) f5.0
          ∙ stop-SameBut r s e.to e.event_time_ms true kind color g4 q n
          ∙ ap (λ h. h q) (f3.0 ∙ f1.0)),
      f5.1
          ∙ stop-real_time r s e.to e.event_time_ms true kind color g4
          ∙ ap (λ a. cancel_motion r (update_motion_cell r e.to a))
              (f3.1 ∙ ap (cancel_motion target) f1.1),
    )

-- The completion of a castle changes its two pieces and ends their motions.
pub complete_castle-effect :
    (c : PendingCastle) (at : ℕ) (g : GameEngine)
    → (h : Heap) × SameBut c.king g.heap h
      × SameBut c.rook h (complete_castle c at g).heap
      × ((complete_castle c at g).real_time
          ≡ cancel_motion c.rook (cancel_motion c.king g.real_time))
unfolding complete_castle
complete_castle-effect c at g =
    let g1 = king_placed c at g in
    let g2 = both_placed c at g in
    let entry = castle_entry c at (g2.heap c.king).color in
    let g3 = push_history entry (both_stopped c g2) in
    let f3 = push_history-Frame entry (both_stopped c g2) in
    let f4 = publish_move_completed-Frame entry false pawn black g3 in
    (
      g1.heap,
      update_piece-SameBut c.king (rest_after_castle at) (update_board (put_castle c) g),
      (λ q n.
          ap (λ h. h q) (f4.0 ∙ f3.0) ∙ update_piece-SameBut c.rook (rest_after_castle at) g1 q n),
      f4.1 ∙ f3.1,
    )

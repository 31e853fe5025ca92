-- ===== src/Engine/Settles.antt =====
-- The loop of GameEngine::wait ends, with nothing left to do at the new time.
use ctd_tamar.Common.{
  ◌<◌, ◌≡◌, refl, ap, ◌∙◌, inl, inr, true, false, List, [], ◌∷◌, All, ◌==◌, ==_iff, arith,
  Bool-cases,
}
use ctd_tamar.Core.Piece.{is_moving, is_airborne, pawn, black}
use ctd_tamar.Core.Board.{Ref, Heap, get_piece_at}
use ctd_tamar.Realtime.Arbiter.{Motion, StepEvent, JumpLandingEvent, TimeEvents, due_steps, sort}
use ctd_tamar.Realtime.Motions.{AllMoving, HasDue}
use ctd_tamar.Engine.State.{GameEngine, PieceConfigReader, current_time}
use ctd_tamar.Engine.Cells.{holds}
use ctd_tamar.Engine.Record.{push_history}
use ctd_tamar.Engine.Steps.{
  process_step_event, process_steps, land, rest_landed, jump_entry, process_jump_landing,
  process_landings,
}
use ctd_tamar.Engine.Frame.{SameBut, push_history-Frame, publish_move_completed-Frame}
use ctd_tamar.Engine.Outcome.{process_step_event-Follows}
use ctd_tamar.Engine.Progress.{
  Timed, Nearer, behind, Nearer-trans, Outcome-Timed, Outcome-Nearer, Outcome-behind,
}

-- What the loop knows of its state and the events that it is about to apply.
pub record Ready (g : GameEngine) (ev : TimeEvents) : Type 0 where
  pub timed : Timed g.heap g.real_time
  pub due : ev.steps ≡ sort (due_steps (current_time g) g.heap g.real_time.active_motions)
  pub jumping : All (λ j. current_time g < j.finish_time_ms) g.real_time.active_jumps

pub process_steps-Timed :
    (es : List StepEvent) (g : GameEngine)
    → Timed g.heap g.real_time
    → Timed (process_steps es g).heap (process_steps es g).real_time
unfolding process_steps
process_steps-Timed [] g t = t
process_steps-Timed (e ∷ es) g t =
    let g' = process_step_event e g in
    process_steps-Timed es g' (
      Outcome-Timed e.piece g.heap g'.heap g.real_time g'.real_time (process_step_event-Follows e g)
        t)

pub process_steps-Nearer :
    (es : List StepEvent) (g : GameEngine) → Nearer g.real_time (process_steps es g).real_time
unfolding process_steps
process_steps-Nearer [] g = (refl, refl, omega arith)
process_steps-Nearer (e ∷ es) g =
    let g' = process_step_event e g in
    Nearer-trans g.real_time g'.real_time (process_steps es g').real_time
      (Outcome-Nearer e.piece g.heap g'.heap g.real_time g'.real_time
        (process_step_event-Follows e g))
      (process_steps-Nearer es g')

-- The first event is that of a due motion, and is not lost.
pub process_steps-behind :
    (e : StepEvent) (es : List StepEvent) (g : GameEngine)
    → Timed g.heap g.real_time
    → is_moving (g.heap e.piece).state ≡ true
    → HasDue (current_time g) g.real_time.active_motions e.piece
    → behind (process_steps (e ∷ es) g).real_time < behind g.real_time
unfolding process_steps
process_steps-behind e es g t mv d =
    let g' = process_step_event e g in
    omega (
      arith,
      (process_steps-Nearer es g').2,
      Outcome-behind e.piece g.heap g'.heap g.real_time g'.real_time
          (process_step_event-Follows e g) t mv d,
    )

-- A change of a piece that does not move is no change of a motion's piece.
pub AllMoving-other :
    (r : Ref) (h h' : Heap) (ms : List Motion)
    → is_moving (h r).state ≡ false
    → SameBut r h h'
    → AllMoving h ms
    → AllMoving h' ms
AllMoving-other r h h' [] n s a = a
AllMoving-other r h h' (m ∷ ms) n s a = elim (Bool-cases (m.piece == r)) [
  | inl e ↦ absurd (ground (arith, ==_iff m.piece r))
  | inr e ↦ (rw (s m.piece e) a.0, AllMoving-other r h h' ms n s a.1)
]

rest_landed-effect :
    (load : PieceConfigReader) (e : JumpLandingEvent) (g : GameEngine)
    → SameBut e.piece g.heap (rest_landed load e g).heap
      × ((rest_landed load e g).real_time ≡ g.real_time)
unfolding rest_landed
rest_landed-effect load e g = (λ q n. ground arith, refl)

land-effect :
    (load : PieceConfigReader) (e : JumpLandingEvent) (g : GameEngine)
    → SameBut e.piece g.heap (land load e g).heap × ((land load e g).real_time ≡ g.real_time)
unfolding land
land-effect load e g =
    let rested = rest_landed load e g in
    let entry = jump_entry e (rested.heap e.piece) in
    let f = push_history-Frame entry rested in
    let f' = publish_move_completed-Frame entry false pawn black (push_history entry rested) in
    let r = rest_landed-effect load e g in
    (λ q n. ap (λ h. h q) (f'.0 ∙ f.0) ∙ r.0 q n, f'.1 ∙ f.1 ∙ r.1)

-- A landing leaves the motions as they are.
landing-Timed :
    (load : PieceConfigReader) (e : JumpLandingEvent) (g : GameEngine)
    → Timed g.heap g.real_time
    → Timed (process_jump_landing load e g).heap (process_jump_landing load e g).real_time
      × ((process_jump_landing load e g).real_time ≡ g.real_time)
unfolding process_jump_landing
landing-Timed load e g t = elim (Bool-cases (is_airborne (g.heap e.piece).state)) [
  | inr a ↦ rw a (t, refl)
  | inl a ↦ rw a (elim (Bool-cases (holds (get_piece_at g.board e.cell) e.piece)) [
    | inr b ↦ rw b (t, refl)
    | inl b ↦ rw b (
        let (s, r) = land-effect load e g in
        (
          rw r (
            AllMoving-other e.piece g.heap (land load e g).heap g.real_time.active_motions
                (ground arith) s t.0,
            t.1,
            t.2,
          ),
          r,
        ))
  ])
]

pub process_landings-Timed :
    (load : PieceConfigReader) (es : List JumpLandingEvent) (g : GameEngine)
    → Timed g.heap g.real_time
    → Timed (process_landings load es g).heap (process_landings load es g).real_time
      × ((process_landings load es g).real_time ≡ g.real_time)
unfolding process_landings
process_landings-Timed load [] g t = (t, refl)
process_landings-Timed load (e ∷ es) g t =
    let g' = process_jump_landing load e g in
    let (t', r) = landing-Timed load e g t in
    let (t'', r') = process_landings-Timed load es g' t' in (t'', r' ∙ r)

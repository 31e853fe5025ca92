-- ===== src/Engine/Runs.antt =====
-- Any sequence of calls of the engine: moves, jumps and waiting, whatever they answer.
use ctd_tamar.Common.{ℕ, ◌+◌, ℤ, pos, negsuc, ◌≡◌, inl, inr, Bool, true, List, [], ◌∷◌, arith}
use ctd_tamar.Core.Position.{Position}
use ctd_tamar.Core.Piece.{is_idle, airborne, set_state}
use ctd_tamar.Core.Results.{MoveResult}
use ctd_tamar.Core.Board.{Ref, Heap, Board, modify}
use ctd_tamar.Realtime.Arbiter.{start_jump}
use ctd_tamar.Engine.State.{GameEngine, PieceConfigReader, new, current_time}
use ctd_tamar.Engine.Steps.{wait}
use ctd_tamar.Engine.Requests.{request_move, begin_jump, request_jump}
use ctd_tamar.Engine.Frame.{modify-SameBut}
use ctd_tamar.Engine.Progress.{Timed}
use ctd_tamar.Engine.Settles.{AllMoving-other}
use ctd_tamar.Engine.Accepts.{
  MoveEnds, refuses, castled, moved, IsFree, request_move-ends, request_jump-ends,
}
use ctd_tamar.Engine.Invariant.{start_move-Timed, start_castle-Timed, can_castle-pieces, idle→still}
use ctd_tamar.Engine.Wait.{wait-Done, Done}

pub data Call : Type 0 where
  moves : Position → Position → Call
  jumps : Position → Call
  waits : ℤ → Call

unfoldable pub step : PieceConfigReader → Call → GameEngine → GameEngine
step load (moves s d) g = (request_move load s d g).0
step load (jumps cell) g = (request_jump load cell g).0
step load (waits ms) g = wait load ms g

unfoldable pub run : PieceConfigReader → List Call → GameEngine → GameEngine
run load [] g = g
run load (c ∷ cs) g = run load cs (step load c g)

begin_jump-Timed :
    (load : PieceConfigReader) (r : Ref) (cell : Position) (g : GameEngine)
    → is_idle (g.heap r).state ≡ true
    → Timed g.heap g.real_time
    → let g' = begin_jump load r cell g in Timed g'.heap g'.real_time
unfolding begin_jump start_jump
begin_jump-Timed load r cell g i t = (
  AllMoving-other r g.heap (modify r (set_state airborne) g.heap) g.real_time.active_motions
      (idle→still (g.heap r) i) (modify-SameBut r (set_state airborne) g.heap) t.0,
  t.1,
  t.2,
)

MoveEnds-Timed :
    (load : PieceConfigReader) (r : Ref) (s d : Position) (g : GameEngine)
    → IsFree g s r
    → (out : GameEngine × MoveResult) → MoveEnds load r s d g out
    → Timed g.heap g.real_time
    → Timed out.0.heap out.0.real_time
MoveEnds-Timed load r s d g f out (refuses w e) t = rw e t
MoveEnds-Timed load r s d g f out (castled c q e y p) t =
    let pieces = can_castle-pieces g s d e in
    rw p (start_castle-Timed load s c g (ground (arith, pieces)) pieces t)
MoveEnds-Timed load r s d g f out (moved q v y p) t = rw p (start_move-Timed load r s d g f.3 t)

-- Every call keeps the motions in order.
pub step-Timed :
    (load : PieceConfigReader) (c : Call) (g : GameEngine)
    → Timed g.heap g.real_time
    → let g' = step load c g in Timed g'.heap g'.real_time
unfolding step
step-Timed load (moves s d) g t = elim (request_move-ends load s d g) [
  | inl (w, e) ↦ rw e t
  | inr (r, f, b, m) ↦ MoveEnds-Timed load r s d g f (request_move load s d g) m t
]
step-Timed load (jumps cell) g t = elim (request_jump-ends load cell g) [
  | inl (w, e) ↦ rw e t
  | inr (r, f, y, e) ↦ rw e (begin_jump-Timed load r cell g f.3 t)
]
step-Timed load (waits (pos n)) g t = (wait-Done load n g t).1.0
step-Timed load (waits (negsuc n)) g t = unfold wait in t

run-Timed :
    (load : PieceConfigReader) (cs : List Call) (g : GameEngine)
    → Timed g.heap g.real_time
    → let g' = run load cs g in Timed g'.heap g'.real_time
unfolding run
run-Timed load [] g t = t
run-Timed load (c ∷ cs) g t = run-Timed load cs (step load c g) (step-Timed load c g t)

-- After any sequence of calls on a new game, every motion is that of a moving piece, no piece has
-- two motions and every motion makes progress; so a further wait of any length returns from its
-- loop, at the time asked for, with no step and no landing due.
pub run-new-wait :
    (load : PieceConfigReader) (h : Heap) (b : Board) (bus : Bool) (cs : List Call) (n : ℕ)
    → let g = run load cs (new h b bus) in
      Timed g.heap g.real_time
      × Done (wait load (pos n) g)
      × (current_time (wait load (pos n) g) ≡ current_time g + n)
unfolding new
run-new-wait load h b bus cs n =
    let g = run load cs (new h b bus) in
    let t = run-Timed load cs (new h b bus) (tt, tt, tt) in
    (t, (wait-Done load n g t).1, (wait-Done load n g t).2)

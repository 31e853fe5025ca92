-- ===== src/Engine/Endings.antt =====
-- The ways in which GameEngine::processStepEvent can end.
use ctd_tamar.Common.{◌≡◌, ◌≢◌, ◌⊎◌, true, false, some, All}
use ctd_tamar.Core.Position.{Position}
use ctd_tamar.Core.Piece.{moving, idle, airborne, captured}
use ctd_tamar.Core.Board.{Ref, Heap, is_inside, get_piece_at}
use ctd_tamar.Realtime.Arbiter.{
  Motion, RealTimeArbiter, StepEvent, cancel_motion, update_motion_cell,
}
use ctd_tamar.Engine.State.{GameEngine, PendingCastle, update_real_time}
use ctd_tamar.Engine.Frame.{SameBut}
use ctd_tamar.Engine.Standing.{standing_of, after_capture}
use ctd_tamar.Engine.Meeting.{Exists, Meets, Nobody}

-- The piece is the king or the rook of a castle.
abbrev pub Castles : Ref → PendingCastle → Type 0
Castles r c = (r ≡ c.king) ⊎ (r ≡ c.rook)

-- The piece moves, in no castle that is pending, and with a motion.
abbrev pub IsUnderway : Ref → GameEngine → Type 0
IsUnderway r g =
    ((g.heap r).state ≡ moving)
    × All (λ (c : PendingCastle). ¬ Castles r c) g.pending_castles
    × Exists (λ (m : Motion). m.piece ≡ r) g.real_time.active_motions

-- No piece but these two changes.
abbrev pub SameButTwo : Ref → Ref → Heap → Heap → Type 0
SameButTwo r t h h' = (q : Ref) → q ≢ r → q ≢ t → h' q ≡ h q

-- The piece is idle again, without a motion, and on a cell if that is one of the board.
abbrev pub Stops : Ref → Position → RealTimeArbiter → GameEngine → GameEngine → Type 0
Stops r cell a g g' =
    ((g'.heap r).state ≡ idle)
    × SameBut r g.heap g'.heap
    × (g'.real_time ≡ cancel_motion r a)
    × (standing_of g' ≡ standing_of g)
    × ((is_inside g.board cell ≡ false) ⊎ (get_piece_at g'.board cell ≡ some r))

-- A step goes off the board, or to a piece of the mover's own colour.
abbrev pub IsBlocked : StepEvent → GameEngine → Type 0
IsBlocked e g =
    (is_inside g.board e.to ≡ false)
    ⊎ ((t : Ref) × Meets g e.to e.piece t × ((g.heap t).color ≡ (g.heap e.piece).color))

-- A piece of the other colour is met on a cell of the board.
abbrev pub Faces : StepEvent → GameEngine → Ref → Type 0
Faces e g t =
    (is_inside g.board e.to ≡ true)
    × Meets g e.to e.piece t
    × ((g.heap t).color ≢ (g.heap e.piece).color)

pub data Ends (e : StepEvent) (g : GameEngine) : GameEngine → Type 0 where
  still : (g.heap e.piece).state ≢ moving → Ends e g g
  castled :
      {g' : GameEngine} (c : PendingCastle)
      → (g.heap e.piece).state ≡ moving
      → Exists (λ (d : PendingCastle). d ≡ c) g.pending_castles
      → Castles e.piece c
      → (g'.heap c.king).state ≡ idle
      → (g'.heap c.rook).state ≡ idle
      → SameButTwo c.king c.rook g.heap g'.heap
      → g'.real_time ≡ cancel_motion c.rook (cancel_motion c.king g.real_time)
      → Ends e g g'
  motionless :
      (g.heap e.piece).state ≡ moving
      → All (λ (m : Motion). m.piece ≢ e.piece) g.real_time.active_motions
      → Ends e g g
  blocked :
      {g' : GameEngine}
      → IsUnderway e.piece g
      → IsBlocked e g
      → Stops e.piece e.from g.real_time g g'
      → Ends e g g'
  steps :
      IsUnderway e.piece g
      → is_inside g.board e.to ≡ true
      → Nobody g e.to e.piece
      → e.reached_destination ≡ false
      → Ends e g (update_real_time (update_motion_cell e.piece e.to) g)
  arrives :
      {g' : GameEngine}
      → IsUnderway e.piece g
      → is_inside g.board e.to ≡ true
      → Nobody g e.to e.piece
      → e.reached_destination ≡ true
      → Stops e.piece e.to (update_motion_cell e.piece e.to g.real_time) g g'
      → Ends e g g'
  is_taken :
      {g' : GameEngine} (t : Ref)
      → IsUnderway e.piece g
      → Faces e g t
      → (g.heap t).state ≡ airborne
      → (g'.heap e.piece).state ≡ captured
      → SameBut e.piece g.heap g'.heap
      → g'.real_time ≡ cancel_motion e.piece g.real_time
      → standing_of g' ≡ after_capture (g.heap t).color (g.heap e.piece).kind (standing_of g)
      → Ends e g g'
  takes :
      {g' : GameEngine} (t : Ref)
      → IsUnderway e.piece g
      → Faces e g t
      → (g.heap t).state ≢ airborne
      → (g'.heap t).state ≡ captured
      → (g'.heap e.piece).state ≡ idle
      → SameButTwo t e.piece g.heap g'.heap
      → get_piece_at g'.board e.to ≡ some e.piece
      → g'.real_time
        ≡ cancel_motion e.piece (update_motion_cell e.piece e.to (cancel_motion t g.real_time))
      → standing_of g' ≡ after_capture (g.heap e.piece).color (g.heap t).kind (standing_of g)
      → Ends e g g'

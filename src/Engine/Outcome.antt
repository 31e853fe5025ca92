-- ===== src/Engine/Outcome.antt =====
-- The ways in which GameEngine::processStepEvent leaves the pieces and the motions.
use ctd_tamar.Common.{
  ◌≡◌, refl, ◌⊎◌, inl, inr, true, false, not, Option, some, none, List, [], ◌∷◌, ◌==◌, ◌&&◌, arith,
  Bool-cases, Option-cases, find?,
}
use ctd_tamar.Core.Position.{Position}
use ctd_tamar.Core.Piece.{is_moving, is_airborne, color_eq, pawn, black}
use ctd_tamar.Core.Board.{Ref, Heap, is_inside}
use ctd_tamar.Realtime.Arbiter.{
  Motion, RealTimeArbiter, StepEvent, cancel_motion, update_motion_cell,
}
use ctd_tamar.Realtime.Motions.{belongs}
use ctd_tamar.Engine.State.{GameEngine, PendingCastle}
use ctd_tamar.Engine.Cells.{find_piece_at_real_or_virtual_cell}
use ctd_tamar.Engine.Castling.{take_castle, castle_result, complete_castle_for}
use ctd_tamar.Engine.Steps.{
  stops_short, steps_on, meets, step_motion, motion_step, process_step_event,
}
use ctd_tamar.Engine.Frame.{SameBut}
use ctd_tamar.Engine.Effects.{
  stop-real_time, stop-SameBut, steps_on-cases, captured_by_jumper-effect, captures-effect,
  complete_castle-effect,
}

pub data Outcome (r : Ref) (h : Heap) (a : RealTimeArbiter) (h' : Heap) (a' : RealTimeArbiter)
    : Type 0 where
  -- The piece no longer moves, or has no motion.
  stale :
      (is_moving (h r).state ≡ false) ⊎ (find? (belongs r) a.active_motions ≡ none)
      → h' ≡ h
      → a' ≡ a
      → Outcome r h a h' a'
  stops : SameBut r h h' → a' ≡ cancel_motion r a → Outcome r h a h' a'
  steps : (cell : Position) → h' ≡ h → a' ≡ update_motion_cell r cell a → Outcome r h a h' a'
  arrives :
      (cell : Position)
      → SameBut r h h'
      → a' ≡ cancel_motion r (update_motion_cell r cell a)
      → Outcome r h a h' a'
  takes :
      (cell : Position) (target : Ref) (h1 : Heap)
      → SameBut target h h1
      → SameBut r h1 h'
      → a' ≡ cancel_motion r (update_motion_cell r cell (cancel_motion target a))
      → Outcome r h a h' a'
  castles :
      (k q : Ref) (h1 : Heap)
      → ((r == k) ≡ true) ⊎ ((r == q) ≡ true)
      → SameBut k h h1
      → SameBut q h1 h'
      → a' ≡ cancel_motion q (cancel_motion k a)
      → Outcome r h a h' a'

-- How one engine state follows another.
abbrev pub Follows : Ref → GameEngine → GameEngine → Type 0
Follows r g g' = Outcome r g.heap g.real_time g'.heap g'.real_time

stops_short-Follows :
    (r : Ref) (s : Position) (e : StepEvent) (g : GameEngine) → Follows r g (stops_short r s e g)
stops_short-Follows r s e g =
    stops (stop-SameBut r s e.from e.event_time_ms false pawn black g)
      (stop-real_time r s e.from e.event_time_ms false pawn black g)

steps_on-Follows :
    (r : Ref) (s : Position) (e : StepEvent) (g : GameEngine) → Follows r g (steps_on r s e g)
steps_on-Follows r s e g = elim (steps_on-cases r s e g) [
  | inl (p, q) ↦ steps e.to p q
  | inr (p, q) ↦ arrives e.to p q
]

meets-Follows :
    (r target : Ref) (s : Position) (e : StepEvent) (g : GameEngine)
    → Follows r g (meets r target s e g)
unfolding meets
meets-Follows r target s e g = elim (Bool-cases (color_eq (g.heap target).color (g.heap r).color)) [
  | inl c ↦ rw c (stops_short-Follows r s e g)
  | inr c ↦ rw c (elim (Bool-cases (is_airborne (g.heap target).state)) [
    | inl a ↦ rw a (let (p, q) = captured_by_jumper-effect r target g in stops p q)
    | inr a ↦
        rw a (let (h1, p, q, t) = captures-effect r target s e g in takes e.to target h1 p q t)
  ])
]

step_motion-Follows :
    (r : Ref) (m : Motion) (e : StepEvent) (g : GameEngine) → Follows r g (step_motion r m e g)
unfolding step_motion
step_motion-Follows r m e g = elim (Bool-cases (is_inside g.board e.to)) [
  | inr b ↦ rw b (stops_short-Follows r m.source e g)
  | inl b ↦ rw b (elim (Option-cases (find_piece_at_real_or_virtual_cell g e.to r)) [
    | inl n ↦ rw (n, step_motion) (steps_on-Follows r m.source e g)
    | inr (t, f) ↦ rw (f, step_motion) (meets-Follows r t m.source e g)
  ])
]

motion_step-Follows : (e : StepEvent) (g : GameEngine) → Follows e.piece g (motion_step e g)
unfolding motion_step
motion_step-Follows e g = elim (Option-cases (find? (belongs e.piece) g.real_time.active_motions)) [
  | inl n ↦ rw (n, motion_step) (stale (inr n) refl refl)
  | inr (m, f) ↦ rw (f, motion_step) (step_motion-Follows e.piece m e g)
]

-- The piece is the king or the rook of the castle.
abbrev IsOf : Ref → PendingCastle → Type 0
IsOf r c = ((r == c.king) ≡ true) ⊎ ((r == c.rook) ≡ true)

abbrev Hit : Ref → Option (PendingCastle × List PendingCastle) → Type 0
Hit r none = Unit {0}
Hit r (some (c, rest)) = IsOf r c

Hit-tail :
    (r : Ref) (d : PendingCastle) (o : Option (PendingCastle × List PendingCastle))
    → Hit r o
    → Hit r (elim o [ none ↦ none | some (c, rest) ↦ some (c, d ∷ rest) ])
Hit-tail r d none h = h
Hit-tail r d (some (c, rest)) h = h

-- The castle that is found is one of the piece's.
take_castle-Hit : (r : Ref) (cs : List PendingCastle) → Hit r (take_castle r cs)
unfolding take_castle
take_castle-Hit r [] = tt
take_castle-Hit r (d ∷ cs) = elim (Bool-cases (not (r == d.king) && not (r == d.rook))) [
  | inl e ↦ rw e (Hit-tail r d (take_castle r cs) (take_castle-Hit r cs))
  | inr e ↦ rw e (ground arith)
]

castle-Follows :
    (e : StepEvent) (g : GameEngine) (o : Option (PendingCastle × List PendingCastle))
    → Hit e.piece o
    → (cont : GameEngine) → Follows e.piece g cont
    → Follows e.piece g (elim (castle_result e g o) [ some done ↦ done | none ↦ cont ])
castle-Follows e g none h cont f = f
castle-Follows e g (some (c, rest)) h cont f =
    let (h1, p, q, t) = complete_castle-effect c e.event_time_ms g in
    castles c.king c.rook h1 h p q t

-- A step event changes the pieces and the motions in one of six ways: not at all, where its piece
-- no longer moves or has no motion; a stop; a step; an arrival; a capture; or the end of a castle.
-- In each of them only the pieces involved change and only their motions end.
pub process_step_event-Follows :
    (e : StepEvent) (g : GameEngine) → Follows e.piece g (process_step_event e g)
unfolding process_step_event complete_castle_for
process_step_event-Follows e g = elim (Bool-cases (is_moving (g.heap e.piece).state)) [
  | inr b ↦ rw b (stale (inl b) refl refl)
  | inl b ↦ rw b (
      castle-Follows e g (take_castle e.piece g.pending_castles)
        (take_castle-Hit e.piece g.pending_castles) (motion_step e g) (motion_step-Follows e g))
]

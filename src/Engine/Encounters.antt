-- ===== src/Engine/Encounters.antt =====
-- How GameEngine::processStepEvent ends: under which conditions, and with what effect.
use ctd_tamar.Common.{
  ◌≡◌, ◌≢◌, ◌⊎◌, inl, inr, refl, ◌∙◌, Bool, true, false, not, ◌&&◌, Option, none, some, List, [],
  ◌∷◌, ◌==◌, if◌then◌else◌, if-cases, find?, All, Bool-cases, Option-cases, arith,
}
use ctd_tamar.Core.Piece.{
  PieceState, moving, idle, airborne, captured, is_moving, is_airborne, color_eq, same_color,
  other_color, pawn, black,
}
use ctd_tamar.Core.Board.{Ref, Heap, is_inside, get_piece_at}
use ctd_tamar.Realtime.Arbiter.{Motion, StepEvent, update_motion_cell}
use ctd_tamar.Realtime.Motions.{belongs}
use ctd_tamar.Engine.State.{GameEngine, PendingCastle, update_real_time}
use ctd_tamar.Engine.Cells.{find_piece_at_real_or_virtual_cell}
use ctd_tamar.Engine.Castling.{take_castle, castle_result, complete_castle_for}
use ctd_tamar.Engine.Steps.{
  stops_short, steps_on, meets, captures, captured_by_jumper, step_motion, motion_step,
  process_step_event, stop_moving_piece_at,
}
use ctd_tamar.Engine.Frame.{SameBut}
use ctd_tamar.Engine.Effects.{
  stop-real_time, stop-SameBut, captured_by_jumper-effect, captures-effect, complete_castle-effect,
}
use ctd_tamar.Engine.Standing.{standing_of-stop_moving_piece_at}
use ctd_tamar.Engine.Scores.{captures_standing}
use ctd_tamar.Engine.Meeting.{
  Exists, Meets, Nobody, moving→eq, not_moving→ne, ==→eq, ==→ne, ne→==, found-Exists, not_found-All,
  find-Meets, find-Nobody,
}
use ctd_tamar.Engine.Stopped.{
  stop-idle, stop-shows, captured_by_jumper-state, captures-mover, captures-target, castle-idle,
}
use ctd_tamar.Engine.Endings.{
  Castles, IsUnderway, SameButTwo, IsBlocked, Faces, Ends, still, castled, motionless, blocked,
  steps, arrives, is_taken, takes,
}

airborne→eq : (s : PieceState) → is_airborne s ≡ true → s ≡ airborne
airborne→eq airborne h = refl
airborne→eq idle h = cc
airborne→eq moving h = cc
airborne→eq captured h = cc

not_airborne→ne : (s : PieceState) → is_airborne s ≡ false → s ≢ airborne
not_airborne→ne s h e = ground arith

two : (r t : Ref) {h h1 h' : Heap} → SameBut t h h1 → SameBut r h1 h' → SameButTwo t r h h'
two r t a b q n m = b q (ne→== q r m) ∙ a q (ne→== q t n)

module _ (e : StepEvent) (g : GameEngine) (m : Motion) (u : IsUnderway e.piece g) where
  abbrev r : Ref
  r = e.piece

  stops_short-Ends : IsBlocked e g → Ends e g (stops_short r m.source e g)
  stops_short-Ends b =
      let on : (is_inside g.board e.from ≡ false)
          ⊎ (get_piece_at (stops_short r m.source e g).board e.from ≡ some r) =
        elim (Bool-cases (is_inside g.board e.from)) [
          | inl i ↦ inr (stop-shows r m.source e.from e.event_time_ms false pawn black g i)
          | inr o ↦ inl o
        ] in
      blocked u b (
        stop-idle r m.source e.from e.event_time_ms false pawn black g,
        stop-SameBut r m.source e.from e.event_time_ms false pawn black g,
        stop-real_time r m.source e.from e.event_time_ms false pawn black g,
        standing_of-stop_moving_piece_at r m.source e.from e.event_time_ms false pawn black g,
        on,
      )

  steps_on-Ends :
      is_inside g.board e.to ≡ true → Nobody g e.to r → Ends e g (steps_on r m.source e g)
  unfolding steps_on
  steps_on-Ends i n =
      let moved = update_real_time (update_motion_cell r e.to) g in
      let stopped = stop_moving_piece_at r m.source e.to e.event_time_ms false pawn black moved in
      if-cases (Ends e g) e.reached_destination stopped moved
        (λ b. arrives u i n b (
          stop-idle r m.source e.to e.event_time_ms false pawn black moved,
          stop-SameBut r m.source e.to e.event_time_ms false pawn black moved,
          stop-real_time r m.source e.to e.event_time_ms false pawn black moved,
          standing_of-stop_moving_piece_at r m.source e.to e.event_time_ms false pawn black moved,
          inr (stop-shows r m.source e.to e.event_time_ms false pawn black moved i),
        ))
        (λ b. steps u i n b)

  captured_by_jumper-Ends :
      (t : Ref) → Faces e g t → (g.heap t).state ≡ airborne → Ends e g (captured_by_jumper r t g)
  captured_by_jumper-Ends t f a =
      let (p, q) = captured_by_jumper-effect r t g in
      is_taken t u f a (captured_by_jumper-state r t g) p q (captures_standing r t m.source e g).1

  captures-Ends :
      (t : Ref) → Faces e g t → (g.heap t).state ≢ airborne → Ends e g (captures r t m.source e g)
  captures-Ends t f a =
      let (h1, p, q, x) = captures-effect r t m.source e g in
      let mover = captures-mover r t m.source e g f.0 in
      takes t u f a (captures-target r t m.source e g (ne→== t r f.1.0)) mover.0 (two r t p q)
        mover.1 x (captures_standing r t m.source e g).0

  meets-Ends :
      (t : Ref)
      → is_inside g.board e.to ≡ true
      → Meets g e.to r t
      → Ends e g (meets r t m.source e g)
  unfolding meets
  meets-Ends t i w =
      let jumper = captured_by_jumper r t g in
      let taken = captures r t m.source e g in
      if-cases (Ends e g) (color_eq (g.heap t).color (g.heap r).color) (stops_short r m.source e g)
        (if is_airborne (g.heap t).state then jumper else taken)
        (λ c. stops_short-Ends (inr (t, w, same_color _ _ c)))
        (λ c.
          let f : Faces e g t = (i, w, other_color _ _ c) in
          if-cases (Ends e g) (is_airborne (g.heap t).state) jumper taken
            (λ a. captured_by_jumper-Ends t f (airborne→eq _ a))
            (λ a. captures-Ends t f (not_airborne→ne _ a)))

  found-Ends :
      (o : Option Ref)
      → find_piece_at_real_or_virtual_cell g e.to r ≡ o
      → is_inside g.board e.to ≡ true
      → Ends e g
          (elim o [ none ↦ steps_on r m.source e g | some target ↦ meets r target m.source e g ])
  found-Ends none h i = steps_on-Ends i (find-Nobody g e.to r h)
  found-Ends (some t) h i = meets-Ends t i (find-Meets g e.to r h)

  step_motion-Ends : Ends e g (step_motion r m e g)
  unfolding step_motion
  step_motion-Ends =
      if-cases (Ends e g) (not (is_inside g.board e.to)) (stops_short r m.source e g) _
        (λ b. stops_short-Ends (inl (ground arith)))
        (λ b. found-Ends (find_piece_at_real_or_virtual_cell g e.to r) refl (ground arith))

motion_step-Ends :
    (e : StepEvent) (g : GameEngine)
    → (g.heap e.piece).state ≡ moving
    → All (λ (c : PendingCastle). ¬ Castles e.piece c) g.pending_castles
    → Ends e g (motion_step e g)
unfolding motion_step
motion_step-Ends e g mv free =
    let ms = g.real_time.active_motions in
    let own : Motion → Bool = belongs e.piece in
    elim (Option-cases (find? own ms)) [
      | inl n ↦
          let none_left =
            not_found-All (λ (m : Motion). m.piece ≢ e.piece) own ms
              (λ m b. ==→ne m.piece e.piece b) n in
          rw (n, motion_step) (motionless mv none_left)
      | inr (m, f) ↦
          let found =
            found-Exists (λ (m : Motion). m.piece ≡ e.piece) own ms {x = m}
              (λ m b _. ==→eq m.piece e.piece b) f in
          rw (f, motion_step) (step_motion-Ends e g m (mv, free, found))
    ]

-- The castle that is found waits, and is one of the piece's; none is found if the piece is in none.
abbrev Taken : Ref → List PendingCastle → Option (PendingCastle × List PendingCastle) → Type 0
Taken r cs none = All (λ (c : PendingCastle). ¬ Castles r c) cs
Taken r cs (some (c, rest)) = Exists (λ (d : PendingCastle). d ≡ c) cs × Castles r c

in_castle :
    (r : Ref) (c : PendingCastle) → (not (r == c.king) && not (r == c.rook)) ≡ false → Castles r c
in_castle r c h = elim (Bool-cases (r == c.king)) [
  | inl k ↦ inl (==→eq r c.king k)
  | inr k ↦ inr (==→eq r c.rook (ground arith))
]

in_no_castle :
    (r : Ref) (c : PendingCastle) → (not (r == c.king) && not (r == c.rook)) ≡ true → ¬ Castles r c
in_no_castle r c h (inl k) = ==→ne r c.king (ground arith) k
in_no_castle r c h (inr k) = ==→ne r c.rook (ground arith) k

Taken-tail :
    (r : Ref) (d : PendingCastle) (cs : List PendingCastle)
    (o : Option (PendingCastle × List PendingCastle))
    → ¬ Castles r d
    → Taken r cs o
    → Taken r (d ∷ cs) (elim o [ none ↦ none | some (c, rest) ↦ some (c, d ∷ rest) ])
Taken-tail r d cs none n h = (n, h)
Taken-tail r d cs (some (c, rest)) n h = (inr h.0, h.1)

take_castle-Taken : (r : Ref) (cs : List PendingCastle) → Taken r cs (take_castle r cs)
unfolding take_castle
take_castle-Taken r [] = tt
take_castle-Taken r (d ∷ cs) =
    let tail = take_castle r cs in
    if-cases (Taken r (d ∷ cs)) (not (r == d.king) && not (r == d.rook)) _ (some (d, cs))
      (λ b. Taken-tail r d cs tail (in_no_castle r d b) (take_castle-Taken r cs))
      (λ b. (inl refl, in_castle r d b))

castle-Ends :
    (e : StepEvent) (g : GameEngine) (o : Option (PendingCastle × List PendingCastle))
    → (g.heap e.piece).state ≡ moving
    → Taken e.piece g.pending_castles o
    → Ends e g (elim (castle_result e g o) [ some done ↦ done | none ↦ motion_step e g ])
castle-Ends e g none mv free = motion_step-Ends e g mv free
castle-Ends e g (some (c, rest)) mv (waits, own) =
    let (h1, p, q, x) = complete_castle-effect c e.event_time_ms g in
    let (king_idle, rook_idle) = castle-idle c e.event_time_ms g in
    castled c mv waits own king_idle rook_idle (two c.rook c.king p q) x

-- What a step event does. Nothing, where its piece does not move; else, where a pending castle is
-- the piece's, king and rook of that castle are idle and without motions; and nothing, where it is
-- in no castle and has no motion. With a motion, the piece stops on the cell it comes from, idle and
-- without scoring, if the next cell is off the board or a piece of its colour is met there; that
-- cell shows it, if it is one of the board. If nobody is there, it goes on, or arrives idle and is
-- shown on the cell, without scoring. A piece of the other colour that jumps captures it: it is
-- captured, without a motion, and the jumper's colour scores. Any other piece of the other colour it
-- captures, stops idle on the cell and scores. No other piece changes in any of these cases, and no
-- other motion ends.
pub process_step_event-Ends : (e : StepEvent) (g : GameEngine) → Ends e g (process_step_event e g)
unfolding process_step_event complete_castle_for
process_step_event-Ends e g = elim (Bool-cases (is_moving (g.heap e.piece).state)) [
  | inr b ↦ rw b (still (not_moving→ne _ b))
  | inl b ↦ rw b (
      castle-Ends e g (take_castle e.piece g.pending_castles) (moving→eq _ b)
        (take_castle-Taken e.piece g.pending_castles))
]

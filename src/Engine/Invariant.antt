-- ===== src/Engine/Invariant.antt =====
-- Requests of GameEngine.cpp start motions of free pieces only, so the motions stay in order under
-- any sequence of calls.
use ctd_tamar.Common.{
  ◌<◌, ℤ, ◌≡◌, refl, inl, inr, Bool, true, false, some, List, [], ◌∷◌, ◌++◌, All, All-append, ◌==◌,
  ==_iff, arith, Bool-cases, Option-cases,
}
use ctd_tamar.Core.Position.{Position}
use ctd_tamar.Core.Piece.{
  Piece, is_moving, is_idle, is_king, is_rook, moving, set_state, mark_as_moved, token,
}
use ctd_tamar.Core.Board.{Ref, Heap, modify, get_piece_at}
use ctd_tamar.Realtime.Arbiter.{Motion, start_motion}
use ctd_tamar.Realtime.Motions.{belongs, AllMoving, Distinct}
use ctd_tamar.Engine.State.{GameEngine, PendingCastle, PieceConfigReader, update_piece, move}
use ctd_tamar.Engine.Castling.{can_castle, castle_with, rook_source_of, home_row}
use ctd_tamar.Engine.Requests.{begin_motion, castle_duration, start_castle, start_move}
use ctd_tamar.Engine.Frame.{modify-SameBut}
use ctd_tamar.Engine.Progress.{Timed}
use ctd_tamar.Engine.Settles.{AllMoving-other}

-- A piece that does not move has no motion.
no_motion :
    (r : Ref) (h : Heap) (ms : List Motion)
    → is_moving (h r).state ≡ false
    → AllMoving h ms
    → All (λ m. (m.piece == r) ≡ false) ms
no_motion r h [] n a = tt
no_motion r h (m ∷ ms) n a = elim (Bool-cases (m.piece == r)) [
  | inl e ↦ absurd (ground (arith, ==_iff m.piece r))
  | inr e ↦ (e, no_motion r h ms n a.1)
]

Distinct-snoc :
    (m : Motion) (ms : List Motion)
    → All (λ k. (k.piece == m.piece) ≡ false) ms
    → Distinct ms
    → Distinct (ms ++ m ∷ [])
Distinct-snoc m [] a d = (tt, tt)
Distinct-snoc m (k ∷ ms) a d = (
  All-append (λ j. belongs k.piece j ≡ false) ms (m ∷ []) d.0 (ground arith, tt),
  Distinct-snoc m ms a.1 d.1,
)

begin_motion-Timed :
    (r : Ref) (s d : Position) (duration : ℤ) (force : Bool) (g : GameEngine)
    → is_moving (g.heap r).state ≡ false
    → Timed g.heap g.real_time
    → let g' = begin_motion r s d duration force g in Timed g'.heap g'.real_time
unfolding begin_motion start_motion
begin_motion-Timed r s d duration force g n t =
    let ms = g.real_time.active_motions in
    (
      All-append (λ m. is_moving (modify r (set_state moving) g.heap m.piece).state ≡ true) ms _
          (AllMoving-other r g.heap (modify r (set_state moving) g.heap) ms n
            (modify-SameBut r (set_state moving) g.heap) t.0)
          (ground arith, tt),
      All-append (λ m. 0 < m.step_duration_ms) ms _ t.1 (ground arith, tt),
      Distinct-snoc _ ms (no_motion r g.heap ms n t.0) t.2,
    )

pub AllMoving-same :
    (h h' : Heap) (ms : List Motion)
    → ((q : Ref) → is_moving (h' q).state ≡ is_moving (h q).state)
    → AllMoving h ms
    → AllMoving h' ms
AllMoving-same h h' [] same a = a
AllMoving-same h h' (m ∷ ms) same a = (rw (same m.piece) a.0, AllMoving-same h h' ms same a.1)

marked :
    (r q : Ref) (g : GameEngine)
    → let p = (update_piece r mark_as_moved g).heap q in
      (p.state ≡ (g.heap q).state) × (p.kind ≡ (g.heap q).kind)
unfolding update_piece
marked r q g = (ground (arith, ==_iff q r), ground (arith, ==_iff q r))

mark-Timed :
    (r : Ref) (g : GameEngine)
    → Timed g.heap g.real_time
    → let g' = update_piece r mark_as_moved g in Timed g'.heap g'.real_time
unfolding update_piece
mark-Timed r g t = (
  AllMoving-same g.heap (update_piece r mark_as_moved g).heap g.real_time.active_motions
      (λ q. rw (marked r q g).0 refl) t.0,
  t.1,
  t.2,
)

pub idle→still : (p : Piece) → is_idle p.state ≡ true → is_moving p.state ≡ false
idle→still p h = ground arith

pub start_move-Timed :
    (load : PieceConfigReader) (r : Ref) (s d : Position) (g : GameEngine)
    → is_idle (g.heap r).state ≡ true
    → Timed g.heap g.real_time
    → let g' = start_move load r s d g in Timed g'.heap g'.real_time
unfolding start_move
start_move-Timed load r s d g i t =
    begin_motion-Timed r s d (load (token (g.heap r)) move).move_time_per_cell_ms false
      (update_piece r mark_as_moved g) (rw (marked r r g).0 (idle→still (g.heap r) i))
      (mark-Timed r g t)

castle_with-pieces :
    (g : GameEngine) (s d : Position) (k r : Ref) {c : PendingCastle}
    → castle_with g s d k r ≡ some c
    → (c.king ≡ k)
      × (c.rook ≡ r)
      × (is_rook (g.heap r).kind ≡ true)
      × (is_idle (g.heap r).state ≡ true)
unfolding castle_with
castle_with-pieces g s d k r {c} e = ground arith

abbrev pub CastlePieces : GameEngine → Position → PendingCastle → Type 0
CastlePieces g s c =
    (get_piece_at g.board s ≡ some c.king)
    × (is_king (g.heap c.king).kind ≡ true)
    × (is_rook (g.heap c.rook).kind ≡ true)
    × (is_idle (g.heap c.rook).state ≡ true)

-- A castle is of the king on the source and another piece, an idle rook.
pub can_castle-pieces :
    (g : GameEngine) (s d : Position) {c : PendingCastle}
    → can_castle g s d ≡ some c
    → CastlePieces g s c
unfolding can_castle
can_castle-pieces g s d {c} e = elim (Option-cases (get_piece_at g.board s)) [
  | inl n ↦ absurd (ground arith)
  | inr (k, p) ↦
      elim (Option-cases (get_piece_at g.board (rook_source_of (home_row (g.heap k).color) s d))) [
        | inl n ↦ absurd (ground arith)
        | inr (r, q) ↦
            let f : castle_with g s d k r ≡ some c = ground arith in
            let (a, b, i, j) = castle_with-pieces g s d k r f in
            (rw a p, rw a (ground arith), rw b i, rw b j)
      ]
]

begin_motion-other :
    (r q : Ref) (s d : Position) (duration : ℤ) (force : Bool) (g : GameEngine)
    → (q == r) ≡ false
    → (begin_motion r s d duration force g).heap q ≡ g.heap q
unfolding begin_motion start_motion
begin_motion-other r q s d duration force g n = rw n refl

kings_no_rook : (p : Piece) → is_king p.kind ≡ true → is_rook p.kind ≡ false
kings_no_rook p h = ground arith

pub start_castle-Timed :
    (load : PieceConfigReader) (s : Position) (c : PendingCastle) (g : GameEngine)
    → is_idle (g.heap c.king).state ≡ true
    → CastlePieces g s c
    → Timed g.heap g.real_time
    → let g' = start_castle load c g in Timed g'.heap g'.real_time
unfolding start_castle
start_castle-Timed load s c g i (p, kk, kr, ir) t =
    let duration = castle_duration (load (token (g.heap c.king)) move).move_time_per_cell_ms in
    let g1 = update_piece c.king mark_as_moved g in
    let g2 = update_piece c.rook mark_as_moved g1 in
    let g3 = begin_motion c.king c.king_source c.king_destination duration true g2 in
    let t2 = mark-Timed c.rook g1 (mark-Timed c.king g t) in
    let ne : (c.rook == c.king) ≡ false =
      ground (arith, kings_no_rook (g.heap c.king) kk, ==_iff c.rook c.king) in
    let same_rook =
      begin_motion-other c.king c.rook c.king_source c.king_destination duration true g2 ne in
    let still_king : is_moving (g2.heap c.king).state ≡ false =
      rw ((marked c.rook c.king g1).0, (marked c.king c.king g).0) (idle→still (g.heap c.king) i) in
    let still_rook : is_moving (g3.heap c.rook).state ≡ false =
      rw (same_rook, (marked c.rook c.rook g1).0, (marked c.king c.rook g).0)
        (idle→still (g.heap c.rook) ir) in
    begin_motion-Timed c.rook c.rook_source c.rook_destination duration true g3 still_rook
      (begin_motion-Timed c.king c.king_source c.king_destination duration true g2 still_king t2)

-- ===== src/Engine/Progress.antt =====
-- Step events of GameEngine.cpp keep the motions in order and bring them closer to the clock.
use ctd_tamar.Common.{
  ℕ, ◌≤◌, ◌<◌, ◌≡◌, refl, ◌⊎◌, inl, inr, true, false, not, some, List, [], ◌∷◌, All-keep_if, ◌==◌,
  ==_iff, arith, Bool-cases, find?, keep_if, subst,
}
use ctd_tamar.Core.Position.{Position}
use ctd_tamar.Core.Piece.{is_moving}
use ctd_tamar.Core.Board.{Ref, Heap}
use ctd_tamar.Realtime.Arbiter.{Motion, RealTimeArbiter, cancel_motion, update_motion_cell}
use ctd_tamar.Realtime.Motions.{
  backlog, belongs, AllMoving, AllPositive, Distinct, keep_if-Distinct, update_first-All,
  update_first-Distinct, AllMoving-cancel, backlog-keep_if-le, backlog-cancel-lt,
  backlog-update_first-le, backlog-update_first-lt, HasDue,
}
use ctd_tamar.Engine.Frame.{SameBut}
use ctd_tamar.Engine.Outcome.{Outcome, stale, stops, steps, arrives, takes, castles}

-- Every motion in progress is that of a moving piece, no piece has two, and each makes progress.
abbrev pub Timed : Heap → RealTimeArbiter → Type 0
Timed h a = AllMoving h a.active_motions × AllPositive a.active_motions × Distinct a.active_motions

abbrev pub behind : RealTimeArbiter → ℕ
behind a = backlog a.current_time_ms a.active_motions

-- Clock and jumps are the same, and the motions are no further behind.
abbrev pub Nearer : RealTimeArbiter → RealTimeArbiter → Type 0
Nearer a a' =
    (a'.current_time_ms ≡ a.current_time_ms)
    × (a'.active_jumps ≡ a.active_jumps)
    × (behind a' ≤ behind a)

cancel-Timed :
    (r : Ref) (h h' : Heap) (a : RealTimeArbiter)
    → SameBut r h h'
    → Timed h a
    → Timed h' (cancel_motion r a)
unfolding cancel_motion
cancel-Timed r h h' a same t = (
  AllMoving-cancel r h h' a.active_motions same t.0,
  All-keep_if (λ m. 0 < m.step_duration_ms) (λ m. not (m.piece == r)) a.active_motions t.1,
  keep_if-Distinct (λ m. not (m.piece == r)) a.active_motions t.2,
)

update-Timed :
    (r : Ref) (cell : Position) (h : Heap) (a : RealTimeArbiter)
    → Timed h a
    → Timed h (update_motion_cell r cell a)
unfolding update_motion_cell
update-Timed r cell h a t = (
  update_first-All (λ q _. is_moving (h q).state ≡ true) r cell a.active_motions t.0,
  update_first-All (λ _ d. 0 < d) r cell a.active_motions t.1,
  update_first-Distinct r cell a.active_motions t.2,
)

cancel-Nearer : (r : Ref) (a : RealTimeArbiter) → Nearer a (cancel_motion r a)
unfolding cancel_motion
cancel-Nearer r a =
    (refl, refl, backlog-keep_if-le a.current_time_ms (λ m. not (m.piece == r)) a.active_motions)

update-Nearer :
    (r : Ref) (cell : Position) (a : RealTimeArbiter) → Nearer a (update_motion_cell r cell a)
unfolding update_motion_cell
update-Nearer r cell a =
    (refl, refl, backlog-update_first-le a.current_time_ms r cell a.active_motions)

pub Nearer-trans : (a b c : RealTimeArbiter) → Nearer a b → Nearer b c → Nearer a c
Nearer-trans a b c p q = (cc, cc, omega arith)

pub Outcome-Timed :
    (r : Ref) (h h' : Heap) (a a' : RealTimeArbiter) → Outcome r h a h' a' → Timed h a → Timed h' a'
Outcome-Timed r h h' a a' (stale w p q) t = rw (p, q) t
Outcome-Timed r h h' a a' (stops s q) t = rw q (cancel-Timed r h h' a s t)
Outcome-Timed r h h' a a' (steps cell p q) t = rw (p, q) (update-Timed r cell h a t)
Outcome-Timed r h h' a a' (arrives cell s q) t =
    rw q (cancel-Timed r h h' (update_motion_cell r cell a) s (update-Timed r cell h a t))
Outcome-Timed r h h' a a' (takes cell target h1 s1 s2 q) t =
    let cut = cancel_motion target a in
    rw q (
      cancel-Timed r h1 h' (update_motion_cell r cell cut) s2
        (update-Timed r cell h1 cut (cancel-Timed target h h1 a s1 t)))
Outcome-Timed r h h' a a' (castles k q h1 w s1 s2 e) t =
    rw e (cancel-Timed q h1 h' (cancel_motion k a) s2 (cancel-Timed k h h1 a s1 t))

pub Outcome-Nearer :
    (r : Ref) (h h' : Heap) (a a' : RealTimeArbiter) → Outcome r h a h' a' → Nearer a a'
Outcome-Nearer r h h' a a' (stale w p q) = rw q (refl, refl, omega arith)
Outcome-Nearer r h h' a a' (stops s q) = rw q (cancel-Nearer r a)
Outcome-Nearer r h h' a a' (steps cell p q) = rw q (update-Nearer r cell a)
Outcome-Nearer r h h' a a' (arrives cell s q) =
    let moved = update_motion_cell r cell a in
    rw q (
      Nearer-trans a moved (cancel_motion r moved) (update-Nearer r cell a) (cancel-Nearer r moved))
Outcome-Nearer r h h' a a' (takes cell target h1 s1 s2 q) =
    let cut = cancel_motion target a in
    let moved = update_motion_cell r cell cut in
    rw q (
      Nearer-trans a cut (cancel_motion r moved) (cancel-Nearer target a) (
        Nearer-trans cut moved (cancel_motion r moved) (update-Nearer r cell cut)
          (cancel-Nearer r moved)))
Outcome-Nearer r h h' a a' (castles k q h1 w s1 s2 e) =
    let cut = cancel_motion k a in
    rw e (Nearer-trans a cut (cancel_motion q cut) (cancel-Nearer k a) (cancel-Nearer q cut))

-- A motion of another piece is found as before.
find-cancel :
    (r t : Ref) (ms : List Motion) {m : Motion}
    → (r == t) ≡ false
    → find? (belongs r) ms ≡ some m
    → find? (belongs r) (keep_if (λ k. not (k.piece == t)) ms) ≡ some m
unfolding find? keep_if
find-cancel r t [] n e = cc
find-cancel r t (k ∷ ms) {m} n e = ground (arith, find-cancel r t ms {m = m})

cancel-behind :
    (r : Ref) (a : RealTimeArbiter) {m : Motion}
    → find? (belongs r) a.active_motions ≡ some m
    → behind (cancel_motion r a) < behind a
unfolding cancel_motion
cancel-behind r a f = backlog-cancel-lt a.current_time_ms r a.active_motions f

update-behind :
    (r : Ref) (cell : Position) (a : RealTimeArbiter)
    → AllPositive a.active_motions
    → HasDue a.current_time_ms a.active_motions r
    → behind (update_motion_cell r cell a) < behind a
unfolding update_motion_cell
update-behind r cell a p (m, f, d) =
    backlog-update_first-lt a.current_time_ms r cell a.active_motions f d p

HasDue-cancel :
    (r t : Ref) (a : RealTimeArbiter)
    → (r == t) ≡ false
    → HasDue a.current_time_ms a.active_motions r
    → HasDue (cancel_motion t a).current_time_ms (cancel_motion t a).active_motions r
unfolding cancel_motion
HasDue-cancel r t a n (m, f, d) = (m, find-cancel r t a.active_motions n f, d)

positive-cancel :
    (t : Ref) (a : RealTimeArbiter)
    → AllPositive a.active_motions
    → AllPositive (cancel_motion t a).active_motions
unfolding cancel_motion
positive-cancel t a p =
    All-keep_if (λ m. 0 < m.step_duration_ms) (λ m. not (m.piece == t)) a.active_motions p

cancel_other-behind :
    (r t : Ref) (a : RealTimeArbiter)
    → (r == t) ≡ true
    → HasDue a.current_time_ms a.active_motions r
    → behind (cancel_motion t a) < behind a
cancel_other-behind r t a e (m, f, d) =
    subst (λ k. behind (cancel_motion k a) < behind a) ((==_iff r t).0 e) (cancel-behind r a f)

cancel_both-behind :
    (r k q : Ref) (a : RealTimeArbiter)
    → ((r == k) ≡ true) ⊎ ((r == q) ≡ true)
    → HasDue a.current_time_ms a.active_motions r
    → behind (cancel_motion q (cancel_motion k a)) < behind a
cancel_both-behind r k q a w due =
    let cut = cancel_motion k a in
    elim (Bool-cases (r == k)) [
      | inl e ↦ omega (arith, cancel_other-behind r k a e due, (cancel-Nearer q cut).2)
      | inr e ↦ omega (
        arith,
        (cancel-Nearer k a).2,
        cancel_other-behind r q cut (ground arith) (HasDue-cancel r k a e due),
      )
    ]

-- A step whose motion is due brings the motions strictly closer to the clock.
pub Outcome-behind :
    (r : Ref) (h h' : Heap) (a a' : RealTimeArbiter)
    → Outcome r h a h' a'
    → Timed h a
    → is_moving (h r).state ≡ true
    → HasDue a.current_time_ms a.active_motions r
    → behind a' < behind a
Outcome-behind r h h' a a' (stale w p q) t mv (m, f, d) = absurd (ground arith)
Outcome-behind r h h' a a' (stops s q) t mv (m, f, d) = rw q (cancel-behind r a f)
Outcome-behind r h h' a a' (steps cell p q) t mv due = rw q (update-behind r cell a t.1 due)
Outcome-behind r h h' a a' (arrives cell s q) t mv due = rw q (
    omega
      (arith, update-behind r cell a t.1 due, (cancel-Nearer r (update_motion_cell r cell a)).2))
Outcome-behind r h h' a a' (takes cell target h1 s1 s2 q) t mv due =
    let cut = cancel_motion target a in
    let moved = update_motion_cell r cell cut in
    rw q (elim (Bool-cases (r == target)) [
      | inl e ↦ omega (
        arith,
        cancel_other-behind r target a e due,
        (update-Nearer r cell cut).2,
        (cancel-Nearer r moved).2,
      )
      | inr e ↦ omega (
        arith,
        (cancel-Nearer target a).2,
        update-behind r cell cut (positive-cancel target a t.1) (HasDue-cancel r target a e due),
        (cancel-Nearer r moved).2,
      )
    ])
Outcome-behind r h h' a a' (castles k q h1 w s1 s2 e) t mv due =
    rw e (cancel_both-behind r k q a w due)

-- ===== src/Realtime/Advance.antt =====
-- What RealTimeArbiter::advanceTime does to the clock, the motions and the jumps.
use mathlib.Core.List.{Perm}
use ctd_tamar.Common.{
  ◌≢◌, ◌⊎◌, inl, inr, true, false, Bool-cases, if-cases, ℕ, ◌+◌, ◌≤◌, ◌<◌, pos, ◌≡◌, refl, List, [],
  ◌∷◌, All, arith, length, keep_if, not,
}
use ctd_tamar.Core.Piece.{PieceState, moving, idle, airborne, captured, is_moving}
use ctd_tamar.Core.Board.{Heap}
use ctd_tamar.Realtime.Arbiter.{
  RealTimeArbiter, Jump, Motion, StepEvent, step_event, is_due, has_landed, due_steps, landings,
  advance_time,
}
use ctd_tamar.Realtime.Order.{IsSorted, sort-IsSorted, sort-perm}

landings-due : (now : ℕ) (js : List Jump) → All (λ e. e.event_time_ms ≤ now) (landings now js)
unfolding landings
landings-due now [] = tt
landings-due now (j ∷ js) = ground (arith, landings-due now js)

pub jumping-later :
    (now : ℕ) (js : List Jump)
    → All (λ j. now < j.finish_time_ms) (keep_if (λ j. not (has_landed now j)) js)
unfolding keep_if
jumping-later now [] = tt
jumping-later now (j ∷ js) = ground (arith, jumping-later now js)

-- A jump lands or goes on.
length-landings :
    (now : ℕ) (js : List Jump)
    → length (landings now js) + length (keep_if (λ j. not (has_landed now j)) js) ≡ length js
unfolding landings keep_if
length-landings now [] = omega arith
length-landings now (j ∷ js) = ground (arith, length-landings now js)

-- The steps that motions emit at a time: one for each motion of a moving piece whose next step is
-- not later, in the order of the motions.
pub data Emits (now : ℕ) (h : Heap) : List Motion → List StepEvent → Type 0 where
  emits_none : Emits now h [] []
  emits_step :
      {m : Motion} {ms : List Motion} {es : List StepEvent}
      → (h m.piece).state ≡ moving
      → m.next_step_time_ms ≤ now
      → Emits now h ms es
      → Emits now h (m ∷ ms) (step_event m ∷ es)
  emits_nothing :
      {m : Motion} {ms : List Motion} {es : List StepEvent}
      → ((h m.piece).state ≢ moving) ⊎ (now < m.next_step_time_ms)
      → Emits now h ms es
      → Emits now h (m ∷ ms) es

moves→eq : (s : PieceState) → is_moving s ≡ true → s ≡ moving
moves→eq moving h = refl
moves→eq idle h = cc
moves→eq airborne h = cc
moves→eq captured h = cc

not_due :
    (now : ℕ) (h : Heap) (m : Motion)
    → is_due now h m ≡ false
    → ((h m.piece).state ≢ moving) ⊎ (now < m.next_step_time_ms)
not_due now h m e = elim (Bool-cases (is_moving (h m.piece).state)) [
  | inl y ↦ inr (ground arith)
  | inr n ↦ inl (λ k. ground arith)
]

due_steps-Emits : (now : ℕ) (h : Heap) (ms : List Motion) → Emits now h ms (due_steps now h ms)
unfolding due_steps
due_steps-Emits now h [] = emits_none
due_steps-Emits now h (m ∷ ms) =
    let rest = due_steps now h ms in
    if-cases (Emits now h (m ∷ ms)) (is_due now h m) (step_event m ∷ rest) rest
      (λ e. emits_step (moves→eq _ (ground arith)) (ground arith) (due_steps-Emits now h ms))
      (λ e. emits_nothing (not_due now h m e) (due_steps-Emits now h ms))

keep-moving :
    (h : Heap) (ms : List Motion)
    → All
        (λ (m : Motion). (h m.piece).state ≡ moving)
        (keep_if (λ (m : Motion). is_moving (h m.piece).state) ms)
unfolding keep_if
keep-moving h [] = tt
keep-moving h (m ∷ ms) =
    let P = λ (m : Motion). (h m.piece).state ≡ moving in
    let rest = keep_if (λ (m : Motion). is_moving (h m.piece).state) ms in
    if-cases (All P) (is_moving (h m.piece).state) (m ∷ rest) rest
      (λ e. (moves→eq _ e, keep-moving h ms)) (λ _. keep-moving h ms)

-- Advancing by `n` moves the clock by `n` and emits in chronological order one step for each motion
-- of a moving piece whose next step is not later, and no other; only motions of moving pieces stay.
-- It lands only jumps whose time has come, keeps only jumps whose time has not, and
-- lands or keeps as many as there were.
pub advance_time_lem :
    (n : ℕ) (h : Heap) (a : RealTimeArbiter)
    → let now = a.current_time_ms + n in
      let (a', events) = advance_time (pos n) h a in
      (a'.current_time_ms ≡ now)
      × IsSorted events.steps
      × Perm events.steps (due_steps now h a.active_motions)
      × Emits now h a.active_motions (due_steps now h a.active_motions)
      × All (λ (m : Motion). (h m.piece).state ≡ moving) a'.active_motions
      × All (λ e. e.event_time_ms ≤ now) events.jump_landings
      × All (λ j. now < j.finish_time_ms) a'.active_jumps
      × (length events.jump_landings + length a'.active_jumps ≡ length a.active_jumps)
unfolding advance_time
advance_time_lem n h a =
    let now = a.current_time_ms + n in
    (
      refl,
      sort-IsSorted (due_steps now h a.active_motions),
      sort-perm (due_steps now h a.active_motions),
      due_steps-Emits now h a.active_motions,
      keep-moving h a.active_motions,
      landings-due now a.active_jumps,
      jumping-later now a.active_jumps,
      length-landings now a.active_jumps,
    )

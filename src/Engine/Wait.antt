-- ===== src/Engine/Wait.antt =====
-- GameEngine::wait returns: its loop ends within the fuel, with nothing left to do.
use native.Mathlib.Nat.{add-zero}
use ctd_tamar.Common.{
  ℕ, zero, suc, ◌+◌, ◌≤◌, ◌<◌, pos, ◌≡◌, ◌≢◌, refl, sym, ap, ◌∙◌, true, false, ◌&&◌, some, List, [],
  ◌∷◌, All, All-keep_if, arith, Bool-cases, inl, inr, is_empty_list, length,
}
use ctd_tamar.Core.Piece.{is_moving}
use ctd_tamar.Realtime.Arbiter.{
  Motion, Jump, StepEvent, JumpLandingEvent, TimeEvents, due_steps, sort, insert, landings,
  advance_time,
}
use ctd_tamar.Realtime.Motions.{
  keep_if-Distinct, keep_if-All, backlog-keep_if-le, HasDue, due_steps-All, due_steps-HasDue,
  sort-All,
}
use ctd_tamar.Realtime.Advance.{jumping-later}
use ctd_tamar.Engine.State.{GameEngine, PieceConfigReader, current_time}
use ctd_tamar.Engine.Steps.{
  process_steps, apply_time_events, advance, is_quiet, settle, rounds, wait,
}
use ctd_tamar.Engine.Progress.{Timed, behind}
use ctd_tamar.Engine.Settles.{
  Ready, process_steps-Timed, process_steps-Nearer, process_steps-behind, process_landings-Timed,
}

advance-Ready :
    (n : ℕ) (g : GameEngine)
    → Timed g.heap g.real_time
    → Ready (advance (pos n) g).0 (advance (pos n) g).1
unfolding advance advance_time
advance-Ready n g t =
    let moves = λ (m : Motion). is_moving (g.heap m.piece).state in
    let ms = g.real_time.active_motions in
    record {
      timed = (
        All-keep_if (λ m. moves m ≡ true) moves ms t.0,
        All-keep_if (λ m. 0 < m.step_duration_ms) moves ms t.1,
        keep_if-Distinct moves ms t.2,
      );
      due =
          ap (λ l. sort (due_steps (current_time g + n) g.heap l)) (sym (keep_if-All moves ms t.0));
      jumping = jumping-later (current_time g + n) g.real_time.active_jumps;
    }

-- Advancing moves the clock and drops no motion's delay.
advance-clock : (n : ℕ) (g : GameEngine) → current_time (advance (pos n) g).0 ≡ current_time g + n
unfolding advance advance_time
advance-clock n g = refl

advance-behind : (g : GameEngine) → behind (advance (pos 0) g).0.real_time ≤ behind g.real_time
unfolding advance advance_time
advance-behind g = rw (add-zero (current_time g)) (
    backlog-keep_if-le (current_time g) (λ m. is_moving (g.heap m.piece).state)
      g.real_time.active_motions)

landings-none :
    (now : ℕ) (js : List Jump) → All (λ j. now < j.finish_time_ms) js → landings now js ≡ []
unfolding landings
landings-none now [] a = refl
landings-none now (j ∷ js) a = ground (arith, landings-none now js a.1)

advance-landings :
    (g : GameEngine)
    → All (λ j. current_time g < j.finish_time_ms) g.real_time.active_jumps
    → (advance (pos 0) g).1.jump_landings ≡ []
unfolding advance advance_time
advance-landings g a =
    landings-none (current_time g + 0) g.real_time.active_jumps (rw (add-zero (current_time g)) a)

insert-ne-nil : (e : StepEvent) (es : List StepEvent) → insert e es ≢ []
unfolding insert
insert-ne-nil e [] = λ p. cc
insert-ne-nil e (x ∷ xs) = λ p. ground arith

sort-nil : (es : List StepEvent) → sort es ≡ [] → es ≡ []
unfolding sort
sort-nil [] p = refl
sort-nil (e ∷ es) p = absurd (insert-ne-nil e (sort es) p)

-- Nothing is due at the state's own time.
abbrev pub Done : GameEngine → Type 0
Done g =
    Timed g.heap g.real_time
    × (due_steps (current_time g) g.heap g.real_time.active_motions ≡ [])
    × All (λ j. current_time g < j.finish_time_ms) g.real_time.active_jumps

quiet-Done : (g : GameEngine) (ev : TimeEvents) → Ready g ev → is_quiet ev ≡ true → Done g
quiet-Done g ev r q =
    let none_left : ev.steps ≡ [] = nil_of ev.steps (ground arith) in
    (r.timed, sort-nil _ (sym r.due ∙ none_left), r.jumping)
  where
    nil_of : (es : List StepEvent) → is_empty_list es ≡ true → es ≡ []
    nil_of [] e = refl
    nil_of (x ∷ es) e = cc

apply-effect :
    (load : PieceConfigReader) (ev : TimeEvents) (g : GameEngine)
    → Timed g.heap g.real_time
    → let g' = apply_time_events load ev g in
      Timed g'.heap g'.real_time × (g'.real_time ≡ (process_steps ev.steps g).real_time)
unfolding apply_time_events
apply-effect load ev g t =
    process_landings-Timed load ev.jump_landings (process_steps ev.steps g)
      (process_steps-Timed ev.steps g t)

-- What is left to do before a round.
abbrev work : GameEngine → TimeEvents → ℕ
work g ev = behind g.real_time + length ev.jump_landings

steps-shrink :
    (es : List StepEvent) (ls : List JumpLandingEvent) (g : GameEngine)
    → Timed g.heap g.real_time
    → All (λ e. is_moving (g.heap e.piece).state ≡ true) es
    → All (λ e. HasDue (current_time g) g.real_time.active_motions e.piece) es
    → (is_empty_list es && is_empty_list ls) ≡ false
    → behind (process_steps es g).real_time < behind g.real_time + length ls
steps-shrink [] [] g t m d q = cc
steps-shrink [] (l ∷ ls) g t m d q = omega (arith, (process_steps-Nearer [] g).2)
steps-shrink (e ∷ es) ls g t m d q = omega (arith, process_steps-behind e es g t m.0 d.0)

-- A round that is not the last leaves less to do.
round-shrinks :
    (load : PieceConfigReader) (g : GameEngine) (ev : TimeEvents)
    → Ready g ev
    → is_quiet ev ≡ false
    → let (g', ev') = advance (pos 0) (apply_time_events load ev g) in
      Ready g' ev' × (work g' ev' < work g ev) × (current_time g' ≡ current_time g)
round-shrinks load g ev r q =
    let g1 = apply_time_events load ev g in
    let (t1, same) = apply-effect load ev g r.timed in
    let near = process_steps-Nearer ev.steps g in
    let now = current_time g in
    let ms = g.real_time.active_motions in
    let emitted = due_steps now g.heap ms in
    let later : All (λ j. current_time g1 < j.finish_time_ms) g1.real_time.active_jumps =
      rw (same, near.1, near.0) r.jumping in
    let mv : All (λ e. is_moving (g.heap e.piece).state ≡ true) ev.steps = rw r.due (
      sort-All (λ e. is_moving (g.heap e.piece).state ≡ true) emitted
        (due_steps-All (λ p. is_moving (g.heap p).state ≡ true) now g.heap ms r.timed.0)) in
    let due : All (λ e. HasDue now ms e.piece) ev.steps =
      rw r.due (
        sort-All (λ e. HasDue now ms e.piece) emitted (due_steps-HasDue now g.heap ms r.timed.2)) in
    let shrunk = steps-shrink ev.steps ev.jump_landings g r.timed mv due q in
    (
      advance-Ready 0 g1 t1,
      omega
          (arith, ap behind same, shrunk, advance-behind g1, ap length (advance-landings g1 later)),
      advance-clock 0 g1 ∙ add-zero (current_time g1) ∙ ap (λ a. a.current_time_ms) same ∙ near.0,
    )

-- The loop returns where the fuel is more than the work, at the same time and with nothing due.
settle-total :
    (fuel : ℕ) (load : PieceConfigReader) (g : GameEngine) (ev : TimeEvents)
    → Ready g ev
    → work g ev < fuel
    → (g' : GameEngine) × (settle fuel load g ev ≡ some g')
      × Done g'
      × (current_time g' ≡ current_time g)
unfolding settle
settle-total zero load g ev r h = absurd (omega arith)
settle-total (suc fuel) load g ev r h = elim (Bool-cases (is_quiet ev)) [
  | inl q ↦ (g, rw q refl, quiet-Done g ev r q, refl)
  | inr q ↦
      let (r', less, same) = round-shrinks load g ev r q in
      let g1 = advance (pos 0) (apply_time_events load ev g) in
      let (g', e, d, c) = settle-total fuel load g1.0 g1.1 r' (omega arith) in
      (g', rw q e, d, c ∙ same)
]

-- Where every motion is that of a moving piece, no piece has two motions and each motion's steps
-- take time, waiting `n` ms ends within the fuel of `wait`: the loop returns a state. That state is
-- `n` ms later, keeps those conditions, and has no step and no landing due.
pub wait-Done :
    (load : PieceConfigReader) (n : ℕ) (g : GameEngine)
    → Timed g.heap g.real_time
    → let (g1, ev) = advance (pos n) g in
      (settle (rounds g1 ev) load g1 ev ≡ some (wait load (pos n) g))
      × Done (wait load (pos n) g)
      × (current_time (wait load (pos n) g) ≡ current_time g + n)
unfolding wait
wait-Done load n g t =
    let g1 = advance (pos n) g in
    let (g', e, d, c) =
      settle-total (rounds g1.0 g1.1) load g1.0 g1.1 (advance-Ready n g t) (omega arith) in
    rw e (refl, d, c ∙ advance-clock n g)

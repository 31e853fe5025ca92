-- ===== src/Realtime/Motions.antt =====
-- The active motions of the arbiter: one for each piece, each making progress, and how far they are
-- behind the clock.
use ctd_tamar.Common.{
  ℕ, suc, ◌+◌, ◌-◌, ◌≤◌, ◌<◌, ◌≡◌, refl, Bool, true, false, not, inl, inr, some, List, [], ◌∷◌, All,
  All-keep_if, arith, Bool-cases, find?, keep_if, ◌==◌,
}
use ctd_tamar.Core.Position.{Position}
use ctd_tamar.Core.Piece.{is_moving}
use ctd_tamar.Core.Board.{Ref, Heap}
use ctd_tamar.Realtime.Arbiter.{
  Motion, StepEvent, is_due, due_steps, comes_before, insert, sort, update_first,
}

-- The steps that the motions are behind the clock, each counted by its milliseconds.
unfoldable pub backlog : ℕ → List Motion → ℕ
backlog now [] = 0
backlog now (m ∷ ms) = suc (suc now - m.next_step_time_ms) + backlog now ms

abbrev pub belongs : Ref → Motion → Bool
belongs r m = m.piece == r

abbrev pub AllMoving : Heap → List Motion → Type 0
AllMoving h = All (λ m. is_moving (h m.piece).state ≡ true)

abbrev pub AllPositive : List Motion → Type 0
AllPositive = All (λ m. 0 < m.step_duration_ms)

-- No piece has two motions.
abbrev pub Distinct : List Motion → Type 0
Distinct [] = Unit {0}
Distinct (m ∷ ms) = All (λ k. belongs m.piece k ≡ false) ms × Distinct ms

pub keep_if-Distinct :
    (p : Motion → Bool) (ms : List Motion) → Distinct ms → Distinct (keep_if p ms)
unfolding keep_if
keep_if-Distinct p [] h = h
keep_if-Distinct p (m ∷ ms) h = elim (Bool-cases (p m)) [
  | inl e ↦ rw e (All-keep_if (λ k. belongs m.piece k ≡ false) p ms h.0, keep_if-Distinct p ms h.1)
  | inr e ↦ rw e (keep_if-Distinct p ms h.1)
]

pub keep_if-All {ℓ} :
    {A : Type ℓ} (p : A → Bool) (xs : List A) → All (λ x. p x ≡ true) xs → keep_if p xs ≡ xs
unfolding keep_if
keep_if-All p [] h = refl
keep_if-All p (x ∷ xs) h = ground (arith, keep_if-All p xs h.1)

-- A step of one motion keeps what depends on the pieces and the durations alone.
pub update_first-All {κ} :
    (P : Ref → ℕ → Type κ) (r : Ref) (cell : Position) (ms : List Motion)
    → All (λ m. P m.piece m.step_duration_ms) ms
    → All (λ m. P m.piece m.step_duration_ms) (update_first r cell ms)
unfolding update_first
update_first-All P r cell [] h = h
update_first-All P r cell (m ∷ ms) h = elim (Bool-cases (m.piece == r)) [
  | inl e ↦ rw e h
  | inr e ↦ rw e (h.0, update_first-All P r cell ms h.1)
]

pub update_first-Distinct :
    (r : Ref) (cell : Position) (ms : List Motion) → Distinct ms → Distinct (update_first r cell ms)
unfolding update_first
update_first-Distinct r cell [] h = h
update_first-Distinct r cell (m ∷ ms) h = elim (Bool-cases (m.piece == r)) [
  | inl e ↦ rw e h
  | inr e ↦ rw e (
    update_first-All (λ q _. (q == m.piece) ≡ false) r cell ms h.0,
    update_first-Distinct r cell ms h.1,
  )
]

-- Without the motions of a piece, a change of that piece is not seen.
pub AllMoving-cancel :
    (r : Ref) (h h' : Heap) (ms : List Motion)
    → ((q : Ref) → (q == r) ≡ false → h' q ≡ h q)
    → AllMoving h ms
    → AllMoving h' (keep_if (λ m. not (m.piece == r)) ms)
unfolding keep_if
AllMoving-cancel r h h' [] same a = a
AllMoving-cancel r h h' (m ∷ ms) same a = elim (Bool-cases (m.piece == r)) [
  | inl e ↦ rw e (AllMoving-cancel r h h' ms same a.1)
  | inr e ↦ rw e (rw (same m.piece e) a.0, AllMoving-cancel r h h' ms same a.1)
]

pub backlog-keep_if-le :
    (now : ℕ) (p : Motion → Bool) (ms : List Motion) → backlog now (keep_if p ms) ≤ backlog now ms
unfolding backlog keep_if
backlog-keep_if-le now p [] = omega arith
backlog-keep_if-le now p (m ∷ ms) = ground (arith, backlog-keep_if-le now p ms)

pub backlog-cancel-lt :
    (now : ℕ) (r : Ref) (ms : List Motion) {m : Motion}
    → find? (belongs r) ms ≡ some m
    → backlog now (keep_if (λ k. not (k.piece == r)) ms) < backlog now ms
unfolding backlog keep_if find?
backlog-cancel-lt now r [] e = cc
backlog-cancel-lt now r (k ∷ ms) {m} e =
    ground (
      arith,
      backlog-cancel-lt now r ms {m = m},
      backlog-keep_if-le now (λ k. not (k.piece == r)) ms,
    )

pub backlog-update_first-le :
    (now : ℕ) (r : Ref) (cell : Position) (ms : List Motion)
    → backlog now (update_first r cell ms) ≤ backlog now ms
unfolding backlog update_first
backlog-update_first-le now r cell [] = omega arith
backlog-update_first-le now r cell (m ∷ ms) = ground (arith, backlog-update_first-le now r cell ms)

pub backlog-update_first-lt :
    (now : ℕ) (r : Ref) (cell : Position) (ms : List Motion) {m : Motion}
    → find? (belongs r) ms ≡ some m
    → m.next_step_time_ms ≤ now
    → AllPositive ms
    → backlog now (update_first r cell ms) < backlog now ms
unfolding backlog update_first find?
backlog-update_first-lt now r cell [] e d p = cc
backlog-update_first-lt now r cell (k ∷ ms) {m} e d p =
    ground (arith, backlog-update_first-lt now r cell ms {m = m})

-- The first motion of the piece is due.
abbrev pub HasDue : ℕ → List Motion → Ref → Type 0
HasDue now ms r = (m : Motion) × (find? (belongs r) ms ≡ some m) × (m.next_step_time_ms ≤ now)

-- What holds of the pieces of all motions holds of the pieces of the steps.
pub due_steps-All {κ} :
    (P : Ref → Type κ) (now : ℕ) (h : Heap) (ms : List Motion)
    → All (λ m. P m.piece) ms
    → All (λ e. P e.piece) (due_steps now h ms)
unfolding due_steps
due_steps-All P now h [] a = tt
due_steps-All P now h (m ∷ ms) a = elim (Bool-cases (is_due now h m)) [
  | inl e ↦ rw e (a.0, due_steps-All P now h ms a.1)
  | inr e ↦ rw e (due_steps-All P now h ms a.1)
]

HasDue-cons :
    (now : ℕ) (k : Motion) (ms : List Motion) (es : List StepEvent)
    → All (λ e. (e.piece == k.piece) ≡ false) es
    → All (λ e. HasDue now ms e.piece) es
    → All (λ e. HasDue now (k ∷ ms) e.piece) es
unfolding find?
HasDue-cons now k ms [] n h = tt
HasDue-cons now k ms (e ∷ es) n ((m, f, d), h) =
    ((m, ground arith, d), HasDue-cons now k ms es n.1 h)

-- Where no piece has two motions, each step that is emitted stands for a motion that is due.
pub due_steps-HasDue :
    (now : ℕ) (h : Heap) (ms : List Motion)
    → Distinct ms
    → All (λ e. HasDue now ms e.piece) (due_steps now h ms)
unfolding due_steps
due_steps-HasDue now h [] d = tt
due_steps-HasDue now h (m ∷ ms) d =
    let rest =
      HasDue-cons now m ms (due_steps now h ms)
        (due_steps-All (λ r. (r == m.piece) ≡ false) now h ms d.0)
        (due_steps-HasDue now h ms d.1) in
    elim (Bool-cases (is_due now h m)) [
      | inl e ↦ rw e ((m, unfold find? in ground arith, ground arith), rest)
      | inr e ↦ rw e rest
    ]

insert-All {κ} :
    (P : StepEvent → Type κ) (e : StepEvent) (es : List StepEvent)
    → P e
    → All P es
    → All P (insert e es)
unfolding insert
insert-All P e [] p h = (p, tt)
insert-All P e (x ∷ xs) p h = elim (Bool-cases (comes_before x e)) [
  | inl b ↦ rw b (h.0, insert-All P e xs p h.1)
  | inr b ↦ rw b (p, h)
]

pub sort-All {κ} : (P : StepEvent → Type κ) (es : List StepEvent) → All P es → All P (sort es)
unfolding sort
sort-All P [] h = tt
sort-All P (e ∷ es) h = insert-All P e (sort es) h.0 (sort-All P es h.1)

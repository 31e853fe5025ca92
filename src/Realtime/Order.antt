-- ===== src/Realtime/Order.antt =====
-- The order of the step events that RealTimeArbiter::advanceTime returns.
use mathlib.Core.List.{Perm}
use mathlib.Core.List.Perm
use ctd_tamar.Common.{◌≤◌, ◌<◌, ◌≡◌, ◌⊎◌, inl, inr, List, [], ◌∷◌, All, arith, Bool-cases}
use ctd_tamar.Realtime.Arbiter.{StepEvent, comes_before, insert, sort}

-- In the order of time, and at one time in the order in which the motions began.
abbrev pub NotAfter : StepEvent → StepEvent → Type 0
NotAfter a b =
    (a.event_time_ms < b.event_time_ms)
    ⊎ ((a.event_time_ms ≡ b.event_time_ms) × (a.order ≤ b.order))

abbrev pub IsSorted : List StepEvent → Type 0
IsSorted [] = Unit {0}
IsSorted (e ∷ es) = All (NotAfter e) es × IsSorted es

NotAfter-trans : (a b c : StepEvent) → NotAfter a b → NotAfter b c → NotAfter a c
NotAfter-trans a b c p q = ground arith

All-weaken :
    (a b : StepEvent) (es : List StepEvent)
    → NotAfter a b
    → All (NotAfter b) es
    → All (NotAfter a) es
All-weaken a b [] p h = tt
All-weaken a b (e ∷ es) p h = (NotAfter-trans a b e p h.0, All-weaken a b es p h.1)

insert-All :
    (a e : StepEvent) (es : List StepEvent)
    → NotAfter a e
    → All (NotAfter a) es
    → All (NotAfter a) (insert e es)
unfolding insert
insert-All a e [] p h = (p, tt)
insert-All a e (x ∷ xs) p h = elim (Bool-cases (comes_before x e)) [
  | inl b ↦ rw b (h.0, insert-All a e xs p h.1)
  | inr b ↦ rw b (p, h)
]

insert-IsSorted : (e : StepEvent) (es : List StepEvent) → IsSorted es → IsSorted (insert e es)
unfolding insert
insert-IsSorted e [] h = (tt, tt)
insert-IsSorted e (x ∷ xs) h = elim (Bool-cases (comes_before x e)) [
  | inl b ↦ rw b (insert-All x e xs (ground arith) h.0, insert-IsSorted e xs h.1)
  | inr b ↦ let p : NotAfter e x = ground arith in rw b ((p, All-weaken e x xs p h.0), h)
]

insert-perm : (e : StepEvent) (es : List StepEvent) → Perm (insert e es) (e ∷ es)
unfolding insert
insert-perm e [] = Perm.refl _
insert-perm e (x ∷ xs) = elim (Bool-cases (comes_before x e)) [
  | inl b ↦ rw b (Perm.trans (Perm.cons x (insert-perm e xs)) (Perm.swap e x xs))
  | inr b ↦ rw b (Perm.refl _)
]

-- The steps are in the order of their times, and of their motions at one time.
pub sort-IsSorted : (es : List StepEvent) → IsSorted (sort es)
unfolding sort
sort-IsSorted [] = tt
sort-IsSorted (e ∷ es) = insert-IsSorted e (sort es) (sort-IsSorted es)

pub sort-perm : (es : List StepEvent) → Perm (sort es) es
unfolding sort
sort-perm [] = Perm.refl []
sort-perm (e ∷ es) = Perm.trans (insert-perm e (sort es)) (Perm.cons e (sort-perm es))

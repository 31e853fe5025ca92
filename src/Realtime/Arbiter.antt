-- ===== src/Realtime/Arbiter.antt =====
-- server/chess_server/src/Realtime/RealTimeArbiter.cpp and its header. A motion's piece is never
-- null, since `start_motion` refuses a null piece; the tests for it are left out where it is read.
use ctd_tamar.Common.{
  ℕ, suc, ◌+◌, ℤ, pos, negsuc, pos_part, ◌+ℤ◌, ◌-ℤ◌, ltb_ℤ, leb_ℤ, is_negative, Bool, ◌&&◌, ◌||◌,
  not, Option, none, some, List, [], ◌∷◌, ◌++◌, if◌then◌else◌, ltb, leb, ◌==◌, is_empty_list,
  keep_if,
}
use ctd_tamar.Core.Position.{Position, position, pos_eq}
use ctd_tamar.Core.Piece.{moving, airborne, set_state, is_moving, is_knight}
use ctd_tamar.Core.Board.{Ref, Heap, modify}

pub record Motion : Type 0 where
  pub piece : Ref
  pub source : Position
  pub destination : Position
  pub current_cell : Position
  pub row_step : ℤ
  pub col_step : ℤ
  pub direct_move : Bool
  pub step_duration_ms : ℕ
  pub next_step_time_ms : ℕ
  pub order : ℕ

pub record Jump : Type 0 where
  pub piece : Ref
  pub cell : Position
  pub finish_time_ms : ℕ

pub record StepEvent : Type 0 where
  pub piece : Ref
  pub source : Position
  pub from : Position
  pub to : Position
  pub reached_destination : Bool
  pub event_time_ms : ℕ
  pub order : ℕ

pub record JumpLandingEvent : Type 0 where
  pub piece : Ref
  pub cell : Position
  pub event_time_ms : ℕ

pub record TimeEvents : Type 0 where
  pub steps : List StepEvent
  pub jump_landings : List JumpLandingEvent

pub record RealTimeArbiter : Type 0 where
  pub current_time_ms : ℕ
  pub active_motions : List Motion
  pub active_jumps : List Jump
  pub next_motion_order : ℕ

-- The constructor.
abbrev pub new : RealTimeArbiter
new = record { current_time_ms = 0; active_motions = []; active_jumps = []; next_motion_order = 0 }

unfoldable pub has_active_motion : RealTimeArbiter → Bool
has_active_motion a = not (is_empty_list a.active_motions)

unfoldable pub sign_value : ℤ → ℤ
sign_value v = if ltb_ℤ (pos 0) v then pos 1 else (if ltb_ℤ v (pos 0) then negsuc 0 else pos 0)

-- A duration that is not positive counts as 1.
abbrev pub at_least_one : ℤ → ℕ
at_least_one d = if leb_ℤ d (pos 0) then 1 else pos_part d

unfoldable pub start_motion :
    Option Ref → Position → Position → ℤ → Bool → Heap → RealTimeArbiter → Heap × RealTimeArbiter
unfolding modify sign_value
start_motion none s d duration force h a = (h, a)
start_motion (some r) s d duration force h a =
    let step_duration = at_least_one duration in
    let motion : Motion = record {
      piece = r;
      source = s;
      destination = d;
      current_cell = s;
      row_step = sign_value (d.row -ℤ s.row);
      col_step = sign_value (d.col -ℤ s.col);
      direct_move = force || is_knight (h r).kind;
      step_duration_ms = step_duration;
      next_step_time_ms = a.current_time_ms + step_duration;
      order = a.next_motion_order;
    } in
    (
      modify r (set_state moving) h,
      record a {
        active_motions = a.active_motions ++ motion ∷ [];
        next_motion_order = suc a.next_motion_order;
      },
    )

unfoldable pub start_jump :
    Option Ref → Position → ℤ → Heap → RealTimeArbiter → Heap × RealTimeArbiter
unfolding modify
start_jump none cell duration h a = (h, a)
start_jump (some r) cell duration h a = (
  modify r (set_state airborne) h,
  record a {
    active_jumps =
        a.active_jumps
        ++ record {
          piece = r;
          cell = cell;
          finish_time_ms = a.current_time_ms + at_least_one duration;
        }
          ∷ [];
  },
)

-- The cell that a step goes to.
unfoldable pub next_cell : Motion → Position
next_cell m =
    if m.direct_move
    then m.destination
    else position (m.current_cell.row +ℤ m.row_step) (m.current_cell.col +ℤ m.col_step)

abbrev pub step_event : Motion → StepEvent
step_event m = record {
  piece = m.piece;
  source = m.source;
  from = m.current_cell;
  to = next_cell m;
  reached_destination = pos_eq (next_cell m) m.destination;
  event_time_ms = m.next_step_time_ms;
  order = m.order;
}

-- A motion whose piece still moves and whose next step is due.
abbrev pub is_due : ℕ → Heap → Motion → Bool
is_due now h m = is_moving (h m.piece).state && leb m.next_step_time_ms now

-- One event for each motion that is due: the loop breaks after the first.
unfoldable pub due_steps : ℕ → Heap → List Motion → List StepEvent
due_steps now h [] = []
due_steps now h (m ∷ ms) =
    let rest = due_steps now h ms in if is_due now h m then step_event m ∷ rest else rest

-- The comparator of the sort: by time, then by the order of the motions.
abbrev pub comes_before : StepEvent → StepEvent → Bool
comes_before a b =
    if not (a.event_time_ms == b.event_time_ms)
    then ltb a.event_time_ms b.event_time_ms
    else ltb a.order b.order

unfoldable pub insert : StepEvent → List StepEvent → List StepEvent
insert e [] = e ∷ []
insert e (x ∷ xs) = if comes_before x e then x ∷ insert e xs else e ∷ x ∷ xs

-- `std::sort`.
unfoldable pub sort : List StepEvent → List StepEvent
unfolding insert
sort [] = []
sort (e ∷ es) = insert e (sort es)

abbrev pub has_landed : ℕ → Jump → Bool
has_landed now j = leb j.finish_time_ms now

unfoldable pub landings : ℕ → List Jump → List JumpLandingEvent
landings now [] = []
landings now (j ∷ js) =
    let rest = landings now js in
    if has_landed now j
    then record { piece = j.piece; cell = j.cell; event_time_ms = j.finish_time_ms } ∷ rest
    else rest

abbrev pub no_events : TimeEvents
no_events = record { steps = []; jump_landings = [] }

unfoldable pub advance_time : ℤ → Heap → RealTimeArbiter → RealTimeArbiter × TimeEvents
unfolding due_steps sort landings keep_if
advance_time ms h a =
    let now = a.current_time_ms + pos_part ms in
    if is_negative ms then (a, no_events) else (
      record a {
        current_time_ms = now;
        active_motions = keep_if (λ m. is_moving (h m.piece).state) a.active_motions;
        active_jumps = keep_if (λ j. not (has_landed now j)) a.active_jumps;
      },
      record {
        steps = sort (due_steps now h a.active_motions);
        jump_landings = landings now a.active_jumps;
      },
    )

-- The first motion of the piece goes on to a cell, and its next step is one duration later.
unfoldable pub update_first : Ref → Position → List Motion → List Motion
update_first r cell [] = []
update_first r cell (m ∷ ms) =
    if m.piece == r
    then record m {
      current_cell = cell;
      next_step_time_ms = m.next_step_time_ms + m.step_duration_ms;
    }
      ∷ ms
    else m ∷ update_first r cell ms

unfoldable pub update_motion_cell : Ref → Position → RealTimeArbiter → RealTimeArbiter
unfolding update_first
update_motion_cell r cell a = record a { active_motions = update_first r cell a.active_motions }

unfoldable pub cancel_motion : Ref → RealTimeArbiter → RealTimeArbiter
unfolding keep_if
cancel_motion r a = record a { active_motions = keep_if (λ m. not (m.piece == r)) a.active_motions }

abbrev pub finish_motion : Ref → RealTimeArbiter → RealTimeArbiter
finish_motion = cancel_motion

-- ===== src/Control/Answers.antt =====
-- The controller gets the engine's answer to each request that it sends.
use ctd_tamar.Common.{
  suc, ℤ, ◌≡◌, refl, ap, true, Option, none, some, arith, ==_refl, Option-cases, Bool-cases, inl,
  inr,
}
use ctd_tamar.Core.Position.{Position, pos_eq}
use ctd_tamar.Core.Board.{Ref, get_piece_at}
use ctd_tamar.Core.Results.{ControllerResult}
use ctd_tamar.Messaging.Snapshot.{Message, MessageType, jump_request, move_request}
use ctd_tamar.Messaging.Bus
use ctd_tamar.Engine.State.{GameEngine, PieceConfigReader}
use ctd_tamar.Engine.Requests.{handle_message, dispatch}
use ctd_tamar.Control.Handler.{process_next_message}
use ctd_tamar.Control.Controller.{
  Controller, request_of, send_request, select, click, select_first_piece, select_friendly_piece,
  handle_selected_cell, is_friendly, is_piece_available, map_click_to_cell,
}

-- What a response repeats of its request.
abbrev pub Echoes : Message → Message → Type 0
Echoes request response =
    (response.sequence ≡ request.sequence)
    × (response.source ≡ request.source)
    × (response.destination ≡ request.destination)

dispatch-Echoes :
    (load : PieceConfigReader) (t : MessageType) (m : Message) (g : GameEngine)
    → Echoes m (dispatch load t m g).1
dispatch-Echoes load t m g = ground arith

-- A response has its request's sequence number, source and destination.
pub handle_message-Echoes :
    (load : PieceConfigReader) (m : Message) (g : GameEngine) → Echoes m (handle_message load m g).1
unfolding handle_message
handle_message-Echoes load m g = dispatch-Echoes load m.type m g

-- The engine's answer to the request, and the controller that it leaves: the bus is empty again.
abbrev pub answered :
    PieceConfigReader
    → MessageType
    → Position
    → Position
    → Controller
    → Controller × ControllerResult
answered load type s d c =
    let (g, response) = handle_message load (request_of type s d c) c.engine in
    (
      record c { engine = g; next_sequence = suc c.next_sequence },
      record { handled = response.accepted; reason = response.reason },
    )

-- On an empty bus a request is answered by the engine: no response is missing, none has another
-- sequence number, and the bus is empty afterwards.
pub send_request-answered :
    (load : PieceConfigReader) (type : MessageType) (s d : Position) (c : Controller)
    → c.message_bus ≡ Bus.new
    → send_request load type s d c ≡ answered load type s d c
unfolding send_request process_next_message
send_request-answered load type s d c h = simp h (
    rw ((handle_message-Echoes load (request_of type s d c) c.engine).0, ==_refl c.next_sequence)
      refl)

-- The selected cell, if any, holds a piece that may be asked to act.
abbrev pub Selectable : Option Position → Controller → Type 0
Selectable none c = Unit
Selectable (some p) c =
    (r : Ref) × (get_piece_at c.engine.board p ≡ some r) × (is_piece_available r c ≡ true)

-- How a click ends: as one request of the engine from the selected cell, which is then no longer
-- selected, or as a selection with everything else as it was.
pub data ClickEnds (load : PieceConfigReader) (c : Controller) (out : Controller × ControllerResult)
    : Type 0 where
  asks :
      (type : MessageType) (s d : Position)
      → c.selected_cell ≡ some s
      → out ≡ answered load type s d (select none c)
      → ClickEnds load c out
  selects : (p : Option Position) → Selectable p c → out.0 ≡ select p c → ClickEnds load c out

unselected : (c : Controller) → c.selected_cell ≡ none → c ≡ select none c
unselected c e = ap (λ o. select o c) e

select_first_piece-ends :
    (load : PieceConfigReader) (p : Position) (c : Controller)
    → c.selected_cell ≡ none
    → ClickEnds load c (select_first_piece p c)
unfolding select_first_piece
select_first_piece-ends load p c e = elim (Option-cases (get_piece_at c.engine.board p)) [
  | inl n ↦ rw (n, select_first_piece) (selects none tt (unselected c e))
  | inr (r, q) ↦
      rw (q, select_first_piece)
        (elim (Bool-cases (is_piece_available r c)) [
          | inl a ↦ rw a (selects (some p) (r, q, a) refl)
          | inr a ↦ rw a (selects none tt (unselected c e))
        ])
]

select_friendly_piece-ends :
    (load : PieceConfigReader) (p : Position) (c : Controller)
    → ClickEnds load c (select_friendly_piece p c)
unfolding select_friendly_piece
select_friendly_piece-ends load p c = elim (Option-cases (get_piece_at c.engine.board p)) [
  | inl n ↦ rw (n, select_friendly_piece) (selects none tt refl)
  | inr (r, q) ↦
      rw (q, select_friendly_piece)
        (elim (Bool-cases (is_piece_available r c)) [
          | inl a ↦ rw a (selects (some p) (r, q, a) refl)
          | inr a ↦ rw a (selects none tt refl)
        ])
]

asks-ClickEnds :
    (load : PieceConfigReader) (type : MessageType) (s d : Position) (c : Controller)
    → c.selected_cell ≡ some s
    → c.message_bus ≡ Bus.new
    → ClickEnds load c (send_request load type s d (select none c))
asks-ClickEnds load type s d c e b =
    asks type s d e (send_request-answered load type s d (select none c) b)

handle_selected_cell-ends :
    (load : PieceConfigReader) (s p : Position) (c : Controller)
    → c.selected_cell ≡ some s
    → c.message_bus ≡ Bus.new
    → ClickEnds load c (handle_selected_cell load s p c)
unfolding handle_selected_cell
handle_selected_cell-ends load s p c e b = elim (Bool-cases (pos_eq p s)) [
  | inl y ↦ rw y (asks-ClickEnds load jump_request s s c e b)
  | inr y ↦ rw y (elim (Option-cases (get_piece_at c.engine.board s)) [
    | inl n ↦ rw (n, handle_selected_cell) (selects none tt refl)
    | inr (r, q) ↦
        rw (q, handle_selected_cell)
          (elim (Bool-cases (is_friendly r p c)) [
            | inl f ↦ rw f (select_friendly_piece-ends load p c)
            | inr f ↦ rw f (asks-ClickEnds load move_request s p c e b)
          ])
  ])
]

-- Whatever is clicked, a controller whose bus is empty sends at most one request, from the cell
-- that was selected, and returns the engine's answer to it; a click that sends none changes only
-- the selection, and selects only a piece that is idle and does not rest.
pub click-ends :
    (load : PieceConfigReader) (x y : ℤ) (c : Controller)
    → c.message_bus ≡ Bus.new
    → ClickEnds load c (click load x y c)
unfolding click
click-ends load x y c b = elim (Option-cases (map_click_to_cell x y c)) [
  | inl n ↦ rw (n, click) (selects none tt refl)
  | inr (p, q) ↦
      rw (q, click)
        (elim (Option-cases c.selected_cell) [
          | inl e ↦ simp e (select_first_piece-ends load p c e)
          | inr (s, e) ↦ simp e (handle_selected_cell-ends load s p c e b)
        ])
]

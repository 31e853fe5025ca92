-- ===== src/Control/Controller.antt =====
-- server/chess_server/src/Control/Controller.cpp: clicks become selections, moves and jumps, which
-- travel over the controller's own message bus. The engine that it refers to is part of its state.
use ctd_tamar.Common.{
  ℕ, suc, ℤ, Bool, true, false, ◌&&◌, not, Option, none, some, if◌then◌else◌, ◌==◌, is_some,
}
use ctd_tamar.Core.Position.{Position, pos_eq}
use ctd_tamar.Core.Piece.{is_idle, is_on_cooldown, color_eq}
use ctd_tamar.Core.Board.{Ref, get_piece_at}
use ctd_tamar.Core.Results.{
  Reason, ControllerResult, empty_click, motion_in_progress, selected, click_outside, empty_source,
  missing_engine_response, unexpected_response_sequence,
}
use ctd_tamar.Messaging.Snapshot.{Message, MessageType, default_message, move_request, jump_request}
use ctd_tamar.Messaging.Bus.{MessageBus, send_to_engine, receive_for_client}
use ctd_tamar.Messaging.Bus
use ctd_tamar.Engine.State.{GameEngine, PieceConfigReader, current_time}
use ctd_tamar.Control.Handler.{process_next_message}
use ctd_tamar.Control.BoardMapper.{Geometry, pixel_to_cell}

pub record Controller : Type 0 where
  pub engine : GameEngine
  pub message_bus : MessageBus
  pub next_sequence : ℕ
  pub selected_cell : Option Position
  pub geometry : Geometry

abbrev pub new : GameEngine → Geometry → Controller
new g geo = record {
  engine = g;
  message_bus = Bus.new;
  next_sequence = 1;
  selected_cell = none;
  geometry = geo;
}

abbrev pub map_click_to_cell : ℤ → ℤ → Controller → Option Position
map_click_to_cell x y c = pixel_to_cell x y c.engine.board c.geometry

-- `isPieceAvailable`, of a piece that is not null.
abbrev pub is_piece_available : Ref → Controller → Bool
is_piece_available r c =
    is_idle (c.engine.heap r).state
    && not (is_on_cooldown (current_time c.engine) (c.engine.heap r))

abbrev pub select : Option Position → Controller → Controller
select p c = record c { selected_cell = p }

abbrev pub result : Bool → Reason → Controller → Controller × ControllerResult
result handled why c = (c, record { handled = handled; reason = why })

unfoldable pub select_first_piece : Position → Controller → Controller × ControllerResult
select_first_piece clicked c = elim (get_piece_at c.engine.board clicked) [
  | none ↦ result false empty_click c
  | some r ↦
      if not (is_piece_available r c)
      then result false motion_in_progress c
      else result true selected (select (some clicked) c)
]

-- It is called for a cell with a piece; a null piece is not available.
unfoldable pub select_friendly_piece : Position → Controller → Controller × ControllerResult
select_friendly_piece clicked c = elim (get_piece_at c.engine.board clicked) [
  | none ↦ result false motion_in_progress (select none c)
  | some r ↦
      if not (is_piece_available r c)
      then result false motion_in_progress (select none c)
      else result true selected (select (some clicked) c)
]

abbrev pub request_of : MessageType → Position → Position → Controller → Message
request_of type s d c = record default_message {
  type = type;
  sequence = c.next_sequence;
  source = s;
  destination = d;
  created_at_ms = current_time c.engine;
}

-- What the controller makes of the next response on its bus.
abbrev pub take_response : ℕ → Controller → Controller × ControllerResult
take_response sequence c = elim (receive_for_client c.message_bus) [
  | none ↦ result false missing_engine_response c
  | some (response, rest) ↦
      let received : Controller = record c { message_bus = rest } in
      if not (response.sequence == sequence)
      then result false unexpected_response_sequence received
      else result response.accepted response.reason received
]

unfoldable pub send_request :
    PieceConfigReader
    → MessageType
    → Position
    → Position
    → Controller
    → Controller × ControllerResult
unfolding process_next_message
send_request load type s d c =
    let request = request_of type s d c in
    let ((g, bus), processed) =
      process_next_message load (c.engine, send_to_engine request c.message_bus) in
    take_response request.sequence
      (record c { engine = g; message_bus = bus; next_sequence = suc c.next_sequence })

abbrev pub request_selected_move :
    PieceConfigReader → Position → Position → Controller → Controller × ControllerResult
request_selected_move load s d c = send_request load move_request s d (select none c)

-- A piece of the selected piece's colour stands on the clicked cell.
abbrev pub is_friendly : Ref → Position → Controller → Bool
is_friendly r clicked c = elim (get_piece_at c.engine.board clicked) [
  | none ↦ false
  | some q ↦ color_eq (c.engine.heap r).color (c.engine.heap q).color
]

unfoldable pub handle_selected_cell :
    PieceConfigReader → Position → Position → Controller → Controller × ControllerResult
unfolding send_request select_friendly_piece
handle_selected_cell load source clicked c =
    if pos_eq clicked source
    then send_request load jump_request source source (select none c)
    else elim (get_piece_at c.engine.board source) [
      | none ↦ result false empty_source (select none c)
      | some r ↦
          if is_friendly r clicked c
          then select_friendly_piece clicked c
          else request_selected_move load source clicked c
    ]

abbrev pub click_cell :
    PieceConfigReader → Option Position → Position → Controller → Controller × ControllerResult
click_cell load none clicked c = select_first_piece clicked c
click_cell load (some source) clicked c = handle_selected_cell load source clicked c

unfoldable pub click : PieceConfigReader → ℤ → ℤ → Controller → Controller × ControllerResult
unfolding select_first_piece handle_selected_cell
click load x y c = elim (map_click_to_cell x y c) [
  | none ↦ result (is_some c.selected_cell) click_outside (select none c)
  | some clicked ↦ click_cell load c.selected_cell clicked c
]

unfoldable pub jump : PieceConfigReader → ℤ → ℤ → Controller → Controller × ControllerResult
unfolding send_request
jump load x y c = elim (map_click_to_cell x y c) [
  | none ↦ result false click_outside (select none c)
  | some clicked ↦ send_request load jump_request clicked clicked (select none c)
]

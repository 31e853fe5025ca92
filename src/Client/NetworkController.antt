-- ===== src/Client/NetworkController.antt =====
-- client/desktop_client/src/Client/NetworkController.cpp: clicks of a player of the network game.
use ctd_tamar.Common.{
  ℕ, zero, suc, ◌/◌, ℤ, pos, ◌-ℤ◌, Bool, true, false, not, ◌&&◌, ◌||◌, Option, none, some, List, [],
  ◌∷◌, ◌==◌, leb, if◌then◌else◌, is_some, length,
}
use ctd_tamar.Core.Position.{Position, position, pos_eq}
use ctd_tamar.Core.Piece.{is_idle, color_to_char}
use ctd_tamar.Core.Results.{Reason, ControllerResult}
use ctd_tamar.Messaging.Snapshot.{
  Message, MessageType, default_message, PieceSnapshot, move_request, jump_request,
}
use ctd_tamar.Client.GameState.{ClientGameState, apply_message, find_piece_at, is_game_over}
use ctd_tamar.Client.GameClient.{
  GameClient, receive_messages, create_sequence, send, take_response, try_receive_update,
}

-- The constructor refuses sizes and a timeout that are not positive: sizes here are positive.
pub record NetworkController : Type 0 where
  pub client : GameClient
  pub game_state : ClientGameState
  pub selected_cell : Option Position
  pub board_start_x : ℤ
  pub board_start_y : ℤ
  pub cell_size_x : ℕ
  pub cell_size_y : ℕ
  pub board_rows : ℕ
  pub board_cols : ℕ

-- What the network does with a request: whether the send fails, and what arrives within the timeout.
pub record Network : Type 0 where
  pub fails : Message → Bool
  pub arrives : Message → List Message

abbrev pub cell_in : (rows cols row col : ℕ) → Option Position
cell_in rows cols row col =
    if leb rows row || leb cols col then none else some (position (pos row) (pos col))

abbrev pub cell_of : ℤ → ℤ → NetworkController → Option Position
cell_of (pos x) (pos y) n =
    cell_in n.board_rows n.board_cols (y / n.cell_size_y) (x / n.cell_size_x)
cell_of _ _ n = none

unfoldable pub map_click_to_cell : ℤ → ℤ → NetworkController → Option Position
map_click_to_cell x y n = cell_of (x -ℤ n.board_start_x) (y -ℤ n.board_start_y) n

abbrev pub is_piece_available : Option PieceSnapshot → Bool
is_piece_available none = false
is_piece_available (some p) = is_idle p.state && leb p.remaining_cooldown_ms 0

abbrev pub starts_with : ℕ → List ℕ → Bool
starts_with c [] = false
starts_with c (x ∷ _) = x == c

unfoldable pub is_owned_piece : Option PieceSnapshot → NetworkController → Bool
unfolding color_to_char
is_owned_piece none n = false
is_owned_piece (some p) n =
    n.client.player_assigned && starts_with (color_to_char n.client.assigned_color) p.token

abbrev pub have_same_color : List ℕ → List ℕ → Bool
have_same_color [] _ = false
have_same_color (x ∷ _) other = starts_with x other

abbrev pub select : Option Position → NetworkController → NetworkController
select cell n = record n { selected_cell = cell }

abbrev pub result : Bool → Reason → NetworkController → NetworkController × ControllerResult
result handled why n = (n, record { handled = handled; reason = why })

unfoldable pub select_first_piece :
    Position → NetworkController → NetworkController × ControllerResult
unfolding is_owned_piece
select_first_piece cell n =
    let piece = find_piece_at cell n.game_state in
    if not (is_some piece)
    then result false Reason.empty_click n
    else (if not (is_piece_available piece)
        then result false Reason.motion_in_progress n
        else (if not (is_owned_piece piece n)
            then result false Reason.not_your_piece n
            else result true Reason.selected (select (some cell) n)))

unfoldable pub select_friendly_piece :
    Position → NetworkController → NetworkController × ControllerResult
unfolding is_owned_piece
select_friendly_piece cell n =
    let piece = find_piece_at cell n.game_state in
    if not (is_piece_available piece) || not (is_owned_piece piece n)
    then result false
        (if not (is_owned_piece piece n) then Reason.not_your_piece else Reason.motion_in_progress)
        (select none n)
    else result true Reason.selected (select (some cell) n)

abbrev pub request_of : MessageType → ℕ → Position → Position → NetworkController → Message
request_of type sequence source destination n = record default_message {
  type = type;
  sequence = sequence;
  source = source;
  destination = destination;
  created_at_ms = n.game_state.current_snapshot.server_time_ms;
}

-- What a response makes of the controller; without one there was an exception.
abbrev pub answer_click :
    NetworkController → GameClient × Option Message → NetworkController × ControllerResult
answer_click n (c, none) = result false Reason.network_error (record n { client = c })
answer_click n (c, some m) =
    let answered = record n { client = c; selected_cell = none } in
    if not m.has_snapshot
    then result false Reason.missing_server_snapshot answered
    else result m.accepted m.reason
        (record answered { game_state = (apply_message m n.game_state).0 })

-- The request is sent, what arrives meanwhile is received, and the response is taken.
unfoldable pub exchange : Network → Message → GameClient → GameClient × Option Message
unfolding send take_response receive_messages
exchange net request c =
    let out = send (net.fails request) request c in
    if not out.1
    then (out.0, none)
    else take_response request.sequence (receive_messages (net.arrives request) out.0)

unfoldable pub send_request :
    Network
    → MessageType
    → Position
    → Position
    → NetworkController
    → NetworkController × ControllerResult
unfolding exchange
send_request net type source destination n =
    let numbered = create_sequence n.client in
    if not n.client.game_started
    then result false Reason.waiting_for_opponent (select none n)
    else (if not n.client.connected
        then result false Reason.network_error n
        else answer_click (record n { client = numbered.0 })
            (exchange net (request_of type numbered.1 source destination n) numbered.0))

abbrev pub token_text : Option PieceSnapshot → List ℕ
token_text none = []
token_text (some p) = p.token

unfoldable pub handle_selected_cell :
    Network → Position → Position → NetworkController → NetworkController × ControllerResult
unfolding pos_eq send_request select_friendly_piece is_owned_piece
handle_selected_cell net source cell n =
    let piece = find_piece_at source n.game_state in
    let clicked = find_piece_at cell n.game_state in
    if pos_eq cell source
    then send_request net jump_request source source n
    else (if not (is_some piece)
        then result false Reason.empty_source (select none n)
        else (if not (is_piece_available piece)
            then result false Reason.motion_in_progress (select none n)
            else (if not (is_owned_piece piece n)
                then result false Reason.not_your_piece (select none n)
                else (if have_same_color (token_text piece) (token_text clicked)
                    then select_friendly_piece cell n
                    else send_request net move_request source cell n))))

-- The loop of `applyPendingUpdates`: each round takes a message off the queue.
abbrev pub apply_update :
    GameClient × Option Message
    → ClientGameState × Bool
    → Option (GameClient × (ClientGameState × Bool))
apply_update (c, none) s = none
apply_update (c, some m) (g, changed) =
    let out = apply_message m g in some (c, (out.0, changed || out.1))

unfoldable pub drain :
    ℕ → GameClient → ClientGameState × Bool → GameClient × (ClientGameState × Bool)
unfolding try_receive_update
drain zero c s = (c, s)
drain (suc fuel) c s = elim (apply_update (try_receive_update c) s) [
  | none ↦ (c, s)
  | some (c', s') ↦ drain fuel c' s'
]

-- The selection is dropped without a game, or when an update took its piece away.
unfoldable pub check_selection : Bool → NetworkController → NetworkController
unfolding is_owned_piece
check_selection changed n =
    let m = if n.client.game_started then n else select none n in
    elim m.selected_cell [
      | none ↦ m
      | some cell ↦
          let piece = find_piece_at cell m.game_state in
          if changed && (not (is_piece_available piece) || not (is_owned_piece piece m))
          then select none m
          else m
    ]

-- The fuel is the number of messages that wait.
unfoldable pub apply_pending_updates : NetworkController → NetworkController × Bool
unfolding drain check_selection
apply_pending_updates n =
    let out = drain (length n.client.incoming_messages) n.client (n.game_state, false) in
    (check_selection out.1.1 (record n { client = out.0; game_state = out.1.0 }), out.1.1)

abbrev pub click_cell :
    Network → Option Position → NetworkController → NetworkController × ControllerResult
click_cell net none n = result (is_some n.selected_cell) Reason.click_outside (select none n)
click_cell net (some cell) n = elim n.selected_cell [
  | none ↦ select_first_piece cell n
  | some source ↦ handle_selected_cell net source cell n
]

-- What `click` and `jump` test before they look at the cell.
unfoldable pub with_game :
    (NetworkController → NetworkController × ControllerResult)
    → NetworkController
    → NetworkController × ControllerResult
with_game action n =
    if not n.client.game_started
    then result false Reason.waiting_for_opponent (select none n)
    else (if not n.game_state.initialized
        then result false Reason.client_state_not_initialized n
        else (if is_game_over n.game_state
            then result false Reason.game_over (select none n)
            else action n))

unfoldable pub click : Network → ℤ → ℤ → NetworkController → NetworkController × ControllerResult
unfolding with_game map_click_to_cell apply_pending_updates select_first_piece handle_selected_cell
click net x y n =
    with_game (λ (m : NetworkController). click_cell net (map_click_to_cell x y m) m)
      (apply_pending_updates n).0

abbrev pub jump_cell :
    Network → Option Position → NetworkController → NetworkController × ControllerResult
jump_cell net none n = result false Reason.click_outside (select none n)
jump_cell net (some cell) n =
    if not (is_owned_piece (find_piece_at cell n.game_state) n)
    then result false Reason.not_your_piece (select none n)
    else send_request net jump_request cell cell n

unfoldable pub jump : Network → ℤ → ℤ → NetworkController → NetworkController × ControllerResult
unfolding with_game map_click_to_cell apply_pending_updates send_request is_owned_piece
jump net x y n =
    with_game (λ (m : NetworkController). jump_cell net (map_click_to_cell x y m) m)
      (apply_pending_updates n).0

-- ===== src/Client/Numbering.antt =====
-- NetworkController.cpp: the sequence numbers of the requests that a player sends.
use ctd_tamar.Common.{
  ℕ, suc, ℤ, ◌<◌, ◌≡◌, refl, false, not, Option, none, some, List, [], ◌∷◌, ◌++◌, if◌then◌else◌,
  if-cases, All, All-append, arith,
}
use ctd_tamar.Core.Position.{Position}
use ctd_tamar.Core.Results.{Reason, ControllerResult}
use ctd_tamar.Messaging.Snapshot.{Message, MessageType, jump_request, move_request}
use ctd_tamar.Client.GameClient.{GameClient, receive_messages, create_sequence}
use ctd_tamar.Client.GameState.{find_piece_at, is_game_over}
use ctd_tamar.Client.NetworkController.{
  NetworkController, Network, request_of, exchange, answer_click, send_request, click, jump,
  jump_cell, with_game, map_click_to_cell, apply_pending_updates, select, result, is_owned_piece,
}
use ctd_tamar.Client.Pending.{apply_pending_updates-Drains}
use ctd_tamar.Client.Clicks.{
  ClickEnds, waits, unshown, over, outside, selects, ignores, jumps, moves, reselects, drops,
  click-Ends,
}
use ctd_tamar.Client.Sending.{
  Sends, sends_none, sends_one, receive_messages-SameSent, exchange-Sends,
}

-- The requests were sent in the order of their numbers, which are all different.
abbrev pub Ascends : List Message → Type 0
Ascends [] = Unit
Ascends (m ∷ ms) = All (λ (x : Message). m.sequence < x.sequence) ms × Ascends ms

-- Each number that was given to a request is below the next one.
abbrev pub IsNumbered : GameClient → Type 0
IsNumbered c = Ascends c.sent × All (λ (m : Message). m.sequence < c.next_sequence) c.sent

Ascends-append :
    (ms : List Message) (r : Message)
    → Ascends ms
    → All (λ (m : Message). m.sequence < r.sequence) ms
    → Ascends (ms ++ r ∷ [])
Ascends-append [] r a b = (tt, tt)
Ascends-append (m ∷ ms) r a b = (
  All-append (λ (x : Message). m.sequence < x.sequence) ms (r ∷ []) a.0 (b.0, tt),
  Ascends-append ms r a.1 b.1,
)

raise :
    (n : ℕ) (ms : List Message)
    → All (λ (m : Message). m.sequence < n) ms
    → All (λ (m : Message). m.sequence < suc n) ms
raise n [] h = tt
raise n (m ∷ ms) h = (omega (arith, h.0), raise n ms h.1)

Sends-IsNumbered :
    (m : Message) (c : GameClient) {d : GameClient}
    → m.sequence ≡ c.next_sequence
    → IsNumbered c
    → Sends m (record c { next_sequence = suc c.next_sequence }) d
    → IsNumbered d
Sends-IsNumbered m c {d} e h (sends_none k) =
    rw (k.sent_same, k.next_same) (h.0, raise c.next_sequence c.sent h.1)
Sends-IsNumbered m c {d} e h (sends_one k) =
    let below : All (λ (x : Message). x.sequence < m.sequence) c.sent = rw e h.1 in
    let P = λ (x : Message). x.sequence < suc c.next_sequence in
    rw (k.sent_same, k.next_same)
      (
        Ascends-append c.sent m h.0 below,
        All-append P c.sent (m ∷ []) (raise c.next_sequence c.sent h.1) (omega (arith, e), tt),
      )

answer_click-client :
    (n : NetworkController) (out : GameClient × Option Message)
    → (answer_click n out).0.client ≡ out.0
answer_click-client n (c, none) = refl
answer_click-client n (c, some m) = ground arith

-- What a controller's connection has sent is numbered.
pub record Counts (out : NetworkController × ControllerResult) : Type 0 where
  pub numbered : IsNumbered out.0.client

counted : {out : NetworkController × ControllerResult} → IsNumbered out.0.client → Counts out
counted h = record { numbered = h }

send_request-Counts :
    (net : Network) (type : MessageType) (source destination : Position) (n : NetworkController)
    → IsNumbered n.client
    → Counts (send_request net type source destination n)
unfolding send_request
send_request-Counts net type source destination n h =
    let m = request_of type n.client.next_sequence source destination n in
    let c = (create_sequence n.client).0 in
    let started = record n { client = c } in
    let last = answer_click started (exchange net m c) in
    let lost : NetworkController × ControllerResult = result false Reason.network_error n in
    if-cases Counts (not n.client.game_started)
      (result false Reason.waiting_for_opponent (select none n))
      (if not n.client.connected then lost else last) (λ _. counted h)
      (λ _.
        if-cases Counts (not n.client.connected) lost last (λ _. counted h)
          (λ _. counted (
            rw (answer_click-client started (exchange net m c))
              (Sends-IsNumbered m n.client refl h (exchange-Sends net m c)))))

pending-IsNumbered :
    (n : NetworkController) → IsNumbered n.client → IsNumbered (apply_pending_updates n).0.client
pending-IsNumbered n h = rw ((apply_pending_updates-Drains n).0) h

ClickEnds-Counts :
    (net : Network) (x y : ℤ) (n : NetworkController) {out : NetworkController × ControllerResult}
    → IsNumbered n.client
    → ClickEnds net x y n out
    → Counts out
ClickEnds-Counts net x y n h (jumps source _) =
    send_request-Counts net jump_request source source n h
ClickEnds-Counts net x y n h (moves source cell _ _ _ _) =
    send_request-Counts net move_request source cell n h
ClickEnds-Counts net x y n h (waits _) = counted h
ClickEnds-Counts net x y n h (unshown _ _) = counted h
ClickEnds-Counts net x y n h (over _ _ _) = counted h
ClickEnds-Counts net x y n h (outside _ _) = counted h
ClickEnds-Counts net x y n h (selects _ _ _) = counted h
ClickEnds-Counts net x y n h (ignores _ _ _ _) = counted h
ClickEnds-Counts net x y n h (reselects _ _ _ _ _ _ _) = counted h
ClickEnds-Counts net x y n h (drops _ _ _ _ _ _) = counted h

jump_cell-Counts :
    (net : Network) (cell : Option Position) (n : NetworkController)
    → IsNumbered n.client
    → Counts (jump_cell net cell n)
jump_cell-Counts net none n h = counted h
jump_cell-Counts net (some cell) n h =
    if-cases Counts (not (is_owned_piece (find_piece_at cell n.game_state) n))
      (result false Reason.not_your_piece (select none n))
      (send_request net jump_request cell cell n) (λ _. counted h)
      (λ _. send_request-Counts net jump_request cell cell n h)

with_game-Counts :
    (action : NetworkController → NetworkController × ControllerResult) (n : NetworkController)
    → IsNumbered n.client
    → Counts (action n)
    → Counts (with_game action n)
unfolding with_game
with_game-Counts action n h k =
    let Out : Type 0 = NetworkController × ControllerResult in
    let running : Out =
      if is_game_over n.game_state
      then result false Reason.game_over (select none n)
      else action n in
    let ready : Out =
      if not n.game_state.initialized
      then result false Reason.client_state_not_initialized n
      else running in
    if-cases Counts (not n.client.game_started)
      (result false Reason.waiting_for_opponent (select none n)) ready (λ _. counted h)
      (λ _.
        if-cases Counts (not n.game_state.initialized)
          (result false Reason.client_state_not_initialized n) running (λ _. counted h)
          (λ _.
            if-cases Counts (is_game_over n.game_state)
              (result false Reason.game_over (select none n)) (action n) (λ _. counted h) (λ _. k)))

-- What a player does, and what arrives in between.
pub data PlayerEvent : Type 0 where
  clicks_on : Network → (x y : ℤ) → PlayerEvent
  jumps_on : Network → (x y : ℤ) → PlayerEvent
  receives : List Message → PlayerEvent

abbrev pub act : PlayerEvent → NetworkController → NetworkController
act (clicks_on net x y) n = (click net x y n).0
act (jumps_on net x y) n = (jump net x y n).0
act (receives ms) n = record n { client = receive_messages ms n.client }

abbrev pub act_all : List PlayerEvent → NetworkController → NetworkController
act_all [] n = n
act_all (e ∷ es) n = act_all es (act e n)

act-IsNumbered :
    (e : PlayerEvent) (n : NetworkController) → IsNumbered n.client → IsNumbered (act e n).client
unfolding jump
act-IsNumbered (clicks_on net x y) n h =
    (ClickEnds-Counts net x y (apply_pending_updates n).0 (pending-IsNumbered n h)
      (click-Ends net x y n)).numbered
act-IsNumbered (jumps_on net x y) n h =
    let m = (apply_pending_updates n).0 in
    let k = pending-IsNumbered n h in
    (with_game-Counts (λ (m : NetworkController). jump_cell net (map_click_to_cell x y m) m) m k
      (jump_cell-Counts net (map_click_to_cell x y m) m k)).numbered
act-IsNumbered (receives ms) n h =
    let k = receive_messages-SameSent ms n.client in rw (k.sent_same, k.next_same) h

-- Whatever a player clicks on, whatever the network does to the requests and whatever arrives in
-- between: the requests that are sent have ascending numbers, so that no two have the same, and the
-- next number is above all of them.
pub act_all-IsNumbered :
    (es : List PlayerEvent) (n : NetworkController)
    → IsNumbered n.client
    → IsNumbered (act_all es n).client
act_all-IsNumbered [] n h = h
act_all-IsNumbered (e ∷ es) n h = act_all-IsNumbered es (act e n) (act-IsNumbered e n h)

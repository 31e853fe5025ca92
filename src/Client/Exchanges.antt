-- ===== src/Client/Exchanges.antt =====
-- GameClient.cpp and NetworkController.cpp: a request over a connection that works.
use ctd_tamar.Common.{
  ℕ, ◌≡◌, refl, sym, ◌∙◌, ap, Bool, true, false, not, ◌&&◌, none, some, List, [], ◌∷◌, ◌++◌, ◌==◌,
  if◌then◌else◌, All, if-cases, if-true, if-false, &&-eq-true, arith,
}
use mathlib.Core.List.{append_assoc, append-nil}
use ctd_tamar.Core.Results.{ControllerResult}
use ctd_tamar.Messaging.Snapshot.{
  Message, MessageType, game_state_updated, move_accepted, move_rejected,
}
use ctd_tamar.Client.GameState.{apply_message}
use ctd_tamar.Client.GameClient.{
  GameClient, learn_names, receive_message, receive_messages, send, take_first, take_response,
  put_back, is_response, is_matching_response, receive_by_type, names_players,
}
use ctd_tamar.Client.NetworkController.{NetworkController, Network, exchange, answer_click}

-- The messages that change nothing of a connection but its queue.
abbrev pub is_plain : MessageType → Bool
is_plain game_state_updated = true
is_plain t = is_response t

-- A connection after messages of these types: they are in the queue, and it goes on.
abbrev pub Queued : GameClient → List Message → GameClient → Type 0
Queued c ms d =
    (d.incoming_messages ≡ c.incoming_messages ++ ms)
    × (d.connected ≡ true)
    × (d.stop_requested ≡ false)

-- The names that a message carries change nothing else.
learned :
    (m : Message) (c : GameClient)
    → c.connected ≡ true
    → c.stop_requested ≡ false
    → Queued c [] (learn_names m c)
unfolding learn_names
learned m c o s =
    let e = sym (append-nil c.incoming_messages) in
    if-cases (Queued c []) m.has_snapshot _ _ (λ _. (e, o, s))
      (λ _. if-cases (Queued c []) (names_players m.type) _ c (λ _. (e, o, s)) (λ _. (e, o, s)))

receive_by_type-Queued :
    (t : MessageType) (m : Message) (c : GameClient)
    → is_plain t ≡ true
    → c.connected ≡ true
    → c.stop_requested ≡ false
    → Queued c (m ∷ []) (receive_by_type t m c)
receive_by_type-Queued game_state_updated m c p o s = (refl, o, s)
receive_by_type-Queued move_accepted m c p o s = (refl, o, s)
receive_by_type-Queued move_rejected m c p o s = (refl, o, s)
receive_by_type-Queued _ m c p o s = absurd (ground arith)

receive_message-Queued :
    (m : Message) (c : GameClient)
    → is_plain m.type ≡ true
    → c.connected ≡ true
    → c.stop_requested ≡ false
    → Queued c (m ∷ []) (receive_message m c)
unfolding receive_message
receive_message-Queued m c p o s =
    let named = learned m c o s in
    let d = learn_names m c in
    let received = receive_by_type-Queued m.type m d p named.1 named.2 in
    (
      received.0 ∙ ap (λ q. q ++ m ∷ []) (named.0 ∙ append-nil c.incoming_messages),
      received.1,
      received.2,
    )

receive_messages-next :
    (m : Message) (ms : List Message) (c : GameClient)
    → c.connected ≡ true
    → c.stop_requested ≡ false
    → receive_messages (m ∷ ms) c ≡ receive_messages ms (receive_message m c)
unfolding receive_messages
receive_messages-next m ms c o s =
    ap (receive_messages ms) (if-true (c.connected && not c.stop_requested) _ _ (rw (o, s) refl))

receive_messages-Queued :
    (ms : List Message) (c : GameClient)
    → All (λ (m : Message). is_plain m.type ≡ true) ms
    → c.connected ≡ true
    → c.stop_requested ≡ false
    → Queued c ms (receive_messages ms c)
unfolding receive_messages
receive_messages-Queued [] c p o s = (sym (append-nil c.incoming_messages), o, s)
receive_messages-Queued (m ∷ ms) c p o s =
    let one = receive_message-Queued m c p.0 o s in
    let rest = receive_messages-Queued ms (receive_message m c) p.1 one.1 one.2 in
    rw (receive_messages-next m ms c o s) (
      rest.0 ∙ ap (λ q. q ++ ms) one.0 ∙ append_assoc c.incoming_messages (m ∷ []) ms,
      rest.1,
      rest.2,
    )

take_first-found :
    (test : Message → Bool) (before after : List Message) (r : Message)
    → All (λ x. test x ≡ false) before
    → test r ≡ true
    → take_first test (before ++ r ∷ after) ≡ some (r, before ++ after)
unfolding take_first
take_first-found test [] after r h t = ground arith
take_first-found test (x ∷ before) after r h t =
    rw (h.0, take_first-found test before after r h.1 t) refl

take_response-found :
    (q : ℕ) (d : GameClient) (before : List Message) (r : Message)
    → d.incoming_messages ≡ before ++ r ∷ []
    → All (λ x. is_matching_response q x ≡ false) before
    → is_matching_response q r ≡ true
    → take_response q d ≡ (record d { incoming_messages = before ++ [] }, some r)
unfolding take_response
take_response-found q d before r e a t = ap (put_back d) (
    ap (take_first (is_matching_response q)) e
    ∙ take_first-found (is_matching_response q) before [] r a t)

send-through :
    (m : Message) (c : GameClient)
    → c.connected ≡ true
    → send false m c ≡ (record c { sent = c.sent ++ m ∷ [] }, true)
unfolding send
send-through m c o = if-false (not c.connected) _ _ (ap not o)

exchange-through :
    (net : Network) (m : Message) (c : GameClient)
    → net.fails m ≡ false
    → c.connected ≡ true
    → exchange net m c
      ≡ take_response m.sequence
          (receive_messages (net.arrives m) (record c { sent = c.sent ++ m ∷ [] }))
unfolding exchange
exchange-through net m c f o =
    ap
      (λ (out : GameClient × Bool).
        if not out.1
        then (out.0, none)
        else take_response m.sequence (receive_messages (net.arrives m) out.0))
      (ap (λ b. send b m c) f ∙ send-through m c o)

no_match :
    (q : ℕ) (waiting updates : List Message)
    → All (λ x. is_matching_response q x ≡ false) waiting
    → All (λ (m : Message). m.type ≡ game_state_updated) updates
    → All (λ x. is_matching_response q x ≡ false) (waiting ++ updates)
no_match q [] [] w u = tt
no_match q [] (x ∷ updates) w u = (ground (arith, u.0), no_match q [] updates w u.1)
no_match q (x ∷ waiting) updates w u = (w.0, no_match q waiting updates w.1 u)

plain_response : (r : Message) → is_response r.type ≡ true → is_plain r.type ≡ true
plain_response r h = ground arith

only_plain :
    (updates : List Message) (r : Message)
    → All (λ (m : Message). m.type ≡ game_state_updated) updates
    → is_response r.type ≡ true
    → All (λ (m : Message). is_plain m.type ≡ true) (updates ++ r ∷ [])
only_plain [] r u h = (plain_response r h, tt)
only_plain (x ∷ updates) r u h = (rw (u.0) refl, only_plain updates r u.1 h)

abbrev pub IsFresh : NetworkController → Type 0
IsFresh n =
    All (λ x. is_matching_response n.client.next_sequence x ≡ false) n.client.incoming_messages

-- What a request leaves: no selection, the server's verdict, its state, and the updates for later.
abbrev pub Concludes :
    NetworkController → List Message → Message → NetworkController × ControllerResult → Type 0
Concludes n updates r out =
    (out.1 ≡ record { handled = r.accepted; reason = r.reason })
    × (out.0.selected_cell ≡ none)
    × (out.0.game_state ≡ (apply_message r n.game_state).0)
    × (out.0.client.incoming_messages ≡ n.client.incoming_messages ++ updates)

pub answer_click-Concludes :
    (n : NetworkController) (c d : GameClient) (updates : List Message) (r : Message)
    → d.incoming_messages ≡ n.client.incoming_messages ++ updates
    → r.has_snapshot ≡ true
    → Concludes n updates r (answer_click (record n { client = c }) (d, some r))
answer_click-Concludes n c d updates r e h =
    if-cases (Concludes n updates r) (not r.has_snapshot) _ _ (λ b. absurd (ground arith))
      (λ _. (refl, refl, refl, e))

pub exchange-received :
    (net : Network) (m : Message) (c : GameClient) (updates : List Message) (r : Message)
    → net.fails m ≡ false
    → net.arrives m ≡ updates ++ r ∷ []
    → c.connected ≡ true
    → c.stop_requested ≡ false
    → All (λ x. is_matching_response m.sequence x ≡ false) c.incoming_messages
    → All (λ (x : Message). x.type ≡ game_state_updated) updates
    → is_matching_response m.sequence r ≡ true
    → (d : GameClient) × (exchange net m c ≡ (d, some r))
      × (d.incoming_messages ≡ c.incoming_messages ++ updates)
exchange-received net m c updates r f a o s fresh u t =
    let out = record c { sent = c.sent ++ m ∷ [] } in
    let p : is_response r.type ≡ true = (&&-eq-true (r.sequence == m.sequence) _ t).1 in
    let queued = receive_messages-Queued (updates ++ r ∷ []) out (only_plain updates r u p) o s in
    let d = receive_messages (updates ++ r ∷ []) out in
    let before = c.incoming_messages ++ updates in
    let found =
      take_response-found m.sequence d before r
        (queued.0 ∙ sym (append_assoc c.incoming_messages updates (r ∷ [])))
        (no_match m.sequence c.incoming_messages updates fresh u) t in
    (
      record d { incoming_messages = before ++ [] },
      exchange-through net m c f o
          ∙ ap (λ ms. take_response m.sequence (receive_messages ms out)) a
          ∙ found,
      append-nil before,
    )

-- ===== src/Client/Pending.antt =====
-- `applyPendingUpdates` of NetworkController.cpp: what its loop does to the queue and to the game.
use ctd_tamar.Common.{
  ℕ, zero, suc, ◌≤◌, ◌≡◌, refl, ap, Bool, false, not, ◌||◌, Option, none, some, List, [], ◌∷◌,
  length, Bool-cases, Option-cases, inl, inr, keep_if, All, arith,
}
use ctd_tamar.Messaging.Snapshot.{Message}
use ctd_tamar.Client.GameState.{ClientGameState, apply_message, apply_all}
use ctd_tamar.Client.GameClient.{GameClient, take_first, try_receive_update, is_response}
use ctd_tamar.Client.NetworkController.{
  NetworkController, apply_update, drain, check_selection, apply_pending_updates,
}
use ctd_tamar.Client.Incoming.{take_first-none}

-- A message that the server sends of its own accord, and one that answers a request.
abbrev pub is_update : Message → Bool
is_update m = not (is_response m.type)

abbrev pub is_answer : Message → Bool
is_answer m = is_response m.type

no_updates :
    (ms : List Message)
    → All (λ x. is_update x ≡ false) ms
    → (keep_if is_update ms ≡ []) × (keep_if is_answer ms ≡ ms)
unfolding keep_if
no_updates [] h = (refl, refl)
no_updates (x ∷ ms) h =
    let rest = no_updates ms h.1 in (ground (arith, rest.0), ground (arith, rest.1))

first_update :
    (ms : List Message) {m : Message} {rest : List Message}
    → take_first is_update ms ≡ some (m, rest)
    → (keep_if is_update ms ≡ m ∷ keep_if is_update rest)
      × (keep_if is_answer ms ≡ keep_if is_answer rest)
      × (length ms ≡ suc (length rest))
unfolding take_first keep_if
first_update [] h = cc
first_update (x ∷ ms) {m} {rest} h = elim (Bool-cases (is_update x)) [
  | inl y ↦ (ground arith, ground arith, ground arith)
  | inr n ↦ elim (Option-cases (take_first is_update ms)) [
    | inl none_there ↦ absurd (ground arith)
    | inr ((z, others), found) ↦
        let below = first_update ms found in
        (ground (arith, below.0), ground (arith, below.1), ground (arith, below.2))
  ]
]

received :
    (c : GameClient) {m : Message} {rest : List Message}
    → take_first is_update c.incoming_messages ≡ some (m, rest)
    → try_receive_update c ≡ (record c { incoming_messages = rest }, some m)
unfolding try_receive_update
received c e = rw (e, try_receive_update) refl

drain-empty :
    (fuel : ℕ) (c : GameClient) (s : ClientGameState × Bool)
    → take_first is_update c.incoming_messages ≡ none
    → drain (suc fuel) c s ≡ (c, s)
unfolding drain try_receive_update
drain-empty fuel c (g, changed) e = rw (e, drain, try_receive_update) refl

drain-step :
    (fuel : ℕ) (c : GameClient) (s : ClientGameState × Bool) {m : Message} {rest : List Message}
    → take_first is_update c.incoming_messages ≡ some (m, rest)
    → drain (suc fuel) c s
      ≡ drain fuel
          (record c { incoming_messages = rest })
          ((apply_message m s.0).0, s.1 || (apply_message m s.0).1)
unfolding drain
drain-step fuel c (g, changed) e =
    ap
      (λ (out : GameClient × Option Message). elim (apply_update out (g, changed)) [
        | none ↦ (c, (g, changed))
        | some (c', s') ↦ drain fuel c' s'
      ])
      (received c e)

nothing_left :
    (ms : List Message) → length ms ≤ 0 → (keep_if is_update ms ≡ []) × (keep_if is_answer ms ≡ ms)
unfolding keep_if
nothing_left [] l = (refl, refl)
nothing_left (x ∷ ms) l = absurd (omega arith)

-- What the loop leaves: the answers in the queue, and the updates in the game.
abbrev pub Drains : GameClient → ClientGameState → GameClient → ClientGameState → Type 0
Drains c g c' g' =
    (c' ≡ record c { incoming_messages = keep_if is_answer c.incoming_messages })
    × (g' ≡ apply_all (keep_if is_update c.incoming_messages) g)

settled :
    (c : GameClient) (g : ClientGameState)
    → (keep_if is_update c.incoming_messages ≡ [])
      × (keep_if is_answer c.incoming_messages ≡ c.incoming_messages)
    → Drains c g c g
settled c g (u, a) = (rw a refl, rw u refl)

drain-Drains :
    (fuel : ℕ) (c : GameClient) (s : ClientGameState × Bool)
    → length c.incoming_messages ≤ fuel
    → Drains c s.0 (drain fuel c s).0 (drain fuel c s).1.0
unfolding drain
drain-Drains zero c s l = settled c s.0 (nothing_left c.incoming_messages l)
drain-Drains (suc fuel) c s l = elim (Option-cases (take_first is_update c.incoming_messages)) [
  | inl n ↦ rw (drain-empty fuel c s n) (
      settled c s.0
        (no_updates c.incoming_messages (take_first-none is_update c.incoming_messages n)))
  | inr ((m, rest), e) ↦
      let f = first_update c.incoming_messages e in
      let later =
        drain-Drains fuel (record c { incoming_messages = rest })
          ((apply_message m s.0).0, s.1 || (apply_message m s.0).1) (omega (arith, f.2)) in
      rw (drain-step fuel c s e, f.0, f.1) later
]

check_selection-keeps :
    (changed : Bool) (n : NetworkController)
    → ((check_selection changed n).client ≡ n.client)
      × ((check_selection changed n).game_state ≡ n.game_state)
unfolding check_selection
check_selection-keeps changed n = ground arith

-- `applyPendingUpdates` ends with no update left: it applies to the game all of those that wait, in
-- their order, and leaves the answers in the queue, in theirs, for the request that waits for them.
pub apply_pending_updates-Drains :
    (n : NetworkController)
    → let out = (apply_pending_updates n).0 in
      Drains n.client n.game_state out.client out.game_state
unfolding apply_pending_updates
apply_pending_updates-Drains n =
    let fuel = length n.client.incoming_messages in
    let out = drain fuel n.client (n.game_state, false) in
    let kept = check_selection-keeps out.1.1 (record n { client = out.0; game_state = out.1.0 }) in
    rw (kept.0, kept.1) (drain-Drains fuel n.client (n.game_state, false) (omega arith))

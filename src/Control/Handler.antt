-- ===== src/Control/Handler.antt =====
-- server/chess_server/src/Messaging/EngineMessageHandler.cpp.
use ctd_tamar.Common.{
  ℕ, zero, suc, ◌≡◌, refl, Bool, true, false, Option, none, some, List, [], ◌∷◌, ◌++◌, length,
  arith, ◌<◌,
}
use mathlib.Core.List.{append-nil, append_assoc}
use ctd_tamar.Messaging.Snapshot.{Message}
use ctd_tamar.Messaging.Bus.{MessageBus, receive_for_engine, send_to_client}
use ctd_tamar.Engine.State.{GameEngine, PieceConfigReader}
use ctd_tamar.Engine.Requests.{handle_message}
use ctd_tamar.Control.Builder.{build}

-- The response with the snapshot of the engine that it leaves.
abbrev pub with_snapshot : GameEngine × Message → Message
with_snapshot (g, m) = record m { has_snapshot = true; snapshot = build g }

-- `processNextMessage`: the queue is tested before it is read, so it does not throw.
unfoldable pub process_next_message :
    PieceConfigReader → GameEngine × MessageBus → (GameEngine × MessageBus) × Bool
process_next_message load (g, b) = elim (receive_for_engine b) [
  | none ↦ ((g, b), false)
  | some (request, rest) ↦
      let out = handle_message load request g in
      ((out.0, send_to_client (with_snapshot out) rest), true)
]

-- The loop of `processAllMessages`; `none` means that the fuel ran out.
unfoldable pub process_all_messages :
    ℕ → PieceConfigReader → GameEngine × MessageBus → Option (GameEngine × MessageBus)
unfolding process_next_message
process_all_messages zero load s = none
process_all_messages (suc fuel) load s =
    let next = process_next_message load s in
    let rest = process_all_messages fuel load next.0 in
    elim next.1 [ true ↦ rest | false ↦ some next.0 ]

-- What a list of requests makes of an engine, and the responses to them, in order.
abbrev pub answer_all : PieceConfigReader → List Message → GameEngine → GameEngine × List Message
answer_all load [] g = (g, [])
answer_all load (m ∷ ms) g =
    let out = handle_message load m g in
    let rest = answer_all load ms out.0 in (rest.0, with_snapshot out ∷ rest.1)

-- Fuel beyond the number of waiting requests answers each of them once and in order: the queue of
-- requests is empty afterwards, and the responses stand behind those that waited already.
pub process_all_messages-answers :
    (load : PieceConfigReader) (fuel : ℕ) (waiting sent : List Message) (g : GameEngine)
    → length waiting < fuel
    → process_all_messages fuel load
        (g, record { client_to_engine = waiting; engine_to_client = sent })
      ≡ some (
        (answer_all load waiting g).0,
        record { client_to_engine = []; engine_to_client = sent ++ (answer_all load waiting g).1 },
      )
unfolding process_all_messages
process_all_messages-answers load zero waiting sent g h = elim h [ ]
process_all_messages-answers load (suc fuel) [] sent g h = rw (append-nil sent) refl
process_all_messages-answers load (suc fuel) (m ∷ ms) sent g h =
    let out = handle_message load m g in
    let response = with_snapshot out in
    rw
      (
        process_all_messages-answers load fuel ms (sent ++ response ∷ []) out.0 (omega (arith, h)),
        append_assoc sent (response ∷ []) (answer_all load ms out.0).1,
      )
      refl

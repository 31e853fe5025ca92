-- ===== src/Client/Incoming.antt =====
-- The queue of GameClient.cpp: what is taken off it and what stays.
use ctd_tamar.Common.{
  ℕ, ◌≡◌, Bool, true, false, Option, none, some, List, [], ◌∷◌, ◌++◌, Bool-cases, Option-cases, inl,
  inr, All, arith,
}
use ctd_tamar.Messaging.Snapshot.{Message}
use ctd_tamar.Client.GameClient.{GameClient, take_first, take_response, is_matching_response}

-- A message that is taken off a list is the first that passes, and the others keep their order.
abbrev pub Taken : (Message → Bool) → List Message → Message → List Message → Type 0
Taken test ms m rest =
    (before after : List Message) × (ms ≡ before ++ m ∷ after)
    × (rest ≡ before ++ after)
    × All (λ x. test x ≡ false) before
    × (test m ≡ true)

take_first-Taken :
    (test : Message → Bool) (ms : List Message) {m : Message} {rest : List Message}
    → take_first test ms ≡ some (m, rest)
    → Taken test ms m rest
unfolding take_first
take_first-Taken test [] h = cc
take_first-Taken test (x ∷ ms) {m} {rest} h = elim (Bool-cases (test x)) [
  | inl y ↦ ([], ms, ground arith, ground arith, tt, ground arith)
  | inr n ↦ elim (Option-cases (take_first test ms)) [
    | inl none_there ↦ absurd (ground arith)
    | inr ((z, others), found) ↦
        let (before, after, e, f, b, t) = take_first-Taken test ms found in
        (x ∷ before, after, ground arith, ground arith, (n, b), ground arith)
  ]
]

pub take_first-none :
    (test : Message → Bool) (ms : List Message)
    → take_first test ms ≡ none
    → All (λ x. test x ≡ false) ms
unfolding take_first
take_first-none test [] h = tt
take_first-none test (x ∷ ms) h = elim (Bool-cases (test x)) [
  | inl y ↦ absurd (ground arith)
  | inr n ↦ elim (Option-cases (take_first test ms)) [
    | inl none_there ↦ (n, take_first-none test ms none_there)
    | inr ((z, others), found) ↦ absurd (ground arith)
  ]
]

-- How `waitForResponse` ends.
pub data Waited (sequence : ℕ) (c : GameClient) : GameClient × Option Message → Type 0 where
  answered :
      (m : Message) (rest : List Message)
      → Taken (is_matching_response sequence) c.incoming_messages m rest
      → Waited sequence c (record c { incoming_messages = rest }, some m)
  unanswered :
      All (λ x. is_matching_response sequence x ≡ false) c.incoming_messages
      → Waited sequence c (c, none)

-- `waitForResponse` returns the first message that answers the sequence number and leaves all the
-- others in their order; it throws, and changes nothing, exactly when no message answers it.
pub take_response-Waited :
    (sequence : ℕ) (c : GameClient) → Waited sequence c (take_response sequence c)
unfolding take_response
take_response-Waited sequence c =
    elim (Option-cases (take_first (is_matching_response sequence) c.incoming_messages)) [
      | inl n ↦ rw n (unanswered (take_first-none _ c.incoming_messages n))
      | inr ((m, rest), e) ↦ rw e (answered m rest (take_first-Taken _ c.incoming_messages e))
    ]

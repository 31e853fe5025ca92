-- ===== src/Messaging/EventBus.antt =====
-- server/chess_server/src/Messaging/EventBus.cpp, over the state that its handlers change. The
-- hash map of subscriptions is a list, oldest first; no handler is null, and each call is one step.
use ctd_tamar.Common.{
  ℕ, suc, Bool, true, false, not, ◌==◌, List, [], ◌∷◌, ◌++◌, if◌then◌else◌, is_some, find?, keep_if,
}
use ctd_tamar.Messaging.Event.{
  GameEventType, GameEvent, move_completed, score_updated, game_started, game_ended,
  sound_requested,
}

abbrev pub type_eq : GameEventType → GameEventType → Bool
type_eq move_completed move_completed = true
type_eq score_updated score_updated = true
type_eq game_started game_started = true
type_eq game_ended game_ended = true
type_eq sound_requested sound_requested = true
type_eq _ _ = false

pub record Subscription (S : Type 0) : Type 0 where
  pub id : ℕ
  pub type : GameEventType
  pub handler : GameEvent → S → S

pub record EventBus (S : Type 0) : Type 0 where
  pub next_id : ℕ
  pub subscriptions : List (Subscription S)

abbrev pub new : {S : Type 0} → EventBus S
new = record { next_id = 1; subscriptions = [] }

module _ {S : Type 0} where
  unfoldable pub subscribe : GameEventType → (GameEvent → S → S) → EventBus S → EventBus S × ℕ
  subscribe t f b = (
    record {
      next_id = suc b.next_id;
      subscriptions = b.subscriptions ++ record { id = b.next_id; type = t; handler = f } ∷ [];
    },
    b.next_id,
  )

  unfoldable pub unsubscribe : ℕ → EventBus S → EventBus S × Bool
  unsubscribe i b = (
    record b { subscriptions = keep_if (λ (x : Subscription S). not (x.id == i)) b.subscriptions },
    is_some (find? (λ (x : Subscription S). x.id == i) b.subscriptions),
  )

  -- The handlers of the event's type, one after another.
  unfoldable pub call_handlers : GameEvent → List (Subscription S) → S → S
  call_handlers e [] s = s
  call_handlers e (x ∷ xs) s =
      call_handlers e xs (if type_eq x.type e.type then x.handler e s else s)

  abbrev pub publish : GameEvent → EventBus S → S → S
  publish e b s = call_handlers e b.subscriptions s

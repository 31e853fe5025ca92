-- ===== src/Messaging/Counts.antt =====
-- What the subscribers of GameEventSubscribers.cpp have counted after any events.
use ctd_tamar.Common.{
  ℕ, ◌+◌, ◌≤◌, ◌≡◌, refl, sym, subst, Bool, true, false, List, [], ◌∷◌, All, arith, if◌then◌else◌,
}
use ctd_tamar.Messaging.Event.{
  GameEventType, GameEvent, move_completed, score_updated, game_started, game_ended,
  sound_requested, default_event,
}
use ctd_tamar.Messaging.EventBus.{publish, call_handlers, type_eq}
use ctd_tamar.Messaging.Subscribers.{
  Subscribers, standard_bus, on_move_completed, on_score_updated, on_game_started, on_game_ended,
  mark_ended, publish_started, publish_ended, ended_event, Signal, event, start, finish, receive,
  receive_all,
}

-- What each type of event does to the subscribers.
abbrev pub deliver : GameEventType → GameEvent → Subscribers → Subscribers
deliver move_completed e s = on_move_completed e s
deliver score_updated e s = on_score_updated e s
deliver game_started e s = on_game_started e s
deliver game_ended e s = mark_ended e (on_game_ended e s)
deliver sound_requested e s = s

handlers_deliver :
    (t : GameEventType) (e : GameEvent) (s : Subscribers)
    → e.type ≡ t
    → publish e standard_bus s ≡ deliver t e s
unfolding standard_bus call_handlers
handlers_deliver move_completed e s h = rw h refl
handlers_deliver score_updated e s h = rw h refl
handlers_deliver game_started e s h = rw h refl
handlers_deliver game_ended e s h = rw h refl
handlers_deliver sound_requested e s h = rw h refl

publish-deliver : (e : GameEvent) (s : Subscribers) → publish e standard_bus s ≡ deliver e.type e s
publish-deliver e s = handlers_deliver e.type e s refl

-- The number of events of a type.
abbrev pub tally : GameEventType → List GameEvent → ℕ
tally t [] = 0
tally t (e ∷ es) = (if type_eq t e.type then 1 else 0) + tally t es

abbrev pub publish_all : List GameEvent → Subscribers → Subscribers
publish_all [] s = s
publish_all (e ∷ es) s = publish_all es (publish e standard_bus s)

-- The counters after further events.
abbrev pub Counted : List GameEvent → Subscribers → Subscribers → Type 0
Counted es s t =
    (t.completed_move_count ≡ s.completed_move_count + tally move_completed es)
    × (t.update_count ≡ s.update_count + tally score_updated es)
    × (t.started_count ≡ s.started_count + tally game_started es)
    × (t.ended_count ≡ s.ended_count + tally game_ended es)

deliver-Counted :
    (t : GameEventType) (e : GameEvent) (es : List GameEvent) (s u : Subscribers)
    → e.type ≡ t
    → Counted es (deliver t e s) u
    → Counted (e ∷ es) s u
deliver-Counted move_completed e es s u h c =
    rw h (omega (arith, c.0), omega (arith, c.1), omega (arith, c.2), omega (arith, c.3))
deliver-Counted score_updated e es s u h c =
    rw h (omega (arith, c.0), omega (arith, c.1), omega (arith, c.2), omega (arith, c.3))
deliver-Counted game_started e es s u h c =
    rw h (omega (arith, c.0), omega (arith, c.1), omega (arith, c.2), omega (arith, c.3))
deliver-Counted game_ended e es s u h c =
    rw h (omega (arith, c.0), omega (arith, c.1), omega (arith, c.2), omega (arith, c.3))
deliver-Counted sound_requested e es s u h c =
    rw h (omega (arith, c.0), omega (arith, c.1), omega (arith, c.2), omega (arith, c.3))

-- Events published on the bus of the subscribers are counted, each by the counter of its type.
pub publish_all-Counted : (es : List GameEvent) (s : Subscribers) → Counted es s (publish_all es s)
publish_all-Counted [] s = (omega arith, omega arith, omega arith, omega arith)
publish_all-Counted (e ∷ es) s =
    let next = publish e standard_bus s in
    deliver-Counted e.type e es s (publish_all es next) refl (
      subst (λ n. Counted es n (publish_all es next)) (publish-deliver e s)
        (publish_all-Counted es next))

-- The engine does not tell that a game starts.
abbrev pub IsSignal : Signal → Type 0
IsSignal (event e) = type_eq game_started e.type ≡ false
IsSignal _ = Unit

-- A start is told at most once, and not before it is marked.
abbrev pub StartsOnce : Subscribers → Type 0
StartsOnce s = (s.started_count ≤ 1) × (s.started ≡ false → s.started_count ≡ 0)

deliver-StartsOnce :
    (t : GameEventType) (e : GameEvent) (s : Subscribers)
    → type_eq game_started t ≡ false
    → StartsOnce s
    → StartsOnce (deliver t e s)
deliver-StartsOnce move_completed e s n h = h
deliver-StartsOnce score_updated e s n h = h
deliver-StartsOnce game_started e s n h = absurd (ground (arith, n))
deliver-StartsOnce game_ended e s n h = h
deliver-StartsOnce sound_requested e s n h = h

start-StartsOnce :
    (b : Bool) (s : Subscribers)
    → s.started ≡ b
    → StartsOnce s
    → StartsOnce (
        if b
        then s
        else publish (default_event game_started) standard_bus (record s { started = true }))
start-StartsOnce true s e h = h
start-StartsOnce false s e h =
    let marked : Subscribers = record s { started = true } in
    subst StartsOnce (sym (publish-deliver (default_event game_started) marked))
      (omega (arith, h.1 e), λ f. absurd (ground (arith, f)))

finish-StartsOnce :
    (b : Bool) (e : GameEvent) (s : Subscribers)
    → e.type ≡ game_ended
    → StartsOnce s
    → StartsOnce (if b then s else publish e standard_bus (record s { ended = true }))
finish-StartsOnce true e s t h = h
finish-StartsOnce false e s t h =
    let marked : Subscribers = record s { ended = true } in
    subst StartsOnce (sym (handlers_deliver game_ended e marked t)) h

receive-StartsOnce :
    (x : Signal) (s : Subscribers) → IsSignal x → StartsOnce s → StartsOnce (receive x s)
unfolding receive publish_started publish_ended
receive-StartsOnce (event e) s n h =
    subst StartsOnce (sym (publish-deliver e s)) (deliver-StartsOnce e.type e s n h)
receive-StartsOnce start s n h = start-StartsOnce s.started s refl h
receive-StartsOnce (finish r w c a b) s n h =
    finish-StartsOnce s.ended (ended_event r w c a b) s refl h

-- However often the start and the end are published, and whatever the engine tells in between, the
-- subscribers hear of at most one start, as long as the publisher is not reset.
pub receive_all-StartsOnce :
    (xs : List Signal) (s : Subscribers)
    → All IsSignal xs
    → StartsOnce s
    → StartsOnce (receive_all xs s)
receive_all-StartsOnce [] s n h = h
receive_all-StartsOnce (x ∷ xs) s n h =
    receive_all-StartsOnce xs (receive x s) n.1 (receive-StartsOnce x s n.0 h)

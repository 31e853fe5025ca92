-- ===== src/Messaging/Subscribers.antt =====
-- server/chess_server/src/Messaging/GameEventSubscribers.cpp: what follows the engine's events.
use ctd_tamar.Common.{ℕ, suc, Bool, true, false, not, List, [], ◌∷◌, if◌then◌else◌}
use ctd_tamar.Core.Piece.{PieceColor}
use ctd_tamar.Core.Results.{Reason}
use ctd_tamar.Messaging.Event.{
  GameEvent, move_completed, score_updated, game_started, game_ended, default_event,
}
use ctd_tamar.Messaging.EventBus.{EventBus, subscribe, publish, call_handlers, type_eq}
use ctd_tamar.Messaging.EventBus

-- The fields of the four classes.
pub record Subscribers : Type 0 where
  pub completed_move_count : ℕ
  pub last_completed_move : GameEvent
  pub update_count : ℕ
  pub white_score : ℕ
  pub black_score : ℕ
  pub started_count : ℕ
  pub ended_count : ℕ
  pub last_ended_event : GameEvent
  pub started : Bool
  pub ended : Bool

abbrev pub new : Subscribers
new = record {
  completed_move_count = 0;
  last_completed_move = default_event move_completed;
  update_count = 0;
  white_score = 0;
  black_score = 0;
  started_count = 0;
  ended_count = 0;
  last_ended_event = default_event move_completed;
  started = false;
  ended = false;
}

abbrev pub on_move_completed : GameEvent → Subscribers → Subscribers
on_move_completed e s = record s {
  completed_move_count = suc s.completed_move_count;
  last_completed_move = e;
}

abbrev pub on_score_updated : GameEvent → Subscribers → Subscribers
on_score_updated e s = record s {
  update_count = suc s.update_count;
  white_score = e.white_score;
  black_score = e.black_score;
}

abbrev pub on_game_started : GameEvent → Subscribers → Subscribers
on_game_started e s = record s { started_count = suc s.started_count }

abbrev pub on_game_ended : GameEvent → Subscribers → Subscribers
on_game_ended e s = record s { ended_count = suc s.ended_count; last_ended_event = e }

abbrev pub mark_ended : GameEvent → Subscribers → Subscribers
mark_ended e s = record s { ended = true }

-- The bus after the four constructors.
unfoldable pub standard_bus : EventBus Subscribers
unfolding subscribe
standard_bus =
    (subscribe game_ended mark_ended
      (subscribe game_ended on_game_ended
        (subscribe game_started on_game_started
          (subscribe score_updated on_score_updated
            (subscribe move_completed on_move_completed EventBus.new).0).0).0).0).0

-- `GameLifecyclePublisher::publishStarted`.
unfoldable pub publish_started : EventBus Subscribers → Subscribers → Subscribers × Bool
publish_started b s = (
  if s.started then s else publish (default_event game_started) b (record s { started = true }),
  not s.started,
)

abbrev pub ended_event : Reason → Bool → PieceColor → ℕ → ℕ → GameEvent
ended_event reason has_winner winner white black = record (default_event game_ended) {
  game_end_reason = reason;
  has_winner = has_winner;
  winner = winner;
  white_score = white;
  black_score = black;
}

-- `GameLifecyclePublisher::publishEnded`.
unfoldable pub publish_ended : GameEvent → EventBus Subscribers → Subscribers → Subscribers × Bool
publish_ended e b s = (if s.ended then s else publish e b (record s { ended = true }), not s.ended)

abbrev pub reset : Subscribers → Subscribers
reset s = record s { started = false; ended = false }

-- What reaches the subscribers: an event of the engine, or a call of the publisher.
pub data Signal : Type 0 where
  event : GameEvent → Signal
  start : Signal
  finish : (reason : Reason) (has_winner : Bool) (winner : PieceColor) (white black : ℕ) → Signal

unfoldable pub receive : Signal → Subscribers → Subscribers
receive (event e) s = publish e standard_bus s
receive start s = (publish_started standard_bus s).0
receive (finish r h w x y) s = (publish_ended (ended_event r h w x y) standard_bus s).0

abbrev pub receive_all : List Signal → Subscribers → Subscribers
receive_all [] s = s
receive_all (x ∷ xs) s = receive_all xs (receive x s)

-- ===== src/Tests/EventTests.antt =====
-- The theorems on the subscribers at a short history.
use ctd_tamar.Common.{refl, true, List, [], ◌∷◌, arith}
use ctd_tamar.Core.Piece.{white}
use ctd_tamar.Core.Results.{king_captured}
use ctd_tamar.Messaging.Event.{GameEvent, default_event, move_completed, game_ended}
use ctd_tamar.Messaging.Subscribers.{Signal, event, start, finish, receive_all}
use ctd_tamar.Messaging.Subscribers
use ctd_tamar.Messaging.Counts.{StartsOnce, receive_all-StartsOnce}

abbrev some_events : List GameEvent
some_events = default_event move_completed ∷ default_event game_ended ∷ []

abbrev some_signals : List Signal
some_signals =
    start ∷ event (default_event move_completed) ∷ start ∷ finish king_captured true white 9 0 ∷ []

receive_all-StartsOnce_example : StartsOnce (receive_all some_signals Subscribers.new)
receive_all-StartsOnce_example =
    receive_all-StartsOnce some_signals Subscribers.new (tt, (refl, (tt, (tt, tt))))
      (omega arith, λ _. refl)

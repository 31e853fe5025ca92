-- ===== src/Server/Closing.antt =====
-- GameServer.cpp: the end of a game whose player did not come back, and the countdown to it.
use ctd_tamar.Common.{
  ℕ, ◌+◌, ◌-◌, ◌/◌, Bool, true, false, not, Option, none, some, List, [], ◌∷◌, ◌++◌, ◌==◌, leb,
  if◌then◌else◌, is_empty_list,
}
use ctd_tamar.Core.Piece.{white}
use ctd_tamar.Core.Results.{Reason}
use ctd_tamar.Messaging.Snapshot.{Message, MessageType, default_message}
use ctd_tamar.Messaging.Bus
use ctd_tamar.Messaging.Subscribers.{publish_ended, ended_event, standard_bus, reset}
use ctd_tamar.Server.State.{GameServer, fresh_engine}
use ctd_tamar.Server.Sessions.{slot_list, send_to, drop_session, send_reconnecting_status}

-- A token that was given out can no longer be used.
abbrev pub expire : List ℕ → List (List ℕ) → List (List ℕ)
expire token expired = if is_empty_list token then expired else token ∷ expired

unfoldable pub begin_closing : GameServer → GameServer
begin_closing s = record s {
  closing_expired_game = true;
  reconnection_pending = false;
  game_started = false;
  expired_reconnect_tokens =
      expire s.black_reconnect_token (expire s.white_reconnect_token s.expired_reconnect_tokens);
}

abbrev pub closed_message : Message
closed_message = record default_message {
  type = MessageType.game_closed;
  accepted = false;
  reason = Reason.opponent_did_not_reconnect;
}

-- Each session is told and disconnected, whether or not it can be reached.
unfoldable pub close_sessions : List ℕ → GameServer → GameServer
unfolding send_to drop_session
close_sessions [] s = s
close_sessions (i ∷ is) s = close_sessions is (drop_session i (send_to i closed_message s).0)

unfoldable pub end_game : Bool → GameServer → GameServer
unfolding publish_ended
end_game was_active s =
    if was_active
    then record s {
      subscribers =
          (publish_ended
            (ended_event Reason.opponent_did_not_reconnect false white s.engine.white_score
              s.engine.black_score)
            standard_bus s.subscribers).0;
    }
    else s

unfoldable pub restart_engine : Bool → GameServer → GameServer
unfolding end_game
restart_engine was_active s = record (end_game was_active s) {
  engine = fresh_engine;
  message_bus = Bus.clear s.message_bus;
}

unfoldable pub finish_closing : GameServer → GameServer
finish_closing s = record s {
  white_player = none;
  black_player = none;
  white_reconnect_token = [];
  black_reconnect_token = [];
  white_username = [];
  black_username = [];
  game_was_started = false;
  closing_expired_game = false;
  last_reconnect_seconds_sent = none;
  gameplay_starts_at_epoch_ms = 0;
  subscribers = reset s.subscribers;
}

unfoldable pub close_expired_game : GameServer → GameServer
unfolding begin_closing restart_engine finish_closing
close_expired_game s = finish_closing (
    restart_engine s.game_was_started
      (close_sessions (slot_list s.white_player ++ slot_list s.black_player) (begin_closing s)))

-- The seconds until a deadline, as `duration_cast` truncates them: 999 milliseconds are added first.
unfoldable pub seconds_left : ℕ → ℕ → ℕ
seconds_left deadline now = (deadline - now + 999000000) / 1000000000

abbrev pub was_sent : ℕ → Option ℕ → Bool
was_sent n none = false
was_sent n (some m) = n == m

unfoldable pub count_down : ℕ → ℕ → GameServer → GameServer
count_down now seconds s =
    if was_sent seconds s.last_reconnect_seconds_sent
    then s
    else send_reconnecting_status now seconds
        (record s { last_reconnect_seconds_sent = some seconds })

unfoldable pub update_reconnection_state : ℕ → GameServer → GameServer
unfolding close_expired_game seconds_left count_down
update_reconnection_state now s =
    if not s.reconnection_pending
    then s
    else (if leb s.reconnection_deadline now
        then close_expired_game s
        else count_down now (seconds_left s.reconnection_deadline now) s)

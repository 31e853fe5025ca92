-- ===== src/Tests/ServerTests.antt =====
-- The theorems on the server at short histories: two players, one of whom leaves.
use ctd_tamar.Common.{
  ℕ, ◌+◌, pos, ◌≡◌, refl, false, true, none, some, List, [], ◌∷◌, ◌++◌, ◌==◌, if◌then◌else◌,
  contains_text, same_text, arith,
}
use ctd_tamar.Core.Position.{position}
use ctd_tamar.Core.Piece.{white, black}
use ctd_tamar.Core.Results.{Reason}
use ctd_tamar.Messaging.Snapshot.{Message, MessageType, default_message}
use ctd_tamar.Engine.State.{current_time}
use ctd_tamar.Engine.Steps.{wait}
use ctd_tamar.Engine.Wait.{Done}
use ctd_tamar.Server.State.{Environment, GameServer, fresh_engine, new_session}
use ctd_tamar.Server.State
use ctd_tamar.Server.Sessions.{
  create_session, refusal, admitted, player_of, has_expired, broadcast, broadcast_with,
  reconnection_period,
}
use ctd_tamar.Server.Service.{serve, leave, start_game}
use ctd_tamar.Server.Loop.{Running, ServerEvent, arrives, enters, sends, breaks, passes, happen_all}
use ctd_tamar.Server.Invariant.{IsSound, new-IsSound}
use ctd_tamar.Server.Admits.{next_id}
use ctd_tamar.Server.Runs.{happen_all-IsSound}
use ctd_tamar.Server.Waiting.{AwaitsReturn}
use ctd_tamar.Server.Closes.{IsVacant}
use ctd_tamar.Server.Deadline.{happen_all-closes}
use ctd_tamar.Server.Return.{leave-AwaitsReturn, create_session-returns}
use ctd_tamar.Server.Expired.{happen_all-refuses}
use ctd_tamar.Server.Guard.{Guarded, serve-Guarded}
use ctd_tamar.Server.Broadcasts.{broadcast_depth}
use ctd_tamar.Server.Starts.{HasBegun, beginning, seen_start, start_game-HasBegun}
use ctd_tamar.Server.Plays.{IsPlayed, happen_all-IsPlayed}
use ctd_tamar.Tests.Scene.{some_config}

-- The token of a client is its id after a letter.
abbrev pub some_env : Environment
some_env = record { load = some_config; make_token = λ n. b't' ∷ n ∷ [] }

abbrev hello : List ℕ → ServerEvent
hello name =
    arrives
      (some (record default_message { type = MessageType.reconnect_request; username = name }))

abbrev some_events : List ServerEvent
some_events =
    hello (b'a' ∷ [])
    ∷ enters 1000 0 1
    ∷ hello (b'b' ∷ [])
    ∷ enters 2000 0 2
    ∷ breaks 2
    ∷ passes 60000000
    ∷ []

abbrev at_rest : Running
at_rest = record { server = State.new; previous_time = 0; last_state_update = 0 }

happen_all-IsSound_example : IsSound (happen_all some_env some_events at_rest).server
happen_all-IsSound_example = happen_all-IsSound some_env some_events at_rest new-IsSound

happen_all-IsPlayed_example :
    let r = happen_all some_env some_events at_rest in
    let g = r.server.engine in
    IsPlayed some_config g
    × Done (wait some_config (pos 16) g)
    × (current_time (wait some_config (pos 16) g) ≡ current_time g + 16)
happen_all-IsPlayed_example = happen_all-IsPlayed some_env some_events 0 0 16

-- Client 1 is White and client 2 Black, in a game that began.
abbrev pub playing : GameServer
playing = record State.new {
  sessions =
      λ i. if i == 1 then new_session 1 white (b'a' ∷ []) else new_session 2 black (b'b' ∷ []);
  white_player = some 1;
  black_player = some 2;
  next_client_id = 3;
  game_started = true;
  game_was_started = true;
  white_reconnect_token = b't' ∷ 1 ∷ [];
  black_reconnect_token = b't' ∷ 2 ∷ [];
  white_username = b'a' ∷ [];
  black_username = b'b' ∷ [];
  gameplay_starts_at_epoch_ms = 6000;
}

pub playing-IsSound : IsSound playing
playing-IsSound = ((refl, omega arith), (refl, omega arith), tt, omega arith, refl, refl)

leave-AwaitsReturn_example :
    AwaitsReturn black (5 + reconnection_period) (b't' ∷ 2 ∷ []) (leave 5 2 playing)
leave-AwaitsReturn_example =
    leave-AwaitsReturn black 5 2 1 playing playing-IsSound refl refl refl refl

-- Black's slot is reserved until the time 9.
abbrev interrupted : GameServer
interrupted = record playing {
  black_player = none;
  game_started = false;
  reconnection_pending = true;
  reserved_color = black;
  reconnection_deadline = 9;
}

interrupted-AwaitsReturn : AwaitsReturn black 9 (b't' ∷ 2 ∷ []) interrupted
interrupted-AwaitsReturn =
    (((refl, omega arith), tt, (refl, refl, refl), omega arith, refl, refl), refl, refl, refl, refl)

abbrev waiting : Running
waiting = record at_rest { server = interrupted }

abbrev meanwhile : List ServerEvent
meanwhile = sends 9000 3 1 (some default_message) ∷ passes 4 ∷ breaks 1 ∷ passes 8 ∷ []

happen_all-closes_example :
    IsVacant (happen_all some_env (meanwhile ++ passes 9 ∷ []) waiting).server
    × (has_expired (b't' ∷ 2 ∷ []) (happen_all some_env (meanwhile ++ passes 9 ∷ []) waiting).server
        ≡ true)
happen_all-closes_example =
    happen_all-closes some_env meanwhile waiting 9 interrupted-AwaitsReturn refl
      (tt, (omega arith, (tt, (omega arith, tt)))) (omega arith)

not_expired : has_expired (b't' ∷ 2 ∷ []) interrupted ≡ false
unfolding has_expired contains_text
not_expired = refl

create_session-returns_example :
    let out = create_session some_env (b't' ∷ 2 ∷ []) [] interrupted in
    (out.1 ≡ admitted 3)
    × (player_of black out.0 ≡ some 3)
    × (out.0.sessions 3 ≡ new_session 3 black (b'b' ∷ []))
    × (out.0.white_player ≡ some 1)
    × (out.0.engine ≡ fresh_engine)
    × (out.0.game_was_started ≡ true)
    × (out.0.reconnection_pending ≡ false)
create_session-returns_example =
    create_session-returns some_env [] interrupted refl refl refl not_expired

-- The token of client 7 has expired.
abbrev reopened : Running
reopened = record at_rest {
  server = record State.new { expired_reconnect_tokens = (b't' ∷ 7 ∷ []) ∷ [] };
}

expired_7 : has_expired (b't' ∷ 7 ∷ []) reopened.server ≡ true
unfolding has_expired contains_text same_text
expired_7 = refl

happen_all-refuses_example :
    let s = (happen_all some_env some_events reopened).server in
    create_session some_env (b't' ∷ 7 ∷ []) (b'a' ∷ []) s
    ≡ (next_id s, refusal MessageType.game_closed Reason.opponent_did_not_reconnect)
happen_all-refuses_example =
    happen_all-refuses some_env some_events reopened (b't' ∷ 7 ∷ []) (b'a' ∷ []) new-IsSound
      expired_7

abbrev pawn_move : Message
pawn_move = record default_message {
  type = MessageType.move_request;
  sequence = 4;
  source = position (pos 6) (pos 0);
  destination = position (pos 5) (pos 0);
}

serve-Guarded_example :
    Guarded some_env 7000 1 pawn_move playing
      (serve some_env 7000 3 1 (some pawn_move) playing).engine
serve-Guarded_example = serve-Guarded some_env 7000 3 1 pawn_move playing playing-IsSound

broadcast_depth_example :
    broadcast_with (3 + 2) 8 default_message playing ≡ broadcast 8 default_message playing
broadcast_depth_example = broadcast_depth 3 8 default_message playing

start_game-HasBegun_example :
    HasBegun (beginning 2000 interrupted) (seen_start interrupted) (start_game 2000 3 interrupted)
start_game-HasBegun_example = start_game-HasBegun 2000 3 interrupted refl

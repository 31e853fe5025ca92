-- ===== src/Server/Loop.antt =====
-- GameServer.cpp: the game loop, the handshake of `run`, and all of it as a sequence of events.
use ctd_tamar.Common.{
  ℕ, ◌-◌, ◌/◌, pos, Bool, true, false, Option, none, some, List, [], ◌∷◌, if◌then◌else◌, ltb, leb,
}
use ctd_tamar.Core.Results.{Reason}
use ctd_tamar.Messaging.Snapshot.{Message, MessageType}
use ctd_tamar.Engine.State.{PieceConfigReader}
use ctd_tamar.Engine.Steps.{wait}
use ctd_tamar.Server.State.{Environment, GameServer, put_session, put_engine}
use ctd_tamar.Server.Sessions.{Admission, create_session, broadcast}
use ctd_tamar.Server.Closing.{update_reconnection_state}
use ctd_tamar.Server.Service.{state_message, greet, serve}

-- The server with the two times that the game loop keeps.
pub record Running : Type 0 where
  pub server : GameServer
  pub previous_time : ℕ
  pub last_state_update : ℕ

abbrev pub to_ms : ℕ → ℕ
to_ms ns = ns / 1000000

unfoldable pub advance_engine : PieceConfigReader → ℕ → GameServer → GameServer
unfolding put_engine
advance_engine load delta s =
    if ltb 0 delta then put_engine (wait load (pos delta) s.engine) s else s

-- What a tick does once a game is on: the engine moves on, and every fifty milliseconds the players
-- are told.
unfoldable pub advance_game : PieceConfigReader → ℕ → ℕ → Running → Running
unfolding advance_engine
advance_game load delta now r =
    let s = advance_engine load delta r.server in
    if leb 50 (to_ms (now - r.last_state_update))
    then record r {
      server = broadcast now (state_message Reason.state_update s) s;
      last_state_update = now;
    }
    else record r { server = s }

-- A round of `runGameLoop` at a time of the steady clock.
unfoldable pub tick : PieceConfigReader → ℕ → Running → Running
tick load now r =
    let t = record r { server = update_reconnection_state now r.server; previous_time = now } in
    if t.server.game_started then advance_game load (to_ms (now - r.previous_time)) now t else t

abbrev pub is_handshake : MessageType → Bool
is_handshake MessageType.reconnect_request = true
is_handshake _ = false

-- The round of `run` for a connection whose first text was read as a message, if it was.
unfoldable pub accept : Environment → Option Message → GameServer → GameServer × Option Admission
accept env none s = (s, none)
accept env (some m) s =
    if is_handshake m.type
    then (let out = create_session env m.reconnect_token m.username s in (out.0, some out.1))
    else (s, none)

-- What can happen, each with the times that its code reads.
pub data ServerEvent : Type 0 where
  arrives : Option Message → ServerEvent
  enters : (epoch now session : ℕ) → ServerEvent
  sends : (epoch now session : ℕ) → Option Message → ServerEvent
  breaks : (session : ℕ) → ServerEvent
  passes : (now : ℕ) → ServerEvent

unfoldable pub break_session : ℕ → GameServer → GameServer
unfolding put_session
break_session i s = put_session i (record (s.sessions i) { broken = true }) s

unfoldable pub happen : Environment → ServerEvent → Running → Running
unfolding break_session
happen env (arrives handshake) r = record r { server = (accept env handshake r.server).0 }
happen env (enters epoch now i) r = record r { server = greet epoch now i r.server }
happen env (sends epoch now i request) r = record r {
  server = serve env epoch now i request r.server;
}
happen env (breaks i) r = record r { server = break_session i r.server }
happen env (passes now) r = tick env.load now r

unfoldable pub happen_all : Environment → List ServerEvent → Running → Running
unfolding happen
happen_all env [] r = r
happen_all env (e ∷ es) r = happen_all env es (happen env e r)

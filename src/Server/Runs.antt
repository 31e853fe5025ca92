-- ===== src/Server/Runs.antt =====
-- Whatever happens to the server of GameServer.cpp, and in whatever order, it stays sound.
use ctd_tamar.Common.{
  ℕ, ◌≤◌, ◌≡◌, refl, Bool, true, false, Option, none, some, List, [], ◌∷◌, Bool-cases, inl, inr,
  arith,
}
use ctd_tamar.Messaging.Snapshot.{Message}
use ctd_tamar.Messaging.Bus
use ctd_tamar.Engine.State.{PieceConfigReader}
use ctd_tamar.Engine.Requests.{handle_message}
use ctd_tamar.Control.Handler.{with_snapshot}
use ctd_tamar.Server.State.{Environment, GameServer, put_engine}
use ctd_tamar.Server.Service.{mark_started, ask_engine}
use ctd_tamar.Server.Loop.{
  Running, accept, is_handshake, ServerEvent, arrives, enters, sends, breaks, passes, happen,
  happen_all,
}
use ctd_tamar.Server.Invariant.{Began, IsSound, IsSound-IsStable}
use ctd_tamar.Server.Lasting.{IsLasting, greet-keeps, serve-keeps, break_session-keeps, tick-keeps}
use ctd_tamar.Server.Admits.{create_session-IsSound}
use ctd_tamar.Server.Closes.{close_expired_game-IsSound}

Began-true : (was started : Bool) (n : ℕ) → was ≡ true → Began was started n → 4000 ≤ n
Began-true false started n e h = cc
Began-true true started n e h = h

pub mark_started-IsSound : (epoch : ℕ) (s : GameServer) → IsSound s → IsSound (mark_started epoch s)
unfolding mark_started
mark_started-IsSound epoch s h = elim (Bool-cases s.game_was_started) [
  | inl e ↦
      let began =
        Began-true s.game_was_started s.game_started s.gameplay_starts_at_epoch_ms e h.3 in
      simp e (h.0, h.1, tt, began, h.4, h.5)
  | inr e ↦ simp e (h.0, h.1, tt, omega arith, h.4, h.5)
]

-- With an empty bus the engine answers the request that it is sent, and the bus is empty again.
pub ask_engine-empty :
    (load : PieceConfigReader) (m : Message) (s : GameServer)
    → s.message_bus ≡ Bus.new
    → let out = handle_message load m s.engine in
      ask_engine load m s
      ≡ (record (put_engine out.0 s) { message_bus = Bus.new }, some (with_snapshot out))
unfolding ask_engine
ask_engine-empty load m s e = simp e refl

pub IsSound-IsLasting : (env : Environment) → IsLasting env IsSound
unfolding put_engine
IsSound-IsLasting env = record {
  stable = IsSound-IsStable;
  counts = λ sent s h. h;
  marks = λ epoch s two h. mark_started-IsSound epoch s h;
  waits = λ ms s h. h;
  asks = λ m s h. rw (ask_engine-empty env.load m s h.5) (h.0, h.1, h.2, h.3, h.4, refl);
}

pub accept-IsSound :
    (env : Environment) (handshake : Option Message) (s : GameServer)
    → IsSound s
    → IsSound (accept env handshake s).0
unfolding accept
accept-IsSound env none s h = h
accept-IsSound env (some m) s h = elim (Bool-cases (is_handshake m.type)) [
  | inl e ↦ rw e (create_session-IsSound env m.reconnect_token m.username s h)
  | inr e ↦ rw e h
]

happen-IsSound :
    (env : Environment) (e : ServerEvent) (r : Running)
    → IsSound r.server
    → IsSound (happen env e r).server
unfolding happen
happen-IsSound env (arrives handshake) r h = accept-IsSound env handshake r.server h
happen-IsSound env (enters epoch now i) r h =
    greet-keeps (IsSound-IsLasting env) epoch now i r.server h
happen-IsSound env (sends epoch now i m) r h =
    serve-keeps (IsSound-IsLasting env) epoch now i m r.server h
happen-IsSound env (breaks i) r h = break_session-keeps (IsSound-IsLasting env) i r.server h
happen-IsSound env (passes now) r h =
    tick-keeps (IsSound-IsLasting env) now r (λ _. close_expired_game-IsSound r.server) h

-- Whatever connects, sends, breaks or passes, and in whatever order: each slot holds a session of
-- its colour with an id that was given out; a slot is reserved only in a game that was started and
-- stands still, and is empty; a game that was started has a beginning, and one that was not does
-- not run; and no request or response stays behind in the message bus.
pub happen_all-IsSound :
    (env : Environment) (es : List ServerEvent) (r : Running)
    → IsSound r.server
    → IsSound (happen_all env es r).server
unfolding happen_all
happen_all-IsSound env [] r h = h
happen_all-IsSound env (e ∷ es) r h =
    happen_all-IsSound env es (happen env e r) (happen-IsSound env e r h)

-- ===== src/Server/Lasting.antt =====
-- What a predicate of the server needs beside `IsStable` so that the operations of GameServer.cpp
-- keep it: greeting a session, answering a request, and a round of the game loop.
use ctd_tamar.Common.{
  ℕ, ◌-◌, ◌≡◌, refl, Bool, true, false, not, Option, none, some, leb, ltb, if◌then◌else◌, if-cases,
  Bool-cases, inl, inr, arith, pos,
}
use ctd_tamar.Core.Piece.{PieceColor}
use ctd_tamar.Core.Results.{Reason}
use ctd_tamar.Messaging.Snapshot.{Message}
use ctd_tamar.Engine.Steps.{wait}
use ctd_tamar.Server.State.{Environment, GameServer, put_engine}
use ctd_tamar.Server.Sessions.{send_to, has_two_players, waiting_message}
use ctd_tamar.Server.Closing.{
  update_reconnection_state, close_expired_game, count_down, seconds_left, was_sent,
}
use ctd_tamar.Server.Service.{
  mark_started, start_game, welcome, greet, assignment, state_message, answer, ask_engine, reply,
  serve, is_gameplay_enabled, is_foreign, rejection,
}
use ctd_tamar.Server.Loop.{Running, advance_engine, advance_game, tick, break_session, to_ms}
use ctd_tamar.Server.Stable.{
  IsStable, send_to-keeps, leave-keeps, broadcast-keeps, send_reconnecting_status-keeps,
}

pub record IsLasting (env : Environment) (P : GameServer → Type 0) : Type 0 where
  pub stable : IsStable P
  pub counts :
      (sent : Option ℕ) (s : GameServer) → P s → P (record s { last_reconnect_seconds_sent = sent })
  pub marks :
      (epoch : ℕ) (s : GameServer) → has_two_players s ≡ true → P s → P (mark_started epoch s)
  pub waits : (ms : ℕ) (s : GameServer) → P s → P (put_engine (wait env.load (pos ms) s.engine) s)
  pub asks : (m : Message) (s : GameServer) → P s → P (ask_engine env.load m s).0

-- How `answer` ends: the engine is asked only once the game has begun, and not for a piece of the
-- other colour.
pub data Answers (env : Environment) (epoch : ℕ) (color : PieceColor) (m : Message) (s : GameServer)
    : GameServer × Option Message → Type 0 where
  early :
      is_gameplay_enabled epoch s ≡ false
      → Answers env epoch color m s (
        s,
        some (
            rejection
              (if s.game_started then Reason.countdown_in_progress else Reason.waiting_for_opponent)
              m
              s),
      )
  foreign :
      is_gameplay_enabled epoch s ≡ true
      → is_foreign color m s ≡ true
      → Answers env epoch color m s (s, some (rejection Reason.not_your_piece m s))
  asked :
      is_gameplay_enabled epoch s ≡ true
      → is_foreign color m s ≡ false
      → Answers env epoch color m s (ask_engine env.load m s)

negated_false : (b : Bool) → not b ≡ false → b ≡ true
negated_false b e = ground arith

negated_true : (b : Bool) → not b ≡ true → b ≡ false
negated_true b e = ground arith

pub answer-Answers :
    (env : Environment) (epoch : ℕ) (color : PieceColor) (m : Message) (s : GameServer)
    → Answers env epoch color m s (answer env epoch color m s)
unfolding answer
answer-Answers env epoch color m s =
    if-cases (Answers env epoch color m s) _ _ _ (λ e. early (negated_true _ e))
      (λ e.
        if-cases (Answers env epoch color m s) _ _ _ (foreign (negated_false _ e))
          (asked (negated_false _ e)))

module _ {env : Environment} {P : GameServer → Type 0} (h : IsLasting env P) where
  open h use {stable, counts, marks, waits, asks}

  count_down-keeps : (now seconds : ℕ) (s : GameServer) → P s → P (count_down now seconds s)
  unfolding count_down
  count_down-keeps now seconds s p =
      if-cases P (was_sent seconds s.last_reconnect_seconds_sent) _ _ (λ _. p)
        (λ _. send_reconnecting_status-keeps stable now seconds _ (counts _ s p))

  pub update_reconnection_state-keeps :
      (now : ℕ) (s : GameServer)
      → (leb s.reconnection_deadline now ≡ true → P (close_expired_game s))
      → P s
      → P (update_reconnection_state now s)
  unfolding update_reconnection_state
  update_reconnection_state-keeps now s closes p =
      if-cases P _ _ _ (λ _. p)
        (λ _.
          if-cases P _ _ _ closes
            (λ _. count_down-keeps now (seconds_left s.reconnection_deadline now) s p))

  start_game-keeps :
      (epoch now : ℕ) (s : GameServer) → has_two_players s ≡ true → P s → P (start_game epoch now s)
  unfolding start_game
  start_game-keeps epoch now s two p =
      if-cases P s.game_started _ _ (λ _. p)
        (λ _. broadcast-keeps stable now _ _ (marks epoch s two p))

  welcome-keeps : (epoch now i : ℕ) (s : GameServer) → P s → P (welcome epoch now i s)
  unfolding welcome
  welcome-keeps epoch now i s p =
      let told = send_to-keeps stable i waiting_message s p in
      if-cases P _ _ _ (λ two. start_game-keeps epoch now s two p)
        (λ _. if-cases P _ _ _ (λ _. told) (λ _. leave-keeps stable now i _ told))

  pub greet-keeps : (epoch now i : ℕ) (s : GameServer) → P s → P (greet epoch now i s)
  unfolding greet
  greet-keeps epoch now i s p =
      let m = assignment (s.sessions i) s in
      let t : GameServer = (send_to i m s).0 in
      let n = state_message Reason.initial_state t in
      let a = send_to-keeps stable i m s p in
      let b = send_to-keeps stable i n t a in
      if-cases P (not (send_to i m s).1) _ _ (λ _. leave-keeps stable now i t a)
        (λ _.
          if-cases P (not (send_to i n t).1) _ _ (λ _. leave-keeps stable now i (send_to i n t).0 b)
            (λ _. welcome-keeps epoch now i (send_to i n t).0 b))

  Answers-keeps :
      (epoch : ℕ) (color : PieceColor) (m : Message) (s : GameServer)
      → {out : GameServer × Option Message} → Answers env epoch color m s out
      → P s
      → P out.0
  Answers-keeps epoch color m s (early _) p = p
  Answers-keeps epoch color m s (foreign _ _) p = p
  Answers-keeps epoch color m s (asked _ _) p = asks m s p

  reply-keeps : (now i : ℕ) (out : GameServer × Option Message) → P out.0 → P (reply now i out)
  reply-keeps now i (s, none) p = leave-keeps stable now i s p
  reply-keeps now i (s, some m) p =
      let sent = send_to-keeps stable i m s p in
      if-cases P _ _ _ (λ _. sent) (λ _. leave-keeps stable now i _ sent)

  pub serve-keeps :
      (epoch now i : ℕ) (request : Option Message) (s : GameServer)
      → P s
      → P (serve env epoch now i request s)
  unfolding serve
  serve-keeps epoch now i none s p = leave-keeps stable now i s p
  serve-keeps epoch now i (some m) s p =
      let color = (s.sessions i).assigned_color in
      if-cases P (s.sessions i).connected _ _
        (λ _.
          reply-keeps now i (answer env epoch color m s)
            (Answers-keeps epoch color m s (answer-Answers env epoch color m s) p))
        (λ _. leave-keeps stable now i s p)

  pub break_session-keeps : (i : ℕ) (s : GameServer) → P s → P (break_session i s)
  unfolding break_session
  break_session-keeps i s p = stable.puts i _ s refl p

  advance_engine-keeps : (delta : ℕ) (s : GameServer) → P s → P (advance_engine env.load delta s)
  unfolding advance_engine
  advance_engine-keeps delta s p = if-cases P (ltb 0 delta) _ _ (λ _. waits delta s p) (λ _. p)

  advance_game-keeps :
      (delta now : ℕ) (r : Running) → P r.server → P (advance_game env.load delta now r).server
  unfolding advance_game
  advance_game-keeps delta now r p =
      let moved = advance_engine-keeps delta r.server p in
      elim (Bool-cases (leb 50 (to_ms (now - r.last_state_update)))) [
        | inl e ↦ rw e (broadcast-keeps stable now _ _ moved)
        | inr e ↦ rw e moved
      ]

  pub tick-keeps :
      (now : ℕ) (r : Running)
      → (leb r.server.reconnection_deadline now ≡ true → P (close_expired_game r.server))
      → P r.server
      → P (tick env.load now r).server
  unfolding tick
  tick-keeps now r closes p =
      let t : Running = record r {
        server = update_reconnection_state now r.server;
        previous_time = now;
      } in
      let updated = update_reconnection_state-keeps now r.server closes p in
      if-cases (λ (r : Running). P r.server) t.server.game_started
        (advance_game env.load (to_ms (now - r.previous_time)) now t) t
        (λ _. advance_game-keeps (to_ms (now - r.previous_time)) now t updated) (λ _. updated)

-- ===== src/Server/Plays.antt =====
-- The engine of GameServer.cpp is always one that its requests and waits have made of a new one, so
-- that what is proved of all runs of the engine holds of the server's.
use ctd_tamar.Common.{
  ℕ, ◌+◌, ◌≡◌, refl, ◌∙◌, pos, true, Option, none, some, List, [], ◌∷◌, Bool-cases, inl, inr,
}
use ctd_tamar.Messaging.Snapshot.{Message}
use ctd_tamar.Engine.State.{GameEngine, PieceConfigReader, current_time}
use ctd_tamar.Engine.Steps.{wait}
use ctd_tamar.Engine.Wait.{Done}
use ctd_tamar.Engine.Runs.{waits, step, run, run-new-wait}
use ctd_tamar.Engine.Played.{PlayedFrom, step-PlayedFrom, handle_message-PlayedFrom}
use ctd_tamar.Server.Setup.{initial_board}
use ctd_tamar.Server.State
use ctd_tamar.Server.State.{Environment, GameServer, put_session, put_engine, fresh_engine}
use ctd_tamar.Server.Sessions.{vacated, reserve, Admission, reclaim, join, seat}
use ctd_tamar.Server.Service.{mark_started}
use ctd_tamar.Server.Loop.{
  Running, accept, is_handshake, ServerEvent, arrives, enters, sends, breaks, passes, happen,
  happen_all,
}
use ctd_tamar.Server.Invariant.{IsSound, IsSound-IsStable, new-IsSound}
use ctd_tamar.Server.Lasting.{IsLasting, greet-keeps, serve-keeps, break_session-keeps, tick-keeps}
use ctd_tamar.Server.Admits.{
  Ends, closing, expired, nameless, reclaims, joins, full, create_session-Ends,
}
use ctd_tamar.Server.Closes.{close_expired_game-IsVacant, close_expired_game-IsSound}
use ctd_tamar.Server.Runs.{IsSound-IsLasting, ask_engine-empty, accept-IsSound}

-- The engine is what a sequence of calls makes of a new game.
abbrev pub IsPlayed : PieceConfigReader → GameEngine → Type 0
IsPlayed load g = PlayedFrom load fresh_engine g

mark_started-engine : (epoch : ℕ) (s : GameServer) → (mark_started epoch s).engine ≡ s.engine
unfolding mark_started
mark_started-engine epoch s = elim (Bool-cases s.game_was_started) [
  | inl e ↦ simp e
  | inr e ↦ simp e
]

module _ (env : Environment) where
  abbrev PlaysOn : GameServer → Type 0
  PlaysOn s = IsSound s × IsPlayed env.load s.engine

  PlaysOn-IsLasting : IsLasting env PlaysOn
  unfolding put_session vacated reserve put_engine step
  PlaysOn-IsLasting = record {
    stable = record {
      puts = λ i c s e h. (IsSound-IsStable.puts i c s e h.0, h.1);
      vacates = λ i s y h. (IsSound-IsStable.vacates i s y h.0, h.1);
      reserves = λ now i s y w r h. (IsSound-IsStable.reserves now i s y w r h.0, h.1);
      forgets = λ i s y w h. (IsSound-IsStable.forgets i s y w h.0, h.1);
    };
    counts = λ sent s h. h;
    marks = λ epoch s two h. (
      (IsSound-IsLasting env).marks epoch s two h.0,
      (h.1.0, mark_started-engine epoch s ∙ h.1.1),
    );
    waits = λ ms s h. (h.0, step-PlayedFrom env.load fresh_engine (waits (pos ms)) s.engine h.1);
    asks = λ m s h. rw (ask_engine-empty env.load m s h.0.5) (
      (h.0.0, h.0.1, h.0.2, h.0.3, h.0.4, refl),
      handle_message-PlayedFrom env.load fresh_engine m s.engine h.1,
    );
  }

  Ends-engine :
      (given name : List ℕ) (s : GameServer) {out : GameServer × Admission}
      → Ends env given name s out
      → out.0.engine ≡ s.engine
  unfolding reclaim join seat put_session
  Ends-engine given name s (closing _) = refl
  Ends-engine given name s (expired _) = refl
  Ends-engine given name s (nameless _ _) = refl
  Ends-engine given name s (reclaims _ _ _) = refl
  Ends-engine given name s (joins c _ _ _ _) = refl
  Ends-engine given name s (full _) = refl

  accept-engine :
      (handshake : Option Message) (s : GameServer) → (accept env handshake s).0.engine ≡ s.engine
  unfolding accept
  accept-engine none s = refl
  accept-engine (some m) s = elim (Bool-cases (is_handshake m.type)) [
    | inl e ↦
        rw e (
          Ends-engine m.reconnect_token _ s
            (create_session-Ends env m.reconnect_token m.username s))
    | inr e ↦ rw e refl
  ]

  happen-PlaysOn :
      (e : ServerEvent) (r : Running) → PlaysOn r.server → PlaysOn (happen env e r).server
  unfolding happen
  happen-PlaysOn (arrives handshake) r h =
      (accept-IsSound env handshake r.server h.0, (h.1.0, accept-engine handshake r.server ∙ h.1.1))
  happen-PlaysOn (enters epoch now i) r h = greet-keeps PlaysOn-IsLasting epoch now i r.server h
  happen-PlaysOn (sends epoch now i m) r h = serve-keeps PlaysOn-IsLasting epoch now i m r.server h
  happen-PlaysOn (breaks i) r h = break_session-keeps PlaysOn-IsLasting i r.server h
  happen-PlaysOn (passes now) r h =
      tick-keeps PlaysOn-IsLasting now r
        (λ _. (
          close_expired_game-IsSound r.server,
          ([], unfold run in (close_expired_game-IsVacant r.server).2),
        ))
        h

  happen_all-PlaysOn :
      (es : List ServerEvent) (r : Running)
      → PlaysOn r.server
      → PlaysOn (happen_all env es r).server
  unfolding happen_all
  happen_all-PlaysOn [] r h = h
  happen_all-PlaysOn (e ∷ es) r h = happen_all-PlaysOn es (happen env e r) (happen-PlaysOn e r h)

-- Whatever happens to a new server, its engine is always one that moves, jumps and waits have made
-- of a new game, so that every theorem on the runs of the engine is one on the server; and the next
-- wait of its game loop returns, at the time asked for, with no step and no landing due.
pub happen_all-IsPlayed :
    (env : Environment) (es : List ServerEvent) (previous last ms : ℕ)
    → let r =
        happen_all env es
          (record { server = State.new; previous_time = previous; last_state_update = last }) in
      let g = r.server.engine in
      IsPlayed env.load g
      × Done (wait env.load (pos ms) g)
      × (current_time (wait env.load (pos ms) g) ≡ current_time g + ms)
unfolding fresh_engine run
happen_all-IsPlayed env es previous last ms =
    let start : Running = record {
      server = State.new;
      previous_time = previous;
      last_state_update = last;
    } in
    let (cs, e) = (happen_all-PlaysOn env es start (new-IsSound, ([], refl))).1 in
    let w = run-new-wait env.load initial_board.0 initial_board.1 true cs ms in
    ((cs, e), rw e w.1, rw e w.2)

-- ===== src/Server/Expired.antt =====
-- The tokens of a game that GameServer.cpp has closed.
use ctd_tamar.Common.{
  ℕ, ◌≡◌, refl, ◌∙◌, ap, true, not, Option, none, some, List, [], ◌∷◌, if-true, if-false,
  Bool-cases, inl, inr, is_empty_list, contains_text, &&-eq-true,
}
use ctd_tamar.Core.Results.{Reason}
use ctd_tamar.Messaging.Snapshot.{Message, MessageType}
use ctd_tamar.Client.Username.{trim}
use ctd_tamar.Server.State.{Environment, GameServer, put_session, put_engine}
use ctd_tamar.Server.Sessions.{
  vacated, reserve, has_expired, create_session, Admission, refusal, reclaim, join, seat,
}
use ctd_tamar.Server.Service.{mark_started}
use ctd_tamar.Server.Loop.{
  Running, accept, is_handshake, ServerEvent, arrives, enters, sends, breaks, passes, happen,
  happen_all,
}
use ctd_tamar.Server.Invariant.{IsSound, IsSound-IsStable}
use ctd_tamar.Server.Lasting.{IsLasting, greet-keeps, serve-keeps, break_session-keeps, tick-keeps}
use ctd_tamar.Server.Admits.{
  Ends, closing, expired, nameless, reclaims, joins, full, create_session-Ends,
  create_session-IsSound, next_id,
}
use ctd_tamar.Server.Closes.{close_expired_game-keeps_expired, close_expired_game-IsSound}
use ctd_tamar.Server.Runs.{IsSound-IsLasting, ask_engine-empty}

mark_started-expired :
    (epoch : ℕ) (s : GameServer)
    → (mark_started epoch s).expired_reconnect_tokens ≡ s.expired_reconnect_tokens
unfolding mark_started
mark_started-expired epoch s = elim (Bool-cases s.game_was_started) [
  | inl e ↦ simp e
  | inr e ↦ simp e
]

module _ (token : List ℕ) where
  -- The token can no longer be used.
  abbrev IsSpent : GameServer → Type 0
  IsSpent s = IsSound s × (contains_text token s.expired_reconnect_tokens ≡ true)

  IsSpent-IsLasting : (env : Environment) → IsLasting env IsSpent
  unfolding put_session vacated reserve put_engine
  IsSpent-IsLasting env = record {
    stable = record {
      puts = λ i c s e h. (IsSound-IsStable.puts i c s e h.0, h.1);
      vacates = λ i s y h. (IsSound-IsStable.vacates i s y h.0, h.1);
      reserves = λ now i s y w r h. (IsSound-IsStable.reserves now i s y w r h.0, h.1);
      forgets = λ i s y w h. (IsSound-IsStable.forgets i s y w h.0, h.1);
    };
    counts = λ sent s h. h;
    marks = λ epoch s two h. (
      (IsSound-IsLasting env).marks epoch s two h.0,
      ap (contains_text token) (mark_started-expired epoch s) ∙ h.1,
    );
    waits = λ ms s h. h;
    asks = λ m s h.
        rw (ask_engine-empty env.load m s h.0.5) ((h.0.0, h.0.1, h.0.2, h.0.3, h.0.4, refl), h.1);
  }

  Ends-tokens :
      (env : Environment) (given name : List ℕ) (s : GameServer) {out : GameServer × Admission}
      → Ends env given name s out
      → out.0.expired_reconnect_tokens ≡ s.expired_reconnect_tokens
  unfolding reclaim join seat
  Ends-tokens env given name s (closing _) = refl
  Ends-tokens env given name s (expired _) = refl
  Ends-tokens env given name s (nameless _ _) = refl
  Ends-tokens env given name s (reclaims _ _ _) = refl
  Ends-tokens env given name s (joins c _ _ _ _) = refl
  Ends-tokens env given name s (full _) = refl

  accept-IsSpent :
      (env : Environment) (handshake : Option Message) (s : GameServer)
      → IsSpent s
      → IsSpent (accept env handshake s).0
  unfolding accept
  accept-IsSpent env none s h = h
  accept-IsSpent env (some m) s h = elim (Bool-cases (is_handshake m.type)) [
    | inl e ↦ rw e (
      create_session-IsSound env m.reconnect_token m.username s h.0,
      ap (contains_text token) (
            Ends-tokens env m.reconnect_token (trim m.username) s
              (create_session-Ends env m.reconnect_token m.username s))
          ∙ h.1,
    )
    | inr e ↦ rw e h
  ]

  happen-IsSpent :
      (env : Environment) (e : ServerEvent) (r : Running)
      → IsSpent r.server
      → IsSpent (happen env e r).server
  unfolding happen
  happen-IsSpent env (arrives handshake) r h = accept-IsSpent env handshake r.server h
  happen-IsSpent env (enters epoch now i) r h =
      greet-keeps (IsSpent-IsLasting env) epoch now i r.server h
  happen-IsSpent env (sends epoch now i m) r h =
      serve-keeps (IsSpent-IsLasting env) epoch now i m r.server h
  happen-IsSpent env (breaks i) r h = break_session-keeps (IsSpent-IsLasting env) i r.server h
  happen-IsSpent env (passes now) r h =
      tick-keeps (IsSpent-IsLasting env) now r
        (λ _. (
          close_expired_game-IsSound r.server,
          close_expired_game-keeps_expired token r.server h.1,
        ))
        h

  happen_all-IsSpent :
      (env : Environment) (es : List ServerEvent) (r : Running)
      → IsSpent r.server
      → IsSpent (happen_all env es r).server
  unfolding happen_all
  happen_all-IsSpent env [] r h = h
  happen_all-IsSpent env (e ∷ es) r h =
      happen_all-IsSpent env es (happen env e r) (happen-IsSpent env e r h)

-- An expired token is refused for ever: whatever has happened since, who presents it is told that
-- the opponent did not come back, and the server is as before but for the next client id.
pub happen_all-refuses :
    (env : Environment) (es : List ServerEvent) (r : Running) (token name : List ℕ)
    → IsSound r.server
    → has_expired token r.server ≡ true
    → let s = (happen_all env es r).server in
      create_session env token name s
      ≡ (next_id s, refusal MessageType.game_closed Reason.opponent_did_not_reconnect)
unfolding create_session has_expired
happen_all-refuses env es r token name h x =
    let parts = &&-eq-true (not (is_empty_list token)) _ x in
    let after = happen_all-IsSpent token env es r (h, parts.1) in
    if-false (happen_all env es r).server.closing_expired_game _ _ after.0.4
    ∙ if-true (has_expired token (happen_all env es r).server) _ _ (rw (parts.0, after.1) refl)

-- ===== src/Server/Waiting.antt =====
-- A player of GameServer.cpp is gone: what may happen until the deadline, and what happens then.
use ctd_tamar.Common.{
  ℕ, ◌<◌, ◌≡◌, refl, ◌∙◌, ap, Bool, true, false, not, ◌||◌, Option, none, some, List, [], ◌∷◌, leb,
  &&-eq-true, Bool-cases, inl, inr, is_empty_list, same_text, All, arith,
}
use ctd_tamar.Core.Piece.{PieceColor, white, black}
use ctd_tamar.Messaging.Snapshot.{Message}
use ctd_tamar.Client.Username.{trim}
use ctd_tamar.Server.State.{Environment, GameServer, put_session, put_engine, is_connected}
use ctd_tamar.Server.Sessions.{
  pick, player_of, token_of, vacate, vacated, first_player, remaining_of, holds, reserve,
  has_two_players, valid_reconnect, Admission,
}
use ctd_tamar.Server.Loop.{
  Running, accept, is_handshake, ServerEvent, arrives, enters, sends, breaks, passes, happen,
  happen_all,
}
use ctd_tamar.Server.Stable.{IsStable, is_player}
use ctd_tamar.Server.Invariant.{Reserves, IsSound, IsSound-IsStable}
use ctd_tamar.Server.Lasting.{IsLasting, greet-keeps, serve-keeps, break_session-keeps, tick-keeps}
use ctd_tamar.Server.Admits.{
  Ends, closing, expired, nameless, reclaims, joins, full, create_session-Ends, next_id-IsSound,
}
use ctd_tamar.Server.Runs.{ask_engine-empty}

-- The slot of a colour is reserved until a deadline for the holder of a token.
abbrev pub AwaitsReturn : PieceColor → ℕ → List ℕ → GameServer → Type 0
AwaitsReturn color deadline token s =
    IsSound s
    × (s.reconnection_pending ≡ true)
    × (s.reserved_color ≡ color)
    × (s.reconnection_deadline ≡ deadline)
    × (token_of color s ≡ token)

nobody_left :
    (color : PieceColor) (i : ℕ) (w b : Option ℕ)
    → (holds w i || holds b i) ≡ true
    → pick color w b ≡ none
    → first_player (vacate w i) (vacate b i) ≡ none
nobody_left white i none none y e = ground arith
nobody_left white i none (some j) y e = ground arith
nobody_left white i (some j) b y e = cc
nobody_left black i none none y e = ground arith
nobody_left black i (some j) none y e = ground arith
nobody_left black i none (some k) y e = cc
nobody_left black i (some j) (some k) y e = cc

pub Reserves-true :
    (pending w g : Bool) (slot : Option ℕ)
    → pending ≡ true
    → Reserves pending w g slot
    → (w ≡ true) × (g ≡ false) × (slot ≡ none)
Reserves-true false w g slot e h = cc
Reserves-true true w g slot e h = h

reserved :
    (s : GameServer)
    → IsSound s
    → s.reconnection_pending ≡ true
    → (s.game_was_started ≡ true) × (s.game_started ≡ false) × (player_of s.reserved_color s ≡ none)
reserved s h e =
    Reserves-true s.reconnection_pending s.game_was_started s.game_started
      (player_of s.reserved_color s) e h.2

one_player :
    (color : PieceColor) (s : GameServer) → player_of color s ≡ none → has_two_players s ≡ false
unfolding has_two_players
one_player white s e = rw e refl
one_player black s e = rw e (ground arith)

-- Once a slot is reserved, the other player's departure leaves nobody to reserve a slot for.
nobody_remains :
    (i : ℕ) (s : GameServer)
    → IsSound s
    → s.reconnection_pending ≡ true
    → is_player i s ≡ true
    → is_connected (remaining_of (vacated i s)) (vacated i s) ≡ true
    → ⊥
unfolding vacated
nobody_remains i s h e y r =
    let none_left =
      nobody_left s.reserved_color i s.white_player s.black_player y (reserved s h e).2 in
    not_connected (remaining_of (vacated i s)) none_left r
  where
    not_connected : (o : Option ℕ) → o ≡ none → is_connected o (vacated i s) ≡ true → ⊥
    not_connected none e r = cc
    not_connected (some j) e r = cc

still_started :
    (s : GameServer) → IsSound s → s.reconnection_pending ≡ true → s.game_was_started ≡ false → ⊥
still_started s h e w = cc ((reserved s h e).0)

still_alone :
    (s : GameServer) → IsSound s → s.reconnection_pending ≡ true → has_two_players s ≡ true → ⊥
still_alone s h e two = cc (one_player s.reserved_color s (reserved s h e).2)

other_token :
    (s : GameServer) (given token : List ℕ) (color : PieceColor)
    → same_text given token ≡ false
    → s.reserved_color ≡ color
    → token_of color s ≡ token
    → valid_reconnect given s ≡ true
    → ⊥
unfolding valid_reconnect
other_token s given token color d c t v =
    let same = &&-eq-true (not (is_empty_list given)) _ (&&-eq-true s.reconnection_pending _ v).1 in
    let eq = ap (λ (c : PieceColor). token_of c s) c ∙ t in cc (rw eq at (same.1))

too_early : (now deadline given : ℕ) → now < deadline → given ≡ deadline → leb given now ≡ true → ⊥
too_early now deadline given h e l = ground arith

-- A handshake with another token, and a time before the deadline; anything else.
abbrev pub IsHarmless : ℕ → List ℕ → ServerEvent → Type 0
IsHarmless deadline token (arrives none) = Unit
IsHarmless deadline token (arrives (some m)) = same_text m.reconnect_token token ≡ false
IsHarmless deadline token (passes now) = now < deadline
IsHarmless deadline token _ = Unit

module _ (color : PieceColor) (deadline : ℕ) (token : List ℕ) where
  pub AwaitsReturn-IsStable : IsStable (AwaitsReturn color deadline token)
  unfolding put_session vacated reserve
  AwaitsReturn-IsStable = record {
    puts = λ i c s e h. (IsSound-IsStable.puts i c s e h.0, h.1, h.2, h.3, h.4);
    vacates = λ i s y h. (IsSound-IsStable.vacates i s y h.0, h.1, h.2, h.3, h.4);
    reserves = λ now i s y w r h. absurd (nobody_remains i s h.0 h.1 y r);
    forgets = λ i s y w h. absurd (still_started s h.0 h.1 w);
  }

  AwaitsReturn-IsLasting : (env : Environment) → IsLasting env (AwaitsReturn color deadline token)
  unfolding put_engine
  AwaitsReturn-IsLasting env = record {
    stable = AwaitsReturn-IsStable;
    counts = λ sent s h. h;
    marks = λ epoch s two h. absurd (still_alone s h.0 h.1 two);
    waits = λ ms s h. h;
    asks = λ m s h.
        rw (ask_engine-empty env.load m s h.0.5)
          ((h.0.0, h.0.1, h.0.2, h.0.3, h.0.4, refl), h.1, h.2, h.3, h.4);
  }

  Ends-AwaitsReturn :
      (env : Environment) (given name : List ℕ) (s : GameServer) {out : GameServer × Admission}
      → same_text given token ≡ false
      → Ends env given name s out
      → AwaitsReturn color deadline token s
      → AwaitsReturn color deadline token out.0
  Ends-AwaitsReturn env given name s d (closing _) h = (next_id-IsSound s h.0, h.1, h.2, h.3, h.4)
  Ends-AwaitsReturn env given name s d (expired _) h = (next_id-IsSound s h.0, h.1, h.2, h.3, h.4)
  Ends-AwaitsReturn env given name s d (nameless _ _) h =
      (next_id-IsSound s h.0, h.1, h.2, h.3, h.4)
  Ends-AwaitsReturn env given name s d (reclaims _ _ v) h =
      absurd (other_token s given token color d h.2 h.4 v)
  Ends-AwaitsReturn env given name s d (joins c e _ _ _) h = absurd (cc (e, h.1))
  Ends-AwaitsReturn env given name s d (full _) h = (next_id-IsSound s h.0, h.1, h.2, h.3, h.4)

  accept-AwaitsReturn :
      (env : Environment) (handshake : Option Message) (s : GameServer)
      → IsHarmless deadline token (arrives handshake)
      → AwaitsReturn color deadline token s
      → AwaitsReturn color deadline token (accept env handshake s).0
  unfolding accept
  accept-AwaitsReturn env none s d h = h
  accept-AwaitsReturn env (some m) s d h = elim (Bool-cases (is_handshake m.type)) [
    | inl e ↦ rw e (
        Ends-AwaitsReturn env m.reconnect_token (trim m.username) s d
          (create_session-Ends env m.reconnect_token m.username s) h)
    | inr e ↦ rw e h
  ]

  happen-AwaitsReturn :
      (env : Environment) (e : ServerEvent) (r : Running)
      → IsHarmless deadline token e
      → AwaitsReturn color deadline token r.server
      → AwaitsReturn color deadline token (happen env e r).server
  unfolding happen
  happen-AwaitsReturn env (arrives handshake) r d h = accept-AwaitsReturn env handshake r.server d h
  happen-AwaitsReturn env (enters epoch now i) r d h =
      greet-keeps (AwaitsReturn-IsLasting env) epoch now i r.server h
  happen-AwaitsReturn env (sends epoch now i m) r d h =
      serve-keeps (AwaitsReturn-IsLasting env) epoch now i m r.server h
  happen-AwaitsReturn env (breaks i) r d h =
      break_session-keeps (AwaitsReturn-IsLasting env) i r.server h
  happen-AwaitsReturn env (passes now) r d h =
      tick-keeps (AwaitsReturn-IsLasting env) now r
        (λ late. absurd (too_early now deadline r.server.reconnection_deadline d h.3 late)) h

  pub happen_all-AwaitsReturn :
      (env : Environment) (es : List ServerEvent) (r : Running)
      → All (IsHarmless deadline token) es
      → AwaitsReturn color deadline token r.server
      → AwaitsReturn color deadline token (happen_all env es r).server
  unfolding happen_all
  happen_all-AwaitsReturn env [] r d h = h
  happen_all-AwaitsReturn env (e ∷ es) r d h =
      happen_all-AwaitsReturn env es (happen env e r) d.1 (happen-AwaitsReturn env e r d.0 h)

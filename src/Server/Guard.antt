-- ===== src/Server/Guard.antt =====
-- GameServer.cpp: what a client can do to the game.
use ctd_tamar.Common.{
  ℕ, ◌≤◌, ◌<◌, ◌≡◌, ◌≢◌, refl, true, false, Option, none, some, if-cases, Bool-cases, Option-cases,
  inl, inr, arith,
}
use ctd_tamar.Core.Position.{Position}
use ctd_tamar.Core.Piece.{PieceColor, same_color, other_color}
use ctd_tamar.Core.Board.{Ref, get_piece_at}
use ctd_tamar.Messaging.Snapshot.{Message}
use ctd_tamar.Engine.State.{GameEngine}
use ctd_tamar.Engine.Requests.{handle_message}
use ctd_tamar.Server.State.{Environment, GameServer, put_session, put_engine}
use ctd_tamar.Server.Sessions.{vacated, reserve, send_to}
use ctd_tamar.Server.Service.{leave, serve, reply, answer, is_gameplay_enabled, is_foreign}
use ctd_tamar.Server.Stable.{IsStable, send_to-keeps, leave-keeps}
use ctd_tamar.Server.Invariant.{IsSound}
use ctd_tamar.Server.Lasting.{Answers, answer-Answers}
use ctd_tamar.Server.Runs.{ask_engine-empty}

-- Messages and departures do not touch the engine.
abbrev HasEngine : GameEngine → GameServer → Type 0
HasEngine g s = s.engine ≡ g

HasEngine-IsStable : (g : GameEngine) → IsStable (HasEngine g)
unfolding put_session vacated reserve
HasEngine-IsStable g = record {
  puts = λ i c s e h. h;
  vacates = λ i s y h. h;
  reserves = λ now i s y w r h. h;
  forgets = λ i s y w h. h;
}

reply-engine :
    (now i : ℕ) (out : GameServer × Option Message) → (reply now i out).engine ≡ out.0.engine
reply-engine now i (s, none) = leave-keeps (HasEngine-IsStable s.engine) now i s refl
reply-engine now i (s, some m) =
    let sent = send_to-keeps (HasEngine-IsStable s.engine) i m s refl in
    if-cases (HasEngine s.engine) (send_to i m s).1 (send_to i m s).0
      (leave now i (send_to i m s).0) (λ _. sent)
      (λ _. leave-keeps (HasEngine-IsStable s.engine) now i (send_to i m s).0 sent)

-- A piece of another colour stands on the cell.
abbrev pub ShowsForeign : PieceColor → Position → GameEngine → Type 0
ShowsForeign c cell g = (r : Ref) × (get_piece_at g.board cell ≡ some r) × ((g.heap r).color ≢ c)

-- No piece, or one of this colour, stands on the cell.
abbrev pub ShowsOwn : PieceColor → Position → GameEngine → Type 0
ShowsOwn c cell g = (r : Ref) → get_piece_at g.board cell ≡ some r → (g.heap r).color ≡ c

-- The game runs, and the moment at which it begins is set and has come.
abbrev pub IsUnderway : ℕ → GameServer → Type 0
IsUnderway epoch s =
    (s.game_started ≡ true)
    × (0 < s.gameplay_starts_at_epoch_ms)
    × (s.gameplay_starts_at_epoch_ms ≤ epoch)

-- The engine that a request leaves, and what the request needs to reach it.
pub data Guarded (env : Environment) (epoch i : ℕ) (m : Message) (s : GameServer)
    : GameEngine → Type 0 where
  unconnected : (s.sessions i).connected ≡ false → Guarded env epoch i m s s.engine
  early : (s.sessions i).connected ≡ true → ¬ IsUnderway epoch s → Guarded env epoch i m s s.engine
  foreign :
      (s.sessions i).connected ≡ true
      → IsUnderway epoch s
      → ShowsForeign (s.sessions i).assigned_color m.source s.engine
      → Guarded env epoch i m s s.engine
  reached :
      (s.sessions i).connected ≡ true
      → IsUnderway epoch s
      → ShowsOwn (s.sessions i).assigned_color m.source s.engine
      → Guarded env epoch i m s (handle_message env.load m s.engine).0

enabled_parts :
    (epoch : ℕ) (s : GameServer) → is_gameplay_enabled epoch s ≡ true → IsUnderway epoch s
unfolding is_gameplay_enabled
enabled_parts epoch s e = ground arith

not_enabled :
    (epoch : ℕ) (s : GameServer) → is_gameplay_enabled epoch s ≡ false → ¬ IsUnderway epoch s
unfolding is_gameplay_enabled
not_enabled epoch s e (a, b, c) = ground arith

foreign-Shows :
    (c : PieceColor) (m : Message) (s : GameServer)
    → is_foreign c m s ≡ true
    → ShowsForeign c m.source s.engine
unfolding is_foreign
foreign-Shows c m s f = elim (Option-cases (get_piece_at s.engine.board m.source)) [
  | inl n ↦ absurd (ground arith)
  | inr (r, e) ↦ (r, e, other_color (s.engine.heap r).color c (ground arith))
]

own-Shows :
    (c : PieceColor) (m : Message) (s : GameServer)
    → is_foreign c m s ≡ false
    → ShowsOwn c m.source s.engine
unfolding is_foreign
own-Shows c m s f r e = same_color (s.engine.heap r).color c (ground arith)

Answers-Guarded :
    (env : Environment) (epoch i : ℕ) (m : Message) (s : GameServer)
    {out : GameServer × Option Message}
    → IsSound s
    → (s.sessions i).connected ≡ true
    → Answers env epoch (s.sessions i).assigned_color m s out
    → Guarded env epoch i m s out.0.engine
unfolding put_engine
Answers-Guarded env epoch i m s h c (Answers.early e) = Guarded.early c (not_enabled epoch s e)
Answers-Guarded env epoch i m s h c (Answers.foreign e f) =
    Guarded.foreign c (enabled_parts epoch s e) (foreign-Shows (s.sessions i).assigned_color m s f)
Answers-Guarded env epoch i m s h c (Answers.asked e f) =
    rw (ask_engine-empty env.load m s h.5)
      (reached c (enabled_parts epoch s e) (own-Shows (s.sessions i).assigned_color m s f))

-- A request leaves the engine alone if its session is not connected, if the game does not run yet,
-- or if a piece of the other colour stands on its source; else it comes from a connected session, in a
-- game that runs and has begun, no piece of the other colour stands on its source, and the engine is
-- what `handleMessage` leaves.
pub serve-Guarded :
    (env : Environment) (epoch now i : ℕ) (m : Message) (s : GameServer)
    → IsSound s
    → Guarded env epoch i m s (serve env epoch now i (some m) s).engine
unfolding serve
serve-Guarded env epoch now i m s h = elim (Bool-cases (s.sessions i).connected) [
  | inl c ↦
      rw (c, reply-engine now i (answer env epoch (s.sessions i).assigned_color m s))
        (Answers-Guarded env epoch i m s h c
          (answer-Answers env epoch (s.sessions i).assigned_color m s))
  | inr d ↦ rw (d, leave-keeps (HasEngine-IsStable s.engine) now i s refl) (unconnected d)
]

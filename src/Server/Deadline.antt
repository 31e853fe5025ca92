-- ===== src/Server/Deadline.antt =====
-- The end of the time that GameServer.cpp gives a player to come back.
use ctd_tamar.Common.{
  ℕ, ◌+◌, ◌*◌, ◌<◌, ◌≤◌, ◌≡◌, refl, true, false, List, [], ◌∷◌, ◌++◌, leb, is_empty_list, All,
  arith, ap, ◌∙◌, sym,
}
use ctd_tamar.Core.Piece.{PieceColor}
use ctd_tamar.Engine.State.{PieceConfigReader}
use ctd_tamar.Server.State.{Environment, GameServer}
use ctd_tamar.Server.Sessions.{has_expired}
use ctd_tamar.Server.Closing.{update_reconnection_state, close_expired_game, seconds_left}
use ctd_tamar.Server.Loop.{Running, tick, ServerEvent, passes, happen, happen_all}
use ctd_tamar.Server.Closes.{IsVacant, close_expired_game-IsVacant, close_expired_game-expires}
use ctd_tamar.Server.Waiting.{AwaitsReturn, IsHarmless, happen_all-AwaitsReturn}

happen_all-last :
    (env : Environment) (es : List ServerEvent) (e : ServerEvent) (r : Running)
    → happen_all env (es ++ e ∷ []) r ≡ happen env e (happen_all env es r)
unfolding happen_all
happen_all-last env [] e r = refl
happen_all-last env (x ∷ es) e r = happen_all-last env es e (happen env x r)

late_update :
    (now : ℕ) (s : GameServer)
    → s.reconnection_pending ≡ true
    → leb s.reconnection_deadline now ≡ true
    → update_reconnection_state now s ≡ close_expired_game s
unfolding update_reconnection_state
late_update now s p e = simp (p, e) refl

late_tick :
    (load : PieceConfigReader) (now : ℕ) (r : Running)
    → r.server.reconnection_pending ≡ true
    → leb r.server.reconnection_deadline now ≡ true
    → (tick load now r).server ≡ close_expired_game r.server
unfolding tick
late_tick load now r p e =
    rw (late_update now r.server p e, (close_expired_game-IsVacant r.server).4) refl

module _ {color : PieceColor} {deadline : ℕ} {token : List ℕ} where
  late :
      (now : ℕ) (s : GameServer)
      → AwaitsReturn color deadline token s
      → deadline ≤ now
      → leb s.reconnection_deadline now ≡ true
  late now s h l = ground arith

  -- While the slot of a player is reserved, and whatever else happens, such as handshakes without
  -- the slot's token, requests, and departures: if the token does not come back, then the first
  -- round of the game loop at or after the deadline empties both slots, puts a new engine in place
  -- and expires the token.
  pub happen_all-closes :
      (env : Environment) (es : List ServerEvent) (r : Running) (now : ℕ)
      → AwaitsReturn color deadline token r.server
      → is_empty_list token ≡ false
      → All (IsHarmless deadline token) es
      → deadline ≤ now
      → IsVacant (happen_all env (es ++ passes now ∷ []) r).server
        × (has_expired token (happen_all env (es ++ passes now ∷ []) r).server ≡ true)
  unfolding happen
  happen_all-closes env es r now h given d l =
      let before = happen_all env es r in
      let a = happen_all-AwaitsReturn color deadline token env es r d h in
      rw
        (
          happen_all-last env es (passes now) r,
          late_tick env.load now before a.1 (late now before.server a l),
        )
        (
          close_expired_game-IsVacant before.server,
          rw (sym a.4)
              (close_expired_game-expires color before.server (ap is_empty_list a.4 ∙ given)),
        )

-- The seconds that are announced are those left, rounded to the next one: they fall short by less
-- than a millisecond and exceed what is left by less than a second; and they are twenty at most.
pub seconds_left_bounds :
    (deadline now : ℕ)
    → now < deadline
    → deadline ≤ now + 20 * 1000000000
    → (seconds_left deadline now ≤ 20)
      × (deadline < now + seconds_left deadline now * 1000000000 + 1000000)
      × (now + seconds_left deadline now * 1000000000 < deadline + 1000000000)
unfolding seconds_left
seconds_left_bounds deadline now h l = omega arith

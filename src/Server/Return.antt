-- ===== src/Server/Return.antt =====
-- GameServer.cpp: a player leaves a game that was started, and comes back.
use ctd_tamar.Common.{
  ℕ, ◌+◌, ◌≡◌, refl, ◌∙◌, ap, true, false, not, ◌&&◌, ◌||◌, Option, none, some, List, ◌==◌, ==_refl,
  if-true, if-false, is_empty_list, arith,
}
use ctd_tamar.Core.Piece.{PieceColor, white, black}
use ctd_tamar.Client.Username.{trim, is_valid}
use ctd_tamar.Server.State.{
  Environment, GameServer, ClientSession, new_session, put_session, disconnect, is_connected,
}
use ctd_tamar.Server.Sessions.{
  pick, player_of, token_of, username_of, vacate, vacated, first_player, remaining_of, holds,
  reserve, drop_session, remove_session, remove_with, depart, reserves_slot, reconnection_period,
  reclaim, seat, create_session, admitted, has_expired, valid_reconnect, send_reconnecting_status,
}
use ctd_tamar.Server.Service.{leave}
use ctd_tamar.Server.Stable.{
  is_player, color_of, drop_session-keeps, send_reconnecting_status-keeps,
}
use ctd_tamar.Server.Invariant.{Seats, IsSound, IsSound-IsStable}
use ctd_tamar.Server.Admits.{next_id}
use ctd_tamar.Server.Closes.{same_text_refl}
use ctd_tamar.Server.Waiting.{AwaitsReturn, AwaitsReturn-IsStable}

-- The other player stays when one of the two leaves.
other_remains :
    (color : PieceColor) (f : ℕ → ClientSession) (n i j : ℕ) (w b : Option ℕ)
    → Seats f n white w
    → Seats f n black b
    → pick color w b ≡ some i
    → pick color b w ≡ some j
    → ((holds w i || holds b i) ≡ true)
      × (first_player (vacate w i) (vacate b i) ≡ some j)
      × ((f i).assigned_color ≡ color)
      × ((j == i) ≡ false)
other_remains white f n i j none b hw hb p q = cc
other_remains white f n i j (some w) none hw hb p q = cc
other_remains white f n i j (some w) (some b) hw hb p q = ground arith
other_remains black f n i j none b hw hb p q = cc
other_remains black f n i j (some w) none hw hb p q = cc
other_remains black f n i j (some w) (some b) hw hb p q = ground arith

other_connected :
    (i j : ℕ) (s : GameServer)
    → (j == i) ≡ false
    → (s.sessions j).connected ≡ true
    → ((vacated i (drop_session i s)).sessions j).connected ≡ true
unfolding drop_session vacated
other_connected i j s ne e = rw ne e

remove_with-reserves :
    (announce : ℕ → GameServer → GameServer) (now i : ℕ) (s : GameServer)
    → is_player i s ≡ true
    → reserves_slot (vacated i s) ≡ true
    → remove_with announce now i s ≡ announce 20 (reserve now (color_of i s) (vacated i s))
unfolding remove_with depart
remove_with-reserves announce now i s y e =
    if-true (is_player i s) _ _ y ∙ if-true (reserves_slot (vacated i s)) _ _ e

on :
    (j : ℕ) (t : GameServer)
    → remaining_of t ≡ some j
    → (t.sessions j).connected ≡ true
    → is_connected (remaining_of t) t ≡ true
on j t r e = ap (λ (o : Option ℕ). is_connected o t) r ∙ e

reserves_slot-left :
    (j : ℕ) (t : GameServer)
    → t.game_was_started ≡ true
    → t.closing_expired_game ≡ false
    → remaining_of t ≡ some j
    → (t.sessions j).connected ≡ true
    → reserves_slot t ≡ true
reserves_slot-left j t w c r e = simp (w, c, on j t r e)

drop_session-color : (i : ℕ) (s : GameServer) → color_of i (drop_session i s) ≡ color_of i s
unfolding drop_session disconnect put_session
drop_session-color i s = ground arith

module _ (color : PieceColor) (now i j : ℕ) (s : GameServer) where
  -- A player who leaves a started game while the other one is connected has the slot reserved, with
  -- its token, for twenty seconds.
  pub leave-AwaitsReturn :
      IsSound s
      → player_of color s ≡ some i
      → pick color s.black_player s.white_player ≡ some j
      → (s.sessions j).connected ≡ true
      → s.game_was_started ≡ true
      → AwaitsReturn color (now + reconnection_period) (token_of color s) (leave now i s)
  unfolding leave remove_session drop_session vacated reserve put_session
  leave-AwaitsReturn h p q c w =
      let o =
        other_remains color s.sessions s.next_client_id i j s.white_player s.black_player h.0 h.1 p
          q in
      let t : GameServer = drop_session i s in
      let dropped = drop_session-keeps IsSound-IsStable i s h in
      let own : color_of i t ≡ color = drop_session-color i s ∙ o.2 in
      let slot = reserves_slot-left j (vacated i t) w h.4 o.1 (other_connected i j s o.3 c) in
      rw (remove_with-reserves (send_reconnecting_status now) now i t o.0 slot) (
        send_reconnecting_status-keeps (AwaitsReturn-IsStable color _ (token_of color s)) now 20 _ (
          IsSound-IsStable.reserves now i t o.0 w
              (on j (vacated i t) o.1 (other_connected i j s o.3 c)) dropped,
          refl,
          own,
          refl,
          refl,
        ))

pick_own :
    {A : Type 0} (color : PieceColor) (o w b : A) → pick color (pick color o w) (pick color b o) ≡ o
pick_own white o w b = refl
pick_own black o w b = refl

pick_other :
    {A : Type 0} (color : PieceColor) (o w b : A)
    → pick color (pick color b o) (pick color o w) ≡ pick color b w
pick_other white o w b = refl
pick_other black o w b = refl

own_token :
    (s : GameServer)
    → s.reconnection_pending ≡ true
    → is_empty_list (token_of s.reserved_color s) ≡ false
    → valid_reconnect (token_of s.reserved_color s) s ≡ true
unfolding valid_reconnect
own_token s p e = simp (p, e, same_text_refl (token_of s.reserved_color s))

admitted_back :
    (env : Environment) (name : List ℕ) (s : GameServer)
    → s.reconnection_pending ≡ true
    → s.closing_expired_game ≡ false
    → is_empty_list (token_of s.reserved_color s) ≡ false
    → has_expired (token_of s.reserved_color s) s ≡ false
    → create_session env (token_of s.reserved_color s) name s
      ≡ (reclaim s.next_client_id (next_id s), admitted s.next_client_id)
unfolding create_session has_expired valid_reconnect
admitted_back env name s p c e x =
    let v = own_token s p e in
    if-false s.closing_expired_game _ _ c
    ∙ if-false (has_expired (token_of s.reserved_color s) s) _ _ x
    ∙ if-false (not (valid_reconnect (token_of s.reserved_color s) s) && not (is_valid (trim name)))
        _ _ (rw v refl)
    ∙ if-true (valid_reconnect (token_of s.reserved_color s) s) _ _ v

-- While a slot is reserved, whoever presents its token gets it back, whatever name is asked for: a
-- new session of the slot's colour and name, beside the same other player, and in the same game.
pub create_session-returns :
    (env : Environment) (name : List ℕ) (s : GameServer)
    → s.reconnection_pending ≡ true
    → s.closing_expired_game ≡ false
    → is_empty_list (token_of s.reserved_color s) ≡ false
    → has_expired (token_of s.reserved_color s) s ≡ false
    → let out = create_session env (token_of s.reserved_color s) name s in
      let color = s.reserved_color in
      let id = s.next_client_id in
      (out.1 ≡ admitted id)
      × (player_of color out.0 ≡ some id)
      × (out.0.sessions id ≡ new_session id color (username_of color s))
      × (pick color out.0.black_player out.0.white_player
          ≡ pick color s.black_player s.white_player)
      × (out.0.engine ≡ s.engine)
      × (out.0.game_was_started ≡ s.game_was_started)
      × (out.0.reconnection_pending ≡ false)
unfolding reclaim seat put_session
create_session-returns env name s p c e x = rw (admitted_back env name s p c e x) (
  refl,
  pick_own s.reserved_color _ _ _,
  if-true (s.next_client_id == s.next_client_id) _ _ (==_refl s.next_client_id),
  pick_other s.reserved_color _ _ _,
  refl,
  refl,
  refl,
)

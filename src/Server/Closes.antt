-- ===== src/Server/Closes.antt =====
-- What `closeExpiredGame` of GameServer.cpp leaves: a server for two new players.
use ctd_tamar.Common.{
  ℕ, ◌≡◌, refl, Bool, true, false, none, List, [], ◌∷◌, ◌++◌, is_empty_list, same_text,
  same_text_iff, contains_text, arith,
}
use ctd_tamar.Core.Piece.{PieceColor, white, black}
use ctd_tamar.Messaging.Bus
use ctd_tamar.Server.State.{GameServer, fresh_engine}
use ctd_tamar.Server.Sessions.{slot_list, pick, token_of, has_expired}
use ctd_tamar.Server.Closing.{begin_closing, close_sessions, end_game, close_expired_game, expire}
use ctd_tamar.Server.Invariant.{IsSound}

close_sessions-frame :
    (is : List ℕ) (s : GameServer)
    → close_sessions is s ≡ record s { sessions = (close_sessions is s).sessions }
unfolding close_sessions
close_sessions-frame [] s = refl
close_sessions-frame (i ∷ is) s = close_sessions-frame is _

-- The sessions after they were told.
abbrev told : GameServer → GameServer
told s = close_sessions (slot_list s.white_player ++ slot_list s.black_player) (begin_closing s)

end_game-frame :
    (b : Bool) (s : GameServer)
    → end_game b s ≡ record s { subscribers = (end_game b s).subscribers }
unfolding end_game
end_game-frame true s = refl
end_game-frame false s = refl

abbrev pub closed : GameServer → GameServer
closed s = record s {
  sessions = (close_expired_game s).sessions;
  subscribers = (close_expired_game s).subscribers;
  engine = fresh_engine;
  message_bus = Bus.new;
  white_player = none;
  black_player = none;
  game_started = false;
  white_reconnect_token = [];
  black_reconnect_token = [];
  white_username = [];
  black_username = [];
  expired_reconnect_tokens =
      expire s.black_reconnect_token (expire s.white_reconnect_token s.expired_reconnect_tokens);
  game_was_started = false;
  reconnection_pending = false;
  closing_expired_game = false;
  last_reconnect_seconds_sent = none;
  gameplay_starts_at_epoch_ms = 0;
}

pub close_expired_game-closed : (s : GameServer) → close_expired_game s ≡ closed s
unfolding close_expired_game
close_expired_game-closed s =
    rw
      (
        end_game-frame s.game_was_started (told s),
        close_sessions-frame (slot_list s.white_player ++ slot_list s.black_player)
            (begin_closing s),
      )
      refl

pub close_expired_game-IsSound : (s : GameServer) → IsSound (close_expired_game s)
close_expired_game-IsSound s = rw (close_expired_game-closed s) (tt, tt, tt, refl, refl, refl)

pub same_text_refl : (a : List ℕ) → same_text a a ≡ true
same_text_refl a = (same_text_iff a a).1 refl

-- Closing a game expires the tokens of both players.
contains-expire :
    (color : PieceColor) (w b : List ℕ) (old : List (List ℕ))
    → is_empty_list (pick color w b) ≡ false
    → contains_text (pick color w b) (expire b (expire w old)) ≡ true
unfolding contains_text
contains-expire white w b old e = ground (arith, same_text_refl w, same_text_iff w b)
contains-expire black w b old e = ground (arith, same_text_refl b, same_text_iff b w)

-- The server as two new players find it.
abbrev pub IsVacant : GameServer → Type 0
IsVacant s =
    (s.white_player ≡ none)
    × (s.black_player ≡ none)
    × (s.engine ≡ fresh_engine)
    × (s.game_was_started ≡ false)
    × (s.game_started ≡ false)
    × (s.reconnection_pending ≡ false)

pub close_expired_game-IsVacant : (s : GameServer) → IsVacant (close_expired_game s)
close_expired_game-IsVacant s =
    rw (close_expired_game-closed s) (refl, refl, refl, refl, refl, refl)

pub close_expired_game-expires :
    (color : PieceColor) (s : GameServer)
    → is_empty_list (token_of color s) ≡ false
    → has_expired (token_of color s) (close_expired_game s) ≡ true
unfolding has_expired
close_expired_game-expires color s e =
    rw
      (
        close_expired_game-closed s,
        e,
        contains-expire color s.white_reconnect_token s.black_reconnect_token
            s.expired_reconnect_tokens e,
      )
      refl

-- A token that has expired stays so.
pub close_expired_game-keeps_expired :
    (token : List ℕ) (s : GameServer)
    → contains_text token s.expired_reconnect_tokens ≡ true
    → contains_text token (close_expired_game s).expired_reconnect_tokens ≡ true
unfolding contains_text
close_expired_game-keeps_expired token s e = rw (close_expired_game-closed s) (ground arith)

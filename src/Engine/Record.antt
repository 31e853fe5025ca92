-- ===== src/Engine/Record.antt =====
-- Scores, history, notation, promotion and the end of the game, from GameEngine.cpp.
use ctd_tamar.Common.{
  ℕ, ◌+◌, ◌*◌, ◌%◌, ℤ, pos, negsuc, sub_ℕ, ◌-ℤ◌, eq_ℤ, Bool, true, false, ◌&&◌, ◌||◌, not, List, [],
  ◌∷◌, ◌++◌, ◌==◌, if◌then◌else◌, to_string,
}
use ctd_tamar.Core.Position.{Position}
use ctd_tamar.Core.Piece.{
  PieceColor, white, black, PieceKind, king, queen, rook, bishop, knight, pawn, is_white, is_pawn,
  set_kind, kind_to_char,
}
use ctd_tamar.Core.Board.{Ref}
use ctd_tamar.Core.Results.{MoveHistoryEntry, Reason}
use ctd_tamar.Messaging.Event.{GameEvent, default_event, move_completed, score_updated, game_ended}
use ctd_tamar.Engine.State.{GameEngine, update_piece, publish}

unfoldable pub get_piece_value : PieceKind → ℕ
get_piece_value pawn = 1
get_piece_value knight = 3
get_piece_value bishop = 3
get_piece_value rook = 5
get_piece_value queen = 9
get_piece_value king = 0

-- The points go to the attacker's colour.
abbrev pub add_points : PieceColor → ℕ → GameEngine → GameEngine
add_points white v g = record g { white_score = g.white_score + v }
add_points black v g = record g { black_score = g.black_score + v }

abbrev pub score_event : GameEngine → GameEvent
score_event g = record (default_event score_updated) {
  white_score = g.white_score;
  black_score = g.black_score;
}

unfoldable pub add_capture_score : PieceColor → PieceKind → GameEngine → GameEngine
unfolding get_piece_value publish
add_capture_score attacker captured_kind g =
    let value = get_piece_value captured_kind in
    if value == 0
    then g
    else (let scored = add_points attacker value g in publish (score_event scored) scored)

unfoldable pub publish_move_completed :
    MoveHistoryEntry → Bool → PieceKind → PieceColor → GameEngine → GameEngine
unfolding publish
publish_move_completed e has_captured kind color g =
    publish
      (record (default_event move_completed) {
        source = e.source;
        destination = e.destination;
        moving_piece_kind = e.piece_kind;
        moving_piece_color = e.color;
        was_capture = e.was_capture;
        has_captured_piece = has_captured;
        captured_piece_kind = kind;
        captured_piece_color = color;
        was_promotion = e.was_promotion;
        was_jump = e.was_jump;
        completed_at_ms = e.completed_at_ms;
        white_score = g.white_score;
        black_score = g.black_score;
      })
      g

unfoldable pub end_game : PieceColor → Reason → GameEngine → GameEngine
unfolding publish
end_game winner reason g =
    if g.game_over
    then g
    else publish
        (record (default_event game_ended) {
          has_winner = true;
          winner = winner;
          game_end_reason = reason;
          white_score = g.white_score;
          black_score = g.black_score;
        })
        (record g { game_over = true })

-- `static_cast<char>('a' + col)`, one byte.
abbrev pub column_letter : ℤ → ℕ
column_letter (pos n) = (b'a' + n) % 256
column_letter (negsuc n) = (b'a' + 255 * (n + 1)) % 256

abbrev pub text_if : Bool → List ℕ → List ℕ
text_if true t = t
text_if false t = []

unfoldable pub build_move_notation :
    GameEngine → PieceKind → Position → Position → Bool → Bool → List ℕ
unfolding kind_to_char to_string
build_move_notation g kind s d was_capture was_promotion =
    (if not (is_pawn kind)
      then kind_to_char kind ∷ []
      else text_if was_capture (column_letter s.col ∷ []))
    ++ (text_if was_capture (b'x' ∷ [])
        ++ (column_letter d.col
            ∷ (to_string (pos g.board.height -ℤ d.row)
                ++ text_if was_promotion (b'=' ∷ b'Q' ∷ []))))

-- An entry goes to the history of its colour.
unfoldable pub push_history : MoveHistoryEntry → GameEngine → GameEngine
push_history e g =
    if is_white e.color
    then record g { white_move_history = g.white_move_history ++ e ∷ [] }
    else record g { black_move_history = g.black_move_history ++ e ∷ [] }

unfoldable pub record_move :
    Ref
    → PieceKind
    → Position
    → Position
    → (was_capture was_promotion was_jump : Bool) → ℕ
    → GameEngine
    → GameEngine
unfolding build_move_notation push_history
record_move r original_kind s d was_capture was_promotion was_jump at g =
    push_history
      (record {
        completed_at_ms = at;
        color = (g.heap r).color;
        piece_kind = original_kind;
        source = s;
        destination = d;
        was_capture = was_capture;
        was_promotion = was_promotion;
        was_jump = was_jump;
        notation = build_move_notation g original_kind s d was_capture was_promotion;
      })
      g

abbrev pub promotes : GameEngine → PieceKind → PieceColor → Position → Bool
promotes g kind color cell =
    is_pawn kind
    && ((is_white color && eq_ℤ cell.row (pos 0))
        || (not (is_white color) && eq_ℤ cell.row (sub_ℕ g.board.height 1)))

unfoldable pub promote_pawn_if_needed : Ref → Position → GameEngine → GameEngine × Bool
unfolding update_piece
promote_pawn_if_needed r cell g =
    if not (promotes g (g.heap r).kind (g.heap r).color cell)
    then (g, false)
    else (update_piece r (set_kind queen) g, true)

-- ===== src/Client/Clicks.antt =====
-- `click` of NetworkController.cpp: how a click of a player ends.
use ctd_tamar.Common.{
  ℤ, ◌≡◌, ◌≢◌, refl, ap, ◌∙◌, ◌⊎◌, inl, inr, Bool, true, false, not, ◌||◌, Option, none, some,
  if◌then◌else◌, if-cases, is_some, arith,
}
use ctd_tamar.Core.Position.{Position, pos_eq, pos_eq→eq, pos_ne→ne}
use ctd_tamar.Core.Results.{Reason, ControllerResult}
use ctd_tamar.Messaging.Snapshot.{move_request, jump_request}
use ctd_tamar.Client.GameState.{find_piece_at, is_game_over}
use ctd_tamar.Client.NetworkController.{
  NetworkController, Network, is_piece_available, is_owned_piece, select, result, send_request,
  select_first_piece, select_friendly_piece, handle_selected_cell, click_cell, with_game, click,
  map_click_to_cell, apply_pending_updates, have_same_color, token_text,
}
use ctd_tamar.Client.Pieces.{
  IsReady, IsAlike, Ready-of, Alike-iff, not-Ready, missing, denied, either, both, granted,
}

-- The game has started, has been shown and is not over.
abbrev pub IsOpen : NetworkController → Type 0
IsOpen n =
    (n.client.game_started ≡ true)
    × (n.game_state.initialized ≡ true)
    × (n.game_state.current_snapshot.game_over ≡ false)

-- The pixel is one of a cell, in an open game with this selection.
abbrev pub IsOn : ℤ → ℤ → NetworkController → Position → Option Position → Type 0
IsOn x y n cell selected =
    IsOpen n × (map_click_to_cell x y n ≡ some cell) × (n.selected_cell ≡ selected)

-- How a click on a pixel ends, from the controller that has applied the pending updates.
pub data ClickEnds (net : Network) (x y : ℤ) (n : NetworkController)
    : NetworkController × ControllerResult → Type 0 where
  waits :
      n.client.game_started ≡ false
      → ClickEnds net x y n (result false Reason.waiting_for_opponent (select none n))
  unshown :
      n.client.game_started ≡ true
      → n.game_state.initialized ≡ false
      → ClickEnds net x y n (result false Reason.client_state_not_initialized n)
  over :
      n.client.game_started ≡ true
      → n.game_state.initialized ≡ true
      → n.game_state.current_snapshot.game_over ≡ true
      → ClickEnds net x y n (result false Reason.game_over (select none n))
  outside :
      IsOpen n
      → map_click_to_cell x y n ≡ none
      → ClickEnds net x y n (result (is_some n.selected_cell) Reason.click_outside (select none n))
  selects :
      (cell : Position)
      → IsOn x y n cell none
      → IsReady n cell
      → ClickEnds net x y n (result true Reason.selected (select (some cell) n))
  ignores :
      (cell : Position) (why : Reason)
      → IsOn x y n cell none
      → ¬ IsReady n cell
      → ClickEnds net x y n (result false why n)
  jumps :
      (source : Position)
      → IsOn x y n source (some source)
      → ClickEnds net x y n (send_request net jump_request source source n)
  moves :
      (source cell : Position)
      → IsOn x y n cell (some source)
      → cell ≢ source
      → IsReady n source
      → ¬ IsAlike n source cell
      → ClickEnds net x y n (send_request net move_request source cell n)
  reselects :
      (source cell : Position)
      → IsOn x y n cell (some source)
      → cell ≢ source
      → IsReady n source
      → IsAlike n source cell
      → IsReady n cell
      → ClickEnds net x y n (result true Reason.selected (select (some cell) n))
  drops :
      (source cell : Position) (why : Reason)
      → IsOn x y n cell (some source)
      → cell ≢ source
      → (¬ IsReady n source) ⊎ (IsAlike n source cell × ¬ IsReady n cell)
      → ClickEnds net x y n (result false why (select none n))

module _ (net : Network) (x y : ℤ) (n : NetworkController) where
  abbrev Out : Type 0
  Out = NetworkController × ControllerResult

  abbrev E : Out → Type 0
  E = ClickEnds net x y n

  select_first_piece-Ends : (cell : Position) → IsOn x y n cell none → E (select_first_piece cell n)
  unfolding select_first_piece
  select_first_piece-Ends cell on =
      let o = find_piece_at cell n.game_state in
      if-cases E (not (is_some o)) _ _
        (λ m. ignores cell Reason.empty_click on (not-Ready n o (inl (missing o m))))
        (λ _.
          if-cases E (not (is_piece_available o)) _ _
            (λ a. ignores cell Reason.motion_in_progress on (not-Ready n o (inl (denied _ a))))
            (λ a.
              if-cases E (not (is_owned_piece o n)) _ _
                (λ w. ignores cell Reason.not_your_piece on (not-Ready n o (inr (denied _ w))))
                (λ w. selects cell on (Ready-of n o (granted _ a) (granted _ w)))))

  select_friendly_piece-Ends :
      (source cell : Position)
      → IsOn x y n cell (some source)
      → cell ≢ source
      → IsReady n source
      → IsAlike n source cell
      → E (select_friendly_piece cell n)
  unfolding select_friendly_piece
  select_friendly_piece-Ends source cell on ne r like =
      let o = find_piece_at cell n.game_state in
      if-cases E (not (is_piece_available o) || not (is_owned_piece o n)) _ _
        (λ h. drops source cell _ on ne (inr (like, not-Ready n o (either _ _ h))))
        (λ h. let (a, w) = both _ _ h in reselects source cell on ne r like (Ready-of n o a w))

  handle_selected_cell-Ends :
      (source cell : Position)
      → IsOn x y n cell (some source)
      → E (handle_selected_cell net source cell n)
  unfolding handle_selected_cell
  handle_selected_cell-Ends source cell on =
      let piece = find_piece_at source n.game_state in
      let clicked = find_piece_at cell n.game_state in
      let same : Bool = have_same_color (token_text piece) (token_text clicked) in
      let last : Out =
        if same
        then select_friendly_piece cell n
        else send_request net move_request source cell n in
      let owned : Out =
        if not (is_owned_piece piece n)
        then result false Reason.not_your_piece (select none n)
        else last in
      let available : Out =
        if not (is_piece_available piece)
        then result false Reason.motion_in_progress (select none n)
        else owned in
      if-cases E (pos_eq cell source) _ _
        (λ q. jumps source (on.0, on.1 ∙ ap some (pos_eq→eq cell source q), on.2))
        (λ q.
          let ne = pos_ne→ne cell source q in
          if-cases E (not (is_some piece)) _ available
            (λ m.
              drops source cell Reason.empty_source on ne
                (inl (not-Ready n piece (inl (missing piece m)))))
            (λ _.
              if-cases E (not (is_piece_available piece)) _ owned
                (λ a.
                  drops source cell Reason.motion_in_progress on ne
                    (inl (not-Ready n piece (inl (denied _ a)))))
                (λ a.
                  if-cases E (not (is_owned_piece piece n)) _ last
                    (λ w.
                      drops source cell Reason.not_your_piece on ne
                        (inl (not-Ready n piece (inr (denied _ w)))))
                    (λ w.
                      let r = Ready-of n piece (granted _ a) (granted _ w) in
                      if-cases E same _ _
                        (λ k.
                          select_friendly_piece-Ends source cell on ne r
                            ((Alike-iff piece clicked).0 k))
                        (λ k.
                          moves source cell on ne r
                            (λ l. let e = (Alike-iff piece clicked).1 l in ground arith))))))

  click_selected-Ends :
      (cell : Position) (selected : Option Position)
      → IsOn x y n cell selected
      → E (elim selected [
        | none ↦ select_first_piece cell n
        | some source ↦ handle_selected_cell net source cell n
      ])
  click_selected-Ends cell none on = select_first_piece-Ends cell on
  click_selected-Ends cell (some source) on = handle_selected_cell-Ends source cell on

  click_cell-Ends :
      (cell : Option Position)
      → IsOpen n
      → map_click_to_cell x y n ≡ cell
      → E (click_cell net cell n)
  click_cell-Ends none runs h = outside runs h
  click_cell-Ends (some cell) runs h = click_selected-Ends cell n.selected_cell (runs, h, refl)

  with_game-Ends :
      E (with_game (λ (m : NetworkController). click_cell net (map_click_to_cell x y m) m) n)
  unfolding with_game
  with_game-Ends =
      let last : Out = click_cell net (map_click_to_cell x y n) n in
      let running : Out =
        if is_game_over n.game_state then result false Reason.game_over (select none n) else last in
      if-cases E (not n.client.game_started) _ _ (λ s. waits (denied _ s))
        (λ s.
          if-cases E (not n.game_state.initialized) _ running
            (λ i. unshown (granted _ s) (denied _ i))
            (λ i.
              if-cases E (is_game_over n.game_state) _ last
                (λ o. over (granted _ s) (granted _ i) (ground arith))
                (λ o.
                  click_cell-Ends (map_click_to_cell x y n) (granted _ s, granted _ i, ground arith)
                    refl)))

-- A click first applies the pending updates. Without a started, shown game that is not over it sends
-- nothing, and outside the board it drops the selection. Else the pixel is one of a cell. With
-- nothing selected the cell is selected if a piece of the player's own stands there, idle and not
-- resting; otherwise nothing changes. A click on the selected cell itself asks for a jump there. A
-- click on another cell asks for a move from the selected cell to it, if the piece on the selected
-- cell is the player's, idle and not resting, and no piece of the same colour is on the other; on
-- such a piece it changes the selection, if that one is the player's, idle and not resting. In all
-- other cases the selection is dropped.
pub click-Ends :
    (net : Network) (x y : ℤ) (n : NetworkController)
    → ClickEnds net x y (apply_pending_updates n).0 (click net x y n)
unfolding click
click-Ends net x y n = with_game-Ends net x y (apply_pending_updates n).0

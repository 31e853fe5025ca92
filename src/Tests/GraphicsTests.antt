-- ===== src/Tests/GraphicsTests.antt =====
-- The theorem on animations at a player of two frames.
use ctd_tamar.Common.{pos, ◌≡◌, refl, true, some, [], ◌∷◌, arith}
use ctd_tamar.Graphics.Animation.{AnimationPlayer, set_frames, update, frame_duration_ms}
use ctd_tamar.Graphics.Animation
use ctd_tamar.Graphics.Frames.{Plays, update-Plays}

-- Two frames at eight a second, in a loop.
abbrev some_player : AnimationPlayer
some_player = set_frames ((1 ∷ []) ∷ (2 ∷ []) ∷ []) (pos 8) true Animation.new

update-Plays_example :
    (q : AnimationPlayer) × (update 301 300 some_player ≡ some q)
    × Plays (frame_duration_ms 8) (record some_player { elapsed_ms = 300 }) q
update-Plays_example = update-Plays some_player 7 300 refl (omega arith) (omega arith)

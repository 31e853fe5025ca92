-- ===== src/Graphics/Animation.antt =====
-- client/desktop_client/src/Graphics/AnimationPlayer.cpp. The time between two updates is not negative.
use ctd_tamar.Common.{
  ℕ, zero, suc, ◌+◌, ◌-◌, ◌/◌, ℤ, pos, Bool, true, Option, none, some, List, [], length, leb,
  if◌then◌else◌, is_empty_list,
}

pub record AnimationPlayer : Type 0 where
  pub frame_paths : List (List ℕ)
  pub current_frame_index : ℕ
  pub frames_per_second : ℤ
  pub loop : Bool
  pub elapsed_ms : ℕ

abbrev pub new : AnimationPlayer
new = record {
  frame_paths = [];
  current_frame_index = 0;
  frames_per_second = pos 8;
  loop = true;
  elapsed_ms = 0;
}

abbrev pub set_frames : List (List ℕ) → ℤ → Bool → AnimationPlayer → AnimationPlayer
set_frames paths fps loop p = record {
  frame_paths = paths;
  current_frame_index = 0;
  frames_per_second = fps;
  loop = loop;
  elapsed_ms = 0;
}

-- The frame after one: behind the last one comes the first, or again the last.
abbrev pub next_index : AnimationPlayer → ℕ
next_index p =
    if leb (length p.frame_paths) (suc p.current_frame_index)
    then (if p.loop then 0 else length p.frame_paths - 1)
    else suc p.current_frame_index

-- A round of the loop of `update`.
abbrev pub next_frame : ℕ → AnimationPlayer → AnimationPlayer
next_frame duration p = record p {
  elapsed_ms = p.elapsed_ms - duration;
  current_frame_index = next_index p;
}

-- The loop of `update`; `none` means that the fuel ran out.
unfoldable pub advance_frames : ℕ → ℕ → AnimationPlayer → Option AnimationPlayer
advance_frames zero duration p = none
advance_frames (suc fuel) duration p =
    let rest = advance_frames fuel duration (next_frame duration p) in
    if leb duration p.elapsed_ms then rest else some p

-- A second has so many milliseconds for each frame.
abbrev pub frame_duration_ms : ℕ → ℕ
frame_duration_ms fps = 1000 / fps

abbrev pub advance_by : ℕ → ℤ → ℕ → AnimationPlayer → Option AnimationPlayer
advance_by fuel (pos (suc fps)) delta p =
    advance_frames fuel (frame_duration_ms (suc fps))
      (record p { elapsed_ms = p.elapsed_ms + delta })
advance_by fuel _ delta p = some p

unfoldable pub update : ℕ → ℕ → AnimationPlayer → Option AnimationPlayer
unfolding advance_frames
update fuel delta p =
    if is_empty_list p.frame_paths then some p else advance_by fuel p.frames_per_second delta p

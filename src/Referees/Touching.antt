-- ===== src/Referees/Touching.antt =====
-- What `TouchRef` (src/referee.cpp) notes of kicks and touches.
use rcssserver.Base.{ℕ, Bool, false, not, ◌&&◌, ◌==◌, ltb, leb, Option, none, some, if◌then◌else◌}
use rcssserver.Mode.{PlayMode}
use rcssserver.Match.State.{Player, same_player, Match, TouchRef}
use rcssserver.Match.ModeChange.{is_play_on}
use rcssserver.Referees.View.{View}

-- `M_last_indirect_kicker && M_last_indirect_kicker != &kicker`.
abbrev pub is_other : Player → Option Player → Bool
is_other p none = false
is_other p (some q) = not (same_player q p)

-- A second player at the ball ends the indirect free kick.
abbrev pub end_indirect : PlayMode → Player → TouchRef → TouchRef
end_indirect pm p t =
    if is_play_on pm && is_other p t.last_indirect_kicker
    then record t { last_indirect_kicker = none; indirect_mode = false }
    else t

abbrev pub note_indirect : Player → TouchRef → TouchRef
note_indirect p t = if t.indirect_mode then record t { last_indirect_kicker = some p } else t

-- The last to touch the ball; within a cycle, the one whose kick is the strongest.
abbrev pub note_touch : Player → ℕ → ℕ → TouchRef → TouchRef
note_touch p accel_r time t =
    if (t.last_touched_time == time) && leb t.last_touched_accel_r accel_r
    then record t { last_touched = some p; last_touched_accel_r = accel_r }
    else if ltb t.last_touched_time time
    then record t {
      last_touched = some p;
      last_touched_time = time;
      last_touched_accel_r = accel_r;
    }
    else t

-- `TouchRef::kickTaken`, also for `tackleTaken`.
unfoldable pub touch_kick_taken : View → Player → ℕ → Match → Match
touch_kick_taken v p accel_r m =
    if not v.beyond_goal_line
    then record m {
      touch = note_touch p accel_r m.time (note_indirect p (end_indirect m.playmode p m.touch));
    }
    else m

-- `TouchRef::ballTouched`.
unfoldable pub touch_ball_touched : View → Player → Match → Match
touch_ball_touched v p m =
    if not v.beyond_goal_line
    then record m {
      touch = note_touch p 0 m.time (note_indirect p (end_indirect m.playmode p m.touch));
    }
    else m

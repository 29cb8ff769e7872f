-- ===== src/Referees/Taking.antt =====
-- What `FreeKickRef` (src/referee.cpp) does when a player kicks or touches the ball.
use rcssserver.Base.{ℕ, Bool, true, false, not, ◌&&◌, ◌==◌, ltb, some, negsuc, if◌then◌else◌}
use rcssserver.Mode
use rcssserver.Mode.{Side, left, neutral, right, PlayMode, opposite, same_side}
use rcssserver.Match.State.{ServerParam, Player, Match, mark_free_kick_fault, emit}
use rcssserver.Match.ModeChange.{
  is_penalty_shoot_out, is_play_on, goal_kick, clear_ball_catcher, change_play_mode,
}
use rcssserver.Referees.Awards.{award, award_goal_kick}
use rcssserver.Referees.Kicks.{taker_side}
use rcssserver.Referees.Catching.{is_player}

abbrev fault_award : ServerParam → Side → Match → Match
fault_award sp left m = award sp Mode.free_kick_fault_left right m
fault_award sp neutral m = m
fault_award sp right m = award sp Mode.free_kick_fault_right left m

-- `FreeKickRef::callFreeKickFault`.
unfoldable pub call_free_kick_fault : ServerParam → Side → Match → Match
call_free_kick_fault sp s m =
    let called = fault_award sp s (clear_ball_catcher m) in
    let f = called.free_kick in
    record called { free_kick = record f { after_free_kick_fault_time = 0 } }

-- The fault of the taker, who is marked.
abbrev pub fault_of_taker : ServerParam → Player → Match → Match
fault_of_taker sp p m = call_free_kick_fault sp p.side (emit (mark_free_kick_fault p.side p.unum) m)

-- An opponent at the ball while it is in the penalty area at a goal kick.
abbrev is_intruder : PlayMode → Side → Bool
is_intruder Mode.goal_kick_left s = not (same_side s left)
is_intruder Mode.goal_kick_right s = not (same_side s right)
is_intruder _ s = false

-- The goal kick is awarded to the other side once more.
abbrev repeat_goal_kick : ServerParam → Side → Match → Match
repeat_goal_kick sp s m =
    let n = award_goal_kick sp (opposite s) m in
    let f = n.free_kick in
    record n { free_kick = record f { goal_kick_count = negsuc 0; kick_taken = false } }

-- The player, with its number of dashes, has taken the kick.
abbrev pub take : Player → ℕ → Match → Match
take p dashes m =
    let f = m.free_kick in
    record m {
      free_kick = record f { kick_taken = true; kick_taker = some p; kick_taker_dashes = dashes };
    }

-- A second kick before the ball has left the penalty area at a goal kick.
abbrev judge_goal_kick : ServerParam → Player → ℕ → Match → Match
judge_goal_kick sp p dashes m =
    let f = m.free_kick in
    if not (is_player p f.kick_taker)
    then (if sp.proper_goal_kicks then award_goal_kick sp (taker_side f.kick_taker) m else m)
    else if not (f.kick_taker_dashes == dashes)
    then (if sp.free_kick_faults
        then fault_of_taker sp p m
        else if sp.proper_goal_kicks
        then award_goal_kick sp (taker_side f.kick_taker) m
        else m)
    else m

-- The ball again, after the kick has been taken.
abbrev pub judge_second : ServerParam → Player → ℕ → Match → Match
judge_second sp p dashes m =
    let f = m.free_kick in
    if is_player p f.kick_taker && sp.free_kick_faults
    then (if ltb f.kick_taker_dashes dashes then fault_of_taker sp p m else m)
    else record m { free_kick = record f { kick_taken = false } }

abbrev pub is_off_side : PlayMode → Bool
is_off_side Mode.off_side_left = true
is_off_side Mode.off_side_right = true
is_off_side _ = false

-- `FreeKickRef::kickTaken`, also for `tackleTaken`; the number is `kicker.dashCount()`.
unfoldable pub free_kick_kick_taken : ServerParam → Player → ℕ → Match → Match
free_kick_kick_taken sp p dashes m =
    if is_penalty_shoot_out m.playmode
    then m
    else if goal_kick m.playmode
    then (if is_intruder m.playmode p.side
        then repeat_goal_kick sp p.side m
        else take p dashes (if m.free_kick.kick_taken then judge_goal_kick sp p dashes m else m))
    else if is_off_side m.playmode
    then m
    else if not (is_play_on m.playmode)
    then change_play_mode sp Mode.play_on (take p dashes m)
    else if m.free_kick.kick_taken
    then judge_second sp p dashes m
    else m

-- `FreeKickRef::ballTouched`.
unfoldable pub free_kick_ball_touched : ServerParam → Player → ℕ → Match → Match
free_kick_ball_touched sp p dashes m =
    if is_intruder m.playmode p.side
    then repeat_goal_kick sp p.side m
    else if m.free_kick.kick_taken
    then judge_second sp p dashes m
    else m

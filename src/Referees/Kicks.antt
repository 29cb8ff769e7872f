-- ===== src/Referees/Kicks.antt =====
-- `FreeKickRef::analyse` of src/referee.cpp: kicks that take too long, goal kicks, and the fault of a
-- player that kicks twice.
use rcssserver.Base.{
  zero, suc, Bool, true, false, not, ◌&&◌, ◌||◌, Option, none, some, ℤ, pos, negsuc, leb,
  if◌then◌else◌,
}
use rcssserver.Mode
use rcssserver.Mode.{Side, left, neutral, right, PlayMode, opposite}
use rcssserver.Match.State.{
  ServerParam, Player, Match, clear_players_from_ball, place_players_in_field,
  place_players_for_goal_kick, emit,
}
use rcssserver.Match.ModeChange.{is_penalty_shoot_out, is_play_on, is_free_kick, change_play_mode}
use rcssserver.Clock.Halves.{is_clock_stopped}
use rcssserver.Referees.View.{View}
use rcssserver.Referees.Awards.{award_free_kick, award_goal_kick, award_drop_ball}
use rcssserver.Referees.Faults.{wait_fault}

abbrev pub at_least : ℤ → ℤ → Bool
at_least (pos a) (pos b) = leb b a
at_least (pos a) (negsuc b) = true
at_least (negsuc a) (pos b) = false
at_least (negsuc a) (negsuc b) = leb a b

-- `if ( M_timer > -1 ) M_timer--;`
abbrev pub tick : ℤ → ℤ
tick (pos (suc t)) = pos t
tick _ = negsuc 0

abbrev pub is_zero : ℤ → Bool
is_zero (pos zero) = true
is_zero _ = false

-- The drop ball for a kick that takes too long.
abbrev pub run_timer : ServerParam → Match → Match
run_timer sp m =
    let f = m.free_kick in
    let t = if at_least f.timer (pos 0) then tick f.timer else f.timer in
    let ticked = record m { free_kick = record f { timer = t } } in
    if is_zero t then award_drop_ball sp ticked else ticked

-- `M_kick_taker->side()`. The kick has been taken, so that there is a taker.
abbrev pub taker_side : Option Player → Side
taker_side none = neutral
taker_side (some p) = p.side

abbrev pub stopped_goal_kick : ServerParam → View → Match → Match
stopped_goal_kick sp v m =
    let s = taker_side m.free_kick.kick_taker in
    if v.ball_stopped
    then (if at_least m.free_kick.goal_kick_count sp.max_goal_kicks
        then award_free_kick sp (opposite s) m
        else award_goal_kick sp s m)
    else m

-- A goal kick: the ball must leave the penalty area.
unfoldable pub watch_goal_kick : ServerParam → View → PlayMode → Match → Match
watch_goal_kick sp v pm m0 =
    let m = emit place_players_in_field (emit (place_players_for_goal_kick pm) m0) in
    if not v.in_penalty_area
    then change_play_mode sp Mode.play_on m
    else if m.free_kick.kick_taken && sp.proper_goal_kicks
    then stopped_goal_kick sp v m
    else run_timer sp m

-- The modes in which the opponents of the side that kicks must keep away from the ball.
abbrev keeps_clear : PlayMode → Bool
keeps_clear Mode.before_kick_off = true
keeps_clear Mode.after_goal_left = true
keeps_clear Mode.after_goal_right = true
keeps_clear Mode.goal_kick_left = false
keeps_clear Mode.goal_kick_right = false
keeps_clear Mode.play_on = false
keeps_clear pm = not (is_clock_stopped pm)

-- The ball has moved, so that the kick is taken.
abbrev pub begin_play : ServerParam → View → PlayMode → Match → Match
begin_play sp v pm m =
    if not (is_play_on pm || is_clock_stopped pm) && v.ball_moves
    then change_play_mode sp Mode.play_on m
    else m

abbrev pub clear_opponents : PlayMode → Match → Match
clear_opponents pm m =
    if keeps_clear pm then emit (clear_players_from_ball (opposite m.kick_off_side)) m else m

-- Any other mode.
unfoldable pub watch_free_kick : ServerParam → View → PlayMode → Match → Match
watch_free_kick sp v pm m =
    let cleared = clear_opponents pm (emit place_players_in_field (begin_play sp v pm m)) in
    if is_free_kick pm then run_timer sp cleared else cleared

abbrev pub wait_free_kick_fault : ServerParam → Side → PlayMode → Match → Match
wait_free_kick_fault sp s pm m =
    let f = m.free_kick in
    let t = suc f.after_free_kick_fault_time in
    wait_fault sp t s pm (record m { free_kick = record f { after_free_kick_fault_time = t } })

abbrev pub free_kick_by_mode : ServerParam → View → PlayMode → Match → Match
free_kick_by_mode sp v Mode.free_kick_fault_left m =
    wait_free_kick_fault sp left Mode.free_kick_right m
free_kick_by_mode sp v Mode.free_kick_fault_right m =
    wait_free_kick_fault sp right Mode.free_kick_left m
free_kick_by_mode sp v Mode.back_pass_left m = m
free_kick_by_mode sp v Mode.back_pass_right m = m
free_kick_by_mode sp v Mode.catch_fault_left m = m
free_kick_by_mode sp v Mode.catch_fault_right m = m
free_kick_by_mode sp v Mode.goal_kick_left m = watch_goal_kick sp v Mode.goal_kick_left m
free_kick_by_mode sp v Mode.goal_kick_right m = watch_goal_kick sp v Mode.goal_kick_right m
free_kick_by_mode sp v pm m = watch_free_kick sp v pm m

-- `FreeKickRef::analyse`.
unfoldable pub free_kick_analyse : ServerParam → View → Match → Match
free_kick_analyse sp v m =
    if is_penalty_shoot_out m.playmode then m else free_kick_by_mode sp v m.playmode m

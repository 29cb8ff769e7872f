-- ===== src/Referees/Ball.antt =====
-- `BallStuckRef` and `TouchRef` of src/referee.cpp, by their `analyse`: a ball that nobody moves, a
-- goal, and a ball that leaves the pitch.
use rcssserver.Base.{
  ℕ, suc, ◌*◌, Bool, true, not, ◌&&◌, ◌||◌, Option, none, some, leb, ltb, ◌==◌, is_negative,
  pos_part, if◌then◌else◌,
}
use rcssserver.Mode
use rcssserver.Mode.{Side, left, neutral, right, PlayMode, opposite, same_side}
use rcssserver.Match.State.{
  ServerParam, Player, Team, Match, audio, goal_text, place_players_in_their_field, centre, emit,
}
use rcssserver.Match.ModeChange.{
  is_penalty_shoot_out, is_play_on, place_ball, change_play_mode, place_ball_mode,
}
use rcssserver.Referees.View.{View}
use rcssserver.Referees.Awards.{award_goal_kick, award_drop_ball, award_kick_in, award_corner_kick}

-- `BallStuckRef::analyse`. Where the count began is in `ball_stuck`.
unfoldable pub ball_stuck_analyse : ServerParam → View → Match → Match
ball_stuck_analyse sp v m =
    let c = suc m.ball_stuck_counter in
    if not sp.has_ball_stuck_area || (sp.drop_time == 0)
    then m
    else if not (is_play_on m.playmode)
    then record m { ball_stuck_counter = 0 }
    else if v.ball_stuck
    then (if leb sp.drop_time c
        then award_drop_ball sp (record m { ball_stuck_counter = 0 })
        else record m { ball_stuck_counter = c })
    else record m { ball_stuck_counter = 0 }

-- `Stadium::score`, with `Team::incPoint`.
abbrev pub inc_point : Team → Team
inc_point t = if t.enabled then record t { point = suc t.point } else t

abbrev stadium_score : Side → Match → Match
stadium_score left m = record m { team_left = inc_point m.team_left }
stadium_score neutral m = m
stadium_score right m = record m { team_right = inc_point m.team_right }

-- `TouchRef::announceGoal`.
abbrev announce_goal : Side → Match → Match
announce_goal left m = emit (audio (goal_text left m.team_left.point)) m
announce_goal s m = emit (audio (goal_text right m.team_right.point)) m

abbrev after_goal : Side → PlayMode
after_goal left = Mode.after_goal_left
after_goal _ = Mode.after_goal_right

-- The golden goal ends the match.
abbrev is_golden : ServerParam → Match → Bool
is_golden sp m =
    not (is_negative sp.half_time)
    && (sp.golden_goal && leb (pos_part sp.half_time * sp.nr_normal_halfs) m.time)

-- A goal for the side `s`: the two branches of `TouchRef::checkGoal`.
unfoldable pub give_goal : ServerParam → Side → Match → Match
give_goal sp s m =
    let announced = announce_goal s (stadium_score s m) in
    let t = announced.touch in
    let placed =
      place_ball (opposite s) announced.ball
        (record announced { touch = record t { after_goal_time = 0 } }) in
    change_play_mode sp (if is_golden sp placed then Mode.time_over else after_goal s) placed

-- No ball catcher, or one of the named side.
abbrev free_or_caught_by : Side → Option Player → Bool
free_or_caught_by s none = true
free_or_caught_by s (some p) = same_side p.side s

-- The tests of `TouchRef::checkGoal`: the side that scores.
abbrev pub check_goal : View → Match → Option Side
check_goal v m =
    if m.touch.indirect_mode || not v.beyond_goal_line
    then none
    else if free_or_caught_by left m.ball_catcher && v.cross_left
    then some right
    else if free_or_caught_by right m.ball_catcher && v.cross_right
    then some left
    else none

abbrev touched_side : Option Player → Side
touched_side none = neutral
touched_side (some p) = p.side

-- The ball has crossed the goal line of the side `s`, at `s = right` the right one.
abbrev pub over_goal_line : ServerParam → Side → Match → Match
over_goal_line sp s m =
    if same_side (touched_side m.touch.last_touched) s
    then award_corner_kick sp (opposite s) m
    else elim m.ball_catcher [ none ↦ award_goal_kick sp s m | some p ↦ m ]

abbrev pub over_side_line : ServerParam → Match → Match
over_side_line sp m = elim (touched_side m.touch.last_touched) [
  | left ↦ award_kick_in sp right m
  | neutral ↦ award_drop_ball sp m
  | right ↦ award_kick_in sp left m
]

-- The ball has left the pitch and it is no goal.
unfoldable pub watch_lines : ServerParam → View → Match → Match
watch_lines sp v m =
    if v.beyond_goal_line
    then over_goal_line sp (if v.beyond_right then right else left) m
    else if v.beyond_side_line
    then over_side_line sp m
    else m

-- `AFTER_GOAL_WAIT`.
abbrev after_goal_wait : ℕ
after_goal_wait = 50

-- The wait after a goal, and the kick-off of the side `s`.
unfoldable pub wait_goal : ServerParam → Side → PlayMode → Match → Match
wait_goal sp s pm m =
    let h = m.touch in
    let t = suc h.after_goal_time in
    let counted = record m { touch = record h { after_goal_time = t } } in
    if ltb after_goal_wait t
    then emit place_players_in_their_field (place_ball_mode sp pm s centre counted)
    else counted

abbrev pub watch_ball : ServerParam → View → Match → Match
watch_ball sp v m = elim (check_goal v m) [ none ↦ watch_lines sp v m | some s ↦ give_goal sp s m ]

abbrev pub touch_by_mode : ServerParam → View → PlayMode → Match → Match
touch_by_mode sp v Mode.after_goal_left m = wait_goal sp right Mode.kick_off_right m
touch_by_mode sp v Mode.after_goal_right m = wait_goal sp left Mode.kick_off_left m
touch_by_mode sp v Mode.time_over m = m
touch_by_mode sp v _ m = watch_ball sp v m

-- `TouchRef::analyse`, without the ball's position that it keeps for `crossGoalLine`.
unfoldable pub touch_analyse : ServerParam → View → Match → Match
touch_analyse sp v m =
    if is_penalty_shoot_out m.playmode then m else touch_by_mode sp v m.playmode m

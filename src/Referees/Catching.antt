-- ===== src/Referees/Catching.antt =====
-- What `CatchRef` (src/referee.cpp) notes of kicks and touches, and what it decides when a goalie has
-- caught or punched the ball.
use rcssserver.Base.{ℕ, Bool, true, false, not, ◌&&◌, ◌||◌, ◌==◌, Option, none, some, if◌then◌else◌}
use rcssserver.Mode
use rcssserver.Mode.{Side, left, neutral, right, PlayMode, same_side}
use rcssserver.Match.State.{ServerParam, Player, same_player, Match, CatchRef, mark_back_pass, emit}
use rcssserver.Match.ModeChange.{is_penalty_shoot_out, clear_ball_catcher}
use rcssserver.Referees.View.{View}
use rcssserver.Referees.Awards.{award, award_free_kick}
use rcssserver.Referees.Faults.{own_area, call_catch_fault}

-- The flag of the player's side.
abbrev pub note_side : Side → CatchRef → CatchRef
note_side left c = record c { team_l_touched = true }
note_side neutral c = c
note_side right c = record c { team_r_touched = true }

abbrev forget_passers : CatchRef → CatchRef
forget_passers c = record c { last_back_passer = none; before_last_back_passer = none }

abbrev pub is_player : Player → Option Player → Bool
is_player p none = false
is_player p (some q) = same_player p q

-- The kicker, and the different one before, at the time of the kick.
abbrev pub note_passer : Player → ℕ → CatchRef → CatchRef
note_passer p time c =
    if not (is_player p c.last_back_passer)
    then record c {
      before_last_back_passer = c.last_back_passer;
      last_back_passer = some p;
      last_back_passer_time = time;
    }
    else record c { last_back_passer_time = time }

abbrev pub after_kick : Player → ℕ → CatchRef → CatchRef
after_kick p time c =
    if c.team_l_touched && c.team_r_touched then forget_passers c else note_passer p time c

-- `CatchRef::kickTaken`, also for `tackleTaken`.
unfoldable pub catch_kick_taken : Player → Match → Match
catch_kick_taken p m = record m { catch = after_kick p m.time (note_side p.side m.catch) }

-- `CatchRef::ballTouched`.
unfoldable pub catch_ball_touched : Player → Match → Match
catch_ball_touched p m =
    let c = note_side p.side m.catch in
    record m { catch = if c.team_l_touched && c.team_r_touched then forget_passers c else c }

abbrev pub is_after_goal_or_over : PlayMode → Bool
is_after_goal_or_over Mode.after_goal_left = true
is_after_goal_or_over Mode.after_goal_right = true
is_after_goal_or_over Mode.time_over = true
is_after_goal_or_over pm = false

-- A catch or punch outside the penalty area of the goalie.
abbrev pub is_handling_fault : View → Player → Match → Bool
is_handling_fault v catcher m =
    not (is_after_goal_or_over m.playmode) && not (own_area v catcher.side)

-- `before && before->team() != catcher.team()`.
abbrev is_opponent : Player → Option Player → Bool
is_opponent catcher none = false
is_opponent catcher (some q) = not (same_side q.side catcher.side)

-- `!before || before->team() != catcher.team()`.
abbrev is_no_team_mate : Player → Option Player → Bool
is_no_team_mate catcher none = true
is_no_team_mate catcher (some q) = not (same_side q.side catcher.side)

-- The goalie's own second kick after an opponent's, or a kick at the time of the catch.
abbrev pub is_excused : Player → Player → Match → Bool
is_excused catcher p m =
    (same_player p catcher && is_opponent catcher m.catch.before_last_back_passer)
    || ((m.time == m.catch.last_back_passer_time)
        && is_no_team_mate catcher m.catch.before_last_back_passer)

abbrev pub back_pass_of : Side → PlayMode
back_pass_of left = Mode.back_pass_left
back_pass_of _ = Mode.back_pass_right

abbrev back_pass_award : ServerParam → Side → Match → Match
back_pass_award sp left m = award sp Mode.back_pass_left right m
back_pass_award sp _ m = award sp Mode.back_pass_right left m

-- `CatchRef::callBackPass`.
unfoldable pub call_back_pass : ServerParam → Side → Match → Match
call_back_pass sp s m =
    let called = back_pass_award sp s (clear_ball_catcher m) in
    let c = called.catch in
    record called { catch = record c { last_back_passer = none; after_back_pass_time = 0 } }

-- The catch is legal.
abbrev catch_legal : ServerParam → Player → Match → Match
catch_legal sp catcher m =
    award_free_kick sp catcher.side (record m { catch = forget_passers m.catch })

abbrev call_pass_of : ServerParam → Player → Player → Match → Match
call_pass_of sp catcher p m = call_back_pass sp catcher.side (emit (mark_back_pass p.side p.unum) m)

-- The rule on back passes at a catch, by the last passer.
abbrev pub judge_catch : ServerParam → Player → Option Player → Match → Match
judge_catch sp catcher none m = catch_legal sp catcher m
judge_catch sp catcher (some p) m =
    if (sp.back_passes && not (is_after_goal_or_over m.playmode))
      && (same_side p.side catcher.side && not (is_excused catcher p m))
    then call_pass_of sp catcher p m
    else catch_legal sp catcher m

-- `CatchRef::ballCaught`.
unfoldable pub catch_ball_caught : ServerParam → View → Player → Match → Match
catch_ball_caught sp v catcher m =
    if is_penalty_shoot_out m.playmode
    then m
    else if is_handling_fault v catcher m
    then call_catch_fault sp catcher.side m
    else judge_catch sp catcher m.catch.last_back_passer m

-- The rule on back passes at a punch: an excused one returns at once.
abbrev judge_punch : ServerParam → Player → Option Player → Match → Match
judge_punch sp catcher none m = record m { catch = forget_passers m.catch }
judge_punch sp catcher (some p) m =
    if (not (is_after_goal_or_over m.playmode) && not (m.time == m.catch.last_back_passer_time))
      && (same_side p.side catcher.side && sp.back_passes)
    then (if same_player p catcher && is_opponent catcher m.catch.before_last_back_passer
        then m
        else call_pass_of sp catcher p m)
    else record m { catch = forget_passers m.catch }

-- `CatchRef::ballPunched`.
unfoldable pub catch_ball_punched : ServerParam → View → Player → Match → Match
catch_ball_punched sp v catcher m =
    if is_penalty_shoot_out m.playmode
    then m
    else if is_handling_fault v catcher m
    then call_catch_fault sp catcher.side m
    else judge_punch sp catcher m.catch.last_back_passer m

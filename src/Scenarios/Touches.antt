-- ===== src/Scenarios/Touches.antt =====
-- Kicks, touches and an indirect free kick (src/referee.cpp, `TouchRef`).
use rcssserver.Base.{◌≡◌, refl, true, none, some, List, [], ◌∷◌}
use rcssserver.Mode
use rcssserver.Mode.{left, right, PlayMode}
use rcssserver.Match.ModeChange.{
  change_play_mode, penalty_change, keepaway_change, illegal_defense_change, foul_change,
  catch_change, touch_change, free_kick_change, offside_change,
}
use rcssserver.Referees.View.{View}
use rcssserver.Referees.Ball.{check_goal}
use rcssserver.Referees.Touching.{touch_kick_taken}
use rcssserver.Referees.Indirect.{
  Play, kicked, touched, played_on, cycle_over, plays, play, plays-no_goal,
}
use rcssserver.Referees.SecondKick.{plays-goal}
use rcssserver.Referees.Strongest.{kicks, NotedStrongest, kicks-strongest}
use rcssserver.Scenarios.Matches.{params, full_time, rolling, striker}

-- The ball is in the left goal.
abbrev in_goal : View
in_goal = record rolling { beyond_goal_line = true; cross_left = true }

-- The right side kicks an indirect free kick, and its player follows the ball.
abbrev solo : List Play
solo =
    kicked rolling (striker right 9) 2
    ∷ played_on
    ∷ cycle_over
    ∷ touched rolling (striker right 9)
    ∷ []

plays-no_goal_example :
    check_goal in_goal
      (plays params solo (change_play_mode params Mode.ind_free_kick_right full_time))
    ≡ none
plays-no_goal_example =
    plays-no_goal params Mode.ind_free_kick_right (striker right 9) solo full_time in_goal refl
      (refl, (tt, (tt, (refl, tt))))

plays-goal_example :
    check_goal in_goal (
      touch_kick_taken rolling (striker right 10) 5 (
        plays params
          (kicked rolling (striker right 9) 2 ∷ played_on ∷ cycle_over ∷ [])
          (change_play_mode params Mode.ind_free_kick_right full_time)))
    ≡ some right
unfolding plays play touch_kick_taken change_play_mode penalty_change keepaway_change
    illegal_defense_change foul_change catch_change touch_change free_kick_change offside_change
plays-goal_example =
    plays-goal params Mode.ind_free_kick_right (striker right 9) (striker right 10) 2 5
      (played_on ∷ cycle_over ∷ []) full_time rolling rolling in_goal refl refl (tt, (tt, tt)) refl
      refl refl refl refl refl

-- The strongest of three kicks is noted.
three_kicks :
    (kicks rolling
      ((striker left 7, 2) ∷ (striker right 9, 5) ∷ (striker left 8, 3) ∷ [])
      full_time).touch.last_touched
    ≡ some (striker right 9)
unfolding kicks touch_kick_taken
three_kicks = refl

kicks-strongest_example :
    NotedStrongest rolling
      ((striker left 7, 2) ∷ (striker right 9, 5) ∷ (striker left 8, 3) ∷ [])
      full_time
kicks-strongest_example =
    kicks-strongest rolling (striker left 7, 2) ((striker right 9, 5) ∷ (striker left 8, 3) ∷ [])
      full_time refl refl

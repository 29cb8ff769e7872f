-- ===== src/Scenarios/Catches.antt =====
-- A goalie catches a pass of its team mate, or a shot of an opponent (src/referee.cpp, `CatchRef`).
use rcssserver.Base.{◌≡◌, refl, true}
use rcssserver.Mode
use rcssserver.Mode.{left, right, PlayMode}
use rcssserver.Referees.View.{View}
use rcssserver.Referees.Catching.{
  catch_kick_taken, catch_ball_caught, catch_ball_punched, catch_ball_touched,
}
use rcssserver.Referees.BackPass.{call_back_pass-mode, catch_after_opponent, catch_of_pass}
use rcssserver.Scenarios.Matches.{params, full_time, rolling, striker, goalkeeper}

-- The ball is in the area of the left goalie.
abbrev near_goal : View
near_goal = record rolling { in_left_area = true }

-- Punching a pass is called as well as catching it.
punched_pass :
    (catch_ball_punched params near_goal
      (goalkeeper left)
      (record (catch_kick_taken (striker left 7) full_time) { time = 41 })).playmode
    ≡ Mode.back_pass_left
unfolding catch_ball_punched catch_kick_taken
punched_pass = call_back_pass-mode params left _

-- An opponent that touched the ball in the meantime makes the punch legal.
touched_pass :
    (catch_ball_punched params near_goal
      (goalkeeper left)
      (record (catch_ball_touched (striker right 9) (catch_kick_taken (striker left 7) full_time)) {
        time = 41;
      })).playmode
    ≡ Mode.play_on
unfolding catch_ball_punched catch_kick_taken catch_ball_touched
touched_pass = refl

catch_after_opponent_example :
    (catch_ball_caught params near_goal
      (goalkeeper left)
      (record (catch_kick_taken (striker right 9) (catch_kick_taken (striker left 7) full_time)) {
        time = 41;
      })).playmode
    ≡ Mode.free_kick_left
unfolding catch_kick_taken
catch_after_opponent_example =
    catch_after_opponent params near_goal (goalkeeper left) (striker right 9)
      (catch_kick_taken (striker left 7) full_time) 41 refl refl refl

catch_of_pass_example :
    (catch_ball_caught params near_goal
      (goalkeeper left)
      (record (catch_kick_taken (striker left 7) full_time) { time = 41 })).playmode
    ≡ Mode.back_pass_left
catch_of_pass_example =
    catch_of_pass params near_goal (goalkeeper left) (striker left 7) full_time 41 refl refl refl
      refl refl refl refl refl

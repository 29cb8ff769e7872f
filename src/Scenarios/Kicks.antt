-- ===== src/Scenarios/Kicks.antt =====
-- A player kicks twice, and a goal kick is taken again (src/referee.cpp, `FreeKickRef`).
use rcssserver.Base.{◌≡◌, refl, true, false}
use rcssserver.Mode
use rcssserver.Mode.{left, right, PlayMode}
use rcssserver.Match.State.{ServerParam, Match}
use rcssserver.Referees.Awards.{award_goal_kick}
use rcssserver.Referees.Taking.{take, free_kick_kick_taken, free_kick_ball_touched}
use rcssserver.Referees.DoubleKick.{second_kick-mode}
use rcssserver.Referees.Retaken.{retaken-again}
use rcssserver.Scenarios.Matches.{params, full_time, striker}

abbrev proper_params : ServerParam
proper_params = record params { proper_goal_kicks = true }

abbrev goal_kick_match : Match
goal_kick_match = record full_time { playmode = Mode.goal_kick_left }

abbrev corner_match : Match
corner_match = record full_time { playmode = Mode.corner_kick_right }

-- A touch of the taker that has not dashed is nothing, and that of a team mate ends the watch.
touch_of_taker :
    (free_kick_ball_touched params
      (striker right 9)
      4
      (take (striker right 9) 4 full_time)).free_kick.kick_taken
    ≡ true
unfolding free_kick_ball_touched
touch_of_taker = refl

touch_of_mate :
    (free_kick_ball_touched params
      (striker right 10)
      6
      (take (striker right 9) 4 full_time)).free_kick.kick_taken
    ≡ false
unfolding free_kick_ball_touched
touch_of_mate = refl

second_kick-mode_example :
    (free_kick_kick_taken params
      (striker right 9)
      6
      (free_kick_kick_taken params (striker right 9) 4 corner_match)).playmode
    ≡ Mode.free_kick_fault_right
second_kick-mode_example =
    second_kick-mode params (striker right 9) 4 6 corner_match refl refl refl refl refl

retaken-again_example :
    ((free_kick_kick_taken proper_params
        (striker left 3)
        2
        (free_kick_kick_taken proper_params (striker left 2) 1 goal_kick_match)).playmode
      ≡ Mode.goal_kick_left)
    × (free_kick_kick_taken proper_params (striker left 2) 5 (
          free_kick_kick_taken proper_params
            (striker left 3)
            2
            (free_kick_kick_taken proper_params (striker left 2) 1 goal_kick_match))
        ≡ take (striker left 2) 5 (
            award_goal_kick proper_params left (
              free_kick_kick_taken proper_params
                (striker left 3)
                2
                (free_kick_kick_taken proper_params (striker left 2) 1 goal_kick_match))))
retaken-again_example =
    retaken-again proper_params (striker left 2) (striker left 3) (striker left 2) 1 2 5
      goal_kick_match refl refl refl refl refl refl refl refl

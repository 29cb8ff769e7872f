-- ===== src/Referees/Awards.antt =====
-- The awards of `Referee` (src/referee.cpp), which all referees call: each puts the ball down and
-- changes the mode. Where the ball is put is `award_spot`.
use rcssserver.Base.{if◌then◌else◌}
use rcssserver.Mode
use rcssserver.Mode.{Side, left, neutral, right, PlayMode}
use rcssserver.Match.State.{ServerParam, Match, award_spot, place_players_in_field, emit}
use rcssserver.Match.ModeChange.{
  is_penalty_shoot_out, clear_ball_catcher, change_play_mode, place_ball_mode,
}

-- A mode's kick at the spot of the award.
unfoldable pub award : ServerParam → PlayMode → Side → Match → Match
award sp pm s m = place_ball_mode sp pm s (award_spot pm) m

-- `Referee::awardFreeKick`.
unfoldable pub award_free_kick : ServerParam → Side → Match → Match
award_free_kick sp left m = award sp Mode.free_kick_left left m
award_free_kick sp neutral m = m
award_free_kick sp right m = award sp Mode.free_kick_right right m

-- `Referee::awardGoalKick`.
unfoldable pub award_goal_kick : ServerParam → Side → Match → Match
award_goal_kick sp left m = award sp Mode.goal_kick_left left (clear_ball_catcher m)
award_goal_kick sp _ m = award sp Mode.goal_kick_right right (clear_ball_catcher m)

-- `Referee::awardDropBall`.
unfoldable pub award_drop_ball : ServerParam → Match → Match
award_drop_ball sp m =
    let dropped =
      emit place_players_in_field (award sp Mode.drop_ball neutral (clear_ball_catcher m)) in
    if is_penalty_shoot_out dropped.playmode
    then dropped
    else change_play_mode sp Mode.play_on dropped

-- `Referee::awardKickIn`.
unfoldable pub award_kick_in : ServerParam → Side → Match → Match
award_kick_in sp left m = award sp Mode.kick_in_left left (clear_ball_catcher m)
award_kick_in sp _ m = award sp Mode.kick_in_right right (clear_ball_catcher m)

-- `Referee::awardCornerKick`.
unfoldable pub award_corner_kick : ServerParam → Side → Match → Match
award_corner_kick sp left m = award sp Mode.corner_kick_left left (clear_ball_catcher m)
award_corner_kick sp _ m = award sp Mode.corner_kick_right right (clear_ball_catcher m)

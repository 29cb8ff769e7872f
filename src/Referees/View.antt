-- ===== src/Referees/View.antt =====
-- What the referees of src/referee.cpp measure on `double` positions and velocities in a cycle.
use rcssserver.Base.{ℕ, Bool, List}
use rcssserver.Mode.{Side}

pub record View : Type 0 where
  -- `BallStuckRef`: the ball is within `ballStuckArea` of where its count began
  pub ball_stuck : Bool
  -- `IllegalDefenseRef`: the enabled players of each side that stand in the area it watches, with the
  -- ball in their half
  pub left_player_illegal : ℕ
  pub right_player_illegal : ℕ
  -- `FreeKickRef`: the ball in a penalty area, slower than `stoppedBallVel`, in motion
  pub in_penalty_area : Bool
  pub ball_stopped : Bool
  pub ball_moves : Bool
  -- `crossGoalLine( side, M_prev_ball_pos )` of each side
  pub cross_left : Bool
  pub cross_right : Bool
  -- `TouchRef`: the ball beyond a goal line, beyond the right one, beyond a side line
  pub beyond_goal_line : Bool
  pub beyond_right : Bool
  pub beyond_side_line : Bool
  -- the ball in the penalty area of each side
  pub in_left_area : Bool
  pub in_right_area : Bool
  -- `KeepawayRef`: the ball in the area, the sides of the enabled players that can kick it, in their
  -- order, and whether `kawayStart` seconds have passed
  pub in_keepaway_area : Bool
  pub kickers : List Side
  pub kaway_started : Bool

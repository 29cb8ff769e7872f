-- ===== src/Stadium/Actions.antt =====
-- What `Stadium` (src/stadium.cpp) does when a player kicks, tackles, catches or punches the ball or is
-- touched by it: it asks all referees, in the order in which its constructor registers them.
use rcssserver.Base.{ℕ, Bool, true, false, ◌||◌, some, List, [], ◌∷◌, if◌then◌else◌}
use rcssserver.Mode
use rcssserver.Mode.{PlayMode, Phase, setup, ready, taken, phase}
use rcssserver.Match.State.{ServerParam, Player, Match, audio, catch_text, emit}
use rcssserver.Match.ModeChange.{is_penalty_shoot_out, clear_ball_catcher}
use rcssserver.Shootout.Events.{kick_taken, tackle_taken, ball_caught, ball_punched}
use rcssserver.Referees.View.{View}
use rcssserver.Referees.Offside.{Field, set_offside_mark, check_intentional_action}
use rcssserver.Referees.Taking.{free_kick_kick_taken, free_kick_ball_touched}
use rcssserver.Referees.Touching.{touch_kick_taken, touch_ball_touched}
use rcssserver.Referees.Catching.{
  catch_kick_taken, catch_ball_touched, catch_ball_caught, catch_ball_punched,
}
use rcssserver.Referees.Fouls.{
  Seen, Verdict, no_foul, check_foul, charge_victims, foul_tackle_taken, illegal_kick_taken,
}

-- A player at the ball, what the referees measure at this moment, and a draw of `PenaltyRef`.
pub record BallAction : Type 0 where
  pub player : Player
  -- `dashCount()`
  pub dashes : ℕ
  pub field : Field
  pub view : View
  pub coin : Bool

-- The referees before `FoulRef` at a kick, and at a tackle, which is a kick to them.
abbrev pub kick_noted : ServerParam → BallAction → ℕ → Match → Match
kick_noted sp a accel_r m =
    let marked = set_offside_mark sp a.field a.player accel_r m in
    let freed = free_kick_kick_taken sp a.player a.dashes marked in
    catch_kick_taken a.player (touch_kick_taken a.view a.player accel_r freed)

-- `Stadium::kickTaken`.
unfoldable pub stadium_kick_taken : ServerParam → BallAction → ℕ → Match → Match
stadium_kick_taken sp a accel_r m =
    kick_taken sp a.coin a.player
      (illegal_kick_taken sp a.player (kick_noted sp a accel_r (clear_ball_catcher m)))

abbrev is_foul : Verdict → Bool
is_foul v = v.charge || (v.yellow || v.red)

-- The modes in which `PenaltyRef::tackleTaken` looks for a foul.
abbrev is_open_phase : Phase → Bool
is_open_phase setup = true
is_open_phase ready = true
is_open_phase taken = true
is_open_phase _ = false

-- `PenaltyRef::tackleTaken`, with the players that `checkFoul` charges.
unfoldable shootout_tackle_taken : ServerParam → BallAction → List Seen → Bool → Match → Match
shootout_tackle_taken sp a seen foul m =
    let charged =
      if is_open_phase (phase m.playmode) then charge_victims a.player foul seen m else m in
    tackle_taken sp a.coin (is_foul (check_foul a.player foul seen no_foul)) a.player charged

-- `Stadium::tackleTaken`.
unfoldable pub stadium_tackle_taken :
    ServerParam → BallAction → List Seen → Bool → ℕ → Match → Match
unfolding shootout_tackle_taken
stadium_tackle_taken sp a seen foul accel_r m =
    let noted = kick_noted sp a accel_r (clear_ball_catcher m) in
    let judged = foul_tackle_taken sp seen foul a.player noted in
    shootout_tackle_taken sp a seen foul (illegal_kick_taken sp a.player judged)

-- `Stadium::failedKickTaken` and `failedTackleTaken`: only `OffsideRef` looks.
abbrev pub failed_action : ServerParam → Bool → Player → Match → Match
failed_action = check_intentional_action

-- All referees' `ballTouched`.
unfoldable stadium_ball_touched : ServerParam → BallAction → Match → Match
stadium_ball_touched sp a m =
    let marked = set_offside_mark sp a.field a.player 0 m in
    let freed = free_kick_ball_touched sp a.player a.dashes marked in
    catch_ball_touched a.player (touch_ball_touched a.view a.player freed)

-- `Stadium::collisions`, by the players that the ball collides with, in their order.
unfoldable pub collide : ServerParam → List BallAction → Match → Match
unfolding stadium_ball_touched
collide sp [] m = m
collide sp (a ∷ more) m = collide sp more (stadium_ball_touched sp a m)

abbrev pub is_free_kick_mode : PlayMode → Bool
is_free_kick_mode Mode.free_kick_left = true
is_free_kick_mode Mode.free_kick_right = true
is_free_kick_mode _ = false

abbrev announce_catch : Player → Match → Match
announce_catch p m =
    if is_penalty_shoot_out m.playmode then m else emit (audio (catch_text p.side)) m

-- The catcher holds the ball if it was a legal catch.
abbrev hold_ball : Player → Match → Match
hold_ball p m = if is_free_kick_mode m.playmode then record m { ball_catcher = some p } else m

-- `Stadium::ballCaught`. `own` is `inPenaltyArea( M_pen_side, M_stadium.ball().pos() )`.
unfoldable pub stadium_ball_caught :
    ServerParam → BallAction → Bool → List BallAction → Match → Match
unfolding collide
stadium_ball_caught sp a own collisions m =
    let touched = stadium_ball_touched sp a (collide sp collisions (announce_catch a.player m)) in
    let ruled = catch_ball_caught sp a.view a.player touched in
    hold_ball a.player (ball_caught sp a.coin own a.player ruled)

-- `Stadium::ballPunched`.
unfoldable pub stadium_ball_punched : ServerParam → BallAction → Bool → Match → Match
unfolding stadium_ball_touched
stadium_ball_punched sp a own m =
    let ruled = catch_ball_punched sp a.view a.player (stadium_ball_touched sp a m) in
    ball_punched sp a.coin own a.player ruled

-- ===== src/Players/Commands.antt =====
-- The commands kick, catch, move, turn and dash of `Player` (src/player.cpp), with what they do to the match.
use rcssserver.Base.{
  ℕ, ◌+◌, Bool, true, false, not, ◌&&◌, ◌||◌, ltb, Option, none, some, List, ℤ, pos, is_negative,
  pos_part, if◌then◌else◌,
}
use rcssserver.Mode
use rcssserver.Mode.{Side, PlayMode}
use rcssserver.Match.State.{ServerParam, Player, Match, same_player}
use rcssserver.Match.ModeChange.{is_play_on, is_penalty_shoot_out}
use rcssserver.Stadium.Actions.{
  BallAction, stadium_kick_taken, stadium_ball_caught, stadium_ball_punched, failed_action, collide,
  is_free_kick_mode,
}
use rcssserver.Players.Body.{
  CommandParam, leg_move, leg_turn, leg_dash, warning_moving_to_opponent_field,
  error_too_many_moves, PlayerBody, answer, mark, sided, leg_done, both_legs,
}

-- The match and one of its players.
pub record Playing : Type 0 where
  pub game : Match
  pub body : PlayerBody

abbrev pub of_player : PlayerBody → BallAction → BallAction
of_player b a = record a { player = b.who }

-- The modes in which nobody may play the ball: those in which a tackle is void, and with the catch faults
-- those in which a kick is.
abbrev pub is_void_for_tackle : PlayMode → Bool
is_void_for_tackle Mode.before_kick_off = true
is_void_for_tackle Mode.after_goal_left = true
is_void_for_tackle Mode.after_goal_right = true
is_void_for_tackle Mode.off_side_left = true
is_void_for_tackle Mode.off_side_right = true
is_void_for_tackle Mode.illegal_defense_left = true
is_void_for_tackle Mode.illegal_defense_right = true
is_void_for_tackle Mode.foul_charge_left = true
is_void_for_tackle Mode.foul_charge_right = true
is_void_for_tackle Mode.foul_push_left = true
is_void_for_tackle Mode.foul_push_right = true
is_void_for_tackle Mode.back_pass_left = true
is_void_for_tackle Mode.back_pass_right = true
is_void_for_tackle Mode.free_kick_fault_left = true
is_void_for_tackle Mode.free_kick_fault_right = true
is_void_for_tackle Mode.time_over = true
is_void_for_tackle _ = false

abbrev is_void_for_kick : PlayMode → Bool
is_void_for_kick Mode.catch_fault_left = true
is_void_for_kick Mode.catch_fault_right = true
is_void_for_kick pm = is_void_for_tackle pm

-- What a kick finds: `ballKickable()`, whether the ball is within `offsideActiveArea()`, and the acceleration.
pub record Kick : Type 0 where
  pub kickable : Bool
  pub near : Bool
  pub action : BallAction
  pub accel_r : ℕ

abbrev kick_begun : PlayerBody → PlayerBody
kick_begun b = record b {
  command_done = true;
  kick_cycles = pos 1;
  state = record b.state { kick_bit = true };
}

abbrev kick_failed : PlayerBody → PlayerBody
kick_failed b = mark (record b.state { kick_fault_bit = true }) b

-- `Player::kick`.
unfoldable pub kick : ServerParam → Kick → Playing → Playing
kick sp k s =
    let b = kick_begun s.body in
    if s.body.command_done
    then s
    else if is_void_for_kick s.game.playmode
    then record s { body = kick_failed b }
    else if not k.kickable
    then record { game = failed_action sp k.near b.who s.game; body = kick_failed b }
    else record {
      game = stadium_kick_taken sp (of_player b k.action) k.accel_r s.game;
      body = record b { kick_count = b.kick_count + 1 };
    }

-- Where the ball is for a catch: out of the larger area, or in it, with the draw of
-- `bernoulli_distribution`, whose probability the smaller area raises.
pub data Reach : Type 0 where
  out_of_reach : Reach
  within_reach : Bool → Reach

pub record Catch : Type 0 where
  pub reach : Reach
  -- the place next to the ball
  pub beside : ℤ × ℤ
  pub action : BallAction
  -- whether the ball is in the penalty area of the shoot-out
  pub own_area : Bool
  pub collisions : List BallAction

abbrev pub catch_begun : PlayerBody → PlayerBody
catch_begun b = record b { command_done = true; state = record b.state { catch_bit = true } }

abbrev catch_failed : PlayerBody → PlayerBody
catch_failed b = mark (record b.state { catch_fault_bit = true }) b

abbrev catch_counted : PlayerBody → PlayerBody
catch_counted b = record b { catch_count = b.catch_count + 1; goalie_moves_since_catch = 0 }

-- The rest of a catch that is allowed.
abbrev pub try_catch : ServerParam → Catch → Reach → Playing → Playing
try_catch sp c out_of_reach s = record s { body = catch_failed s.body }
try_catch sp c (within_reach true) s = record {
  game = stadium_ball_caught sp (of_player s.body c.action) c.own_area c.collisions s.game;
  body = catch_counted (record s.body { place = c.beside });
}
try_catch sp c (within_reach false) s = record {
  game = stadium_ball_punched sp (of_player s.body c.action) c.own_area s.game;
  body = catch_counted (catch_failed s.body);
}

abbrev pub may_catch : Playing → Bool
may_catch s =
    s.body.who.goalie
    && (not (ltb 0 s.body.goalie_catch_ban)
        && (is_play_on s.game.playmode || is_penalty_shoot_out s.game.playmode))

-- `Player::goalieCatch`.
unfoldable pub goalie_catch : ServerParam → CommandParam → Catch → Playing → Playing
goalie_catch sp pp c s =
    let b = catch_begun s.body in
    let banned = record b { goalie_catch_ban = pp.catch_ban_cycle } in
    let tried = try_catch sp c c.reach (record s { body = banned }) in
    if s.body.command_done
    then s
    else if not (may_catch s)
    then record s { body = catch_failed b }
    else tried

-- The arguments of a move, whether `x >= -size()`, and what `collisions()` then finds.
pub record Move : Type 0 where
  pub x : ℤ
  pub y : ℤ
  pub beyond_centre : Bool
  pub collisions : List BallAction

abbrev is_setup_mode : PlayMode → Bool
is_setup_mode Mode.before_kick_off = true
is_setup_mode Mode.after_goal_right = true
is_setup_mode Mode.after_goal_left = true
is_setup_mode _ = false

abbrev is_opening : PlayMode → Bool
is_opening Mode.before_kick_off = true
is_opening _ = false

abbrev is_holder : PlayerBody → Option Player → Bool
is_holder b none = false
is_holder b (some p) = same_player p b.who

abbrev put : Move → PlayerBody → PlayerBody
put v b = record b { place = (sided b.who.side v.x, sided b.who.side v.y) }

abbrev warn_beyond : ServerParam → Move → Playing → PlayerBody
warn_beyond sp v s =
    if is_opening s.game.playmode && (sp.kick_off_offside && v.beyond_centre)
    then answer warning_moving_to_opponent_field s.body
    else s.body

-- The move of a goalie with the ball.
abbrev move_with_ball : CommandParam → Move → PlayerBody → PlayerBody
move_with_ball pp v b =
    if is_negative pp.goalie_max_moves
      || ltb b.goalie_moves_since_catch (pos_part pp.goalie_max_moves)
    then record (put v b) { goalie_moves_since_catch = b.goalie_moves_since_catch + 1 }
    else answer error_too_many_moves b

abbrev move_done : PlayerBody → PlayerBody
move_done b = record (both_legs leg_move b) { command_done = true; move_count = b.move_count + 1 }

-- `Player::move`.
unfoldable pub move : ServerParam → CommandParam → Move → Playing → Playing
move sp pp v s =
    if s.body.command_done
    then s
    else if is_setup_mode s.game.playmode
    then record {
      game = collide sp v.collisions s.game;
      body = move_done (put v (warn_beyond sp v s));
    }
    else if is_free_kick_mode s.game.playmode && is_holder s.body s.game.ball_catcher
    then record s { body = move_done (move_with_ball pp v s.body) }
    else s

-- `Player::turn` and `turn_neck`, but for the angles.
unfoldable pub turn_body : PlayerBody → PlayerBody
turn_body b =
    if b.command_done
    then b
    else record (both_legs leg_turn b) { turn_count = b.turn_count + 1; command_done = true }

unfoldable pub turn_neck : PlayerBody → PlayerBody
turn_neck b =
    if b.turn_neck_done
    then b
    else record b { turn_neck_count = b.turn_neck_count + 1; turn_neck_done = true }

-- `Player::dashLeftLeg` and `dashRightLeg`, which the parser calls for `(dash (l 100 0))`.
unfoldable pub dash_left_leg : PlayerBody → PlayerBody
dash_left_leg b =
    if leg_done b.left_leg
    then b
    else record b { left_leg = leg_dash; dash_cycles = pos 1; command_done = true }

unfoldable pub dash_right_leg : PlayerBody → PlayerBody
dash_right_leg b =
    if leg_done b.right_leg
    then b
    else record b { right_leg = leg_dash; dash_cycles = pos 1; command_done = true }

-- `Player::dash`.
unfoldable pub dash : PlayerBody → PlayerBody
unfolding dash_left_leg dash_right_leg
dash b = if b.command_done then b else dash_right_leg (dash_left_leg b)

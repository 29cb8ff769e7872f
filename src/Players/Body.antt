-- ===== src/Players/Body.antt =====
-- The part of `Player` (src/player.h) that its commands read and write, its legs (src/leg.h), and what the
-- start of a cycle does to it.
use rcssserver.Base.{
  ℕ, suc, zero, ◌+◌, ◌-◌, Bool, true, false, ◌&&◌, ◌||◌, ltb, List, [], ◌∷◌, ℤ, pos, negsuc,
  if◌then◌else◌,
}
use rcssserver.Mode.{Side, left, neutral, right}
use rcssserver.Match.State.{Player}

-- The parameters of src/serverparam.h that the commands read. A negative `goalie_max_moves` is no limit.
pub record CommandParam : Type 0 where
  pub catch_ban_cycle : ℕ
  pub goalie_max_moves : ℤ
  pub tackle_cycles : ℕ
  pub foul_cycles : ℕ

-- `Leg::CommandType`.
pub data CommandType : Type 0 where
  leg_move leg_dash leg_turn leg_kick leg_tackle leg_none : CommandType

pub data ViewWidth : Type 0 where
  narrow normal wide : ViewWidth

pub data ViewQuality : Type 0 where
  low high : ViewQuality

-- What is sent to the client.
pub data ClientReply : Type 0 where
  warning_moving_to_opponent_field error_too_many_moves ok_synch_see : ClientReply

-- The bits of `M_state` that are set by the player's commands, and by fouls at it.
pub record StateBits : Type 0 where
  pub kick_bit : Bool
  pub kick_fault_bit : Bool
  pub catch_bit : Bool
  pub catch_fault_bit : Bool
  pub tackle_bit : Bool
  pub tackle_fault_bit : Bool
  pub foul_charged_bit : Bool

pub record PlayerBody : Type 0 where
  -- the player, as the referees know it
  pub who : Player
  pub state : StateBits
  -- in a unit that makes the numbers whole
  pub place : ℤ × ℤ
  pub synch_see : Bool
  pub visual_send_interval : ℕ
  pub high_quality : Bool
  -- `M_visible_angle`, in sixths of the parameter `visible_angle`
  pub visible_angle : ℕ
  pub view_width : ViewWidth
  pub command_done : Bool
  pub turn_neck_done : Bool
  pub done_received : Bool
  pub goalie_catch_ban : ℕ
  pub goalie_moves_since_catch : ℕ
  -- these two go down to -1
  pub kick_cycles : ℤ
  pub dash_cycles : ℤ
  pub tackle_cycles : ℕ
  pub foul_cycles : ℕ
  pub left_leg : CommandType
  pub right_leg : CommandType
  pub kick_count : ℕ
  pub dash_count : ℕ
  pub turn_count : ℕ
  pub catch_count : ℕ
  pub move_count : ℕ
  pub turn_neck_count : ℕ
  pub change_view_count : ℕ
  pub tackle_count : ℕ
  -- the replies so far, the latest first
  pub replies : List ClientReply

abbrev no_state : StateBits
no_state = record {
  kick_bit = false;
  kick_fault_bit = false;
  catch_bit = false;
  catch_fault_bit = false;
  tackle_bit = false;
  tackle_fault_bit = false;
  foul_charged_bit = false;
}

-- As the constructor and `setEnable` leave it. The place is that of the constructor in a unit of the caller.
abbrev pub new_body : Player → ℤ × ℤ → PlayerBody
new_body p place = record {
  who = p;
  state = no_state;
  place = place;
  synch_see = false;
  visual_send_interval = 4;
  high_quality = true;
  visible_angle = 6;
  view_width = normal;
  command_done = false;
  turn_neck_done = false;
  done_received = false;
  goalie_catch_ban = 0;
  goalie_moves_since_catch = 0;
  kick_cycles = pos 0;
  dash_cycles = pos 0;
  tackle_cycles = 0;
  foul_cycles = 0;
  left_leg = leg_none;
  right_leg = leg_none;
  kick_count = 0;
  dash_count = 0;
  turn_count = 0;
  catch_count = 0;
  move_count = 0;
  turn_neck_count = 0;
  change_view_count = 0;
  tackle_count = 0;
  replies = [];
}

abbrev pub answer : ClientReply → PlayerBody → PlayerBody
answer r b = record b { replies = r ∷ b.replies }

abbrev pub mark : StateBits → PlayerBody → PlayerBody
mark s b = record b { state = s }

-- The product of a number and `side()`.
abbrev pub sided : Side → ℤ → ℤ
sided left x = x
sided neutral x = pos 0
sided right (pos zero) = pos 0
sided right (pos (suc n)) = negsuc n
sided right (negsuc n) = pos (suc n)

-- `Leg::commandDone`, and what each command of a leg does with its type.
abbrev pub leg_done : CommandType → Bool
leg_done leg_none = false
leg_done _ = true

abbrev pub is_dash : CommandType → Bool
is_dash leg_dash = true
is_dash _ = false

abbrev leg_command : CommandType → CommandType → CommandType
leg_command new old = if leg_done old then old else new

abbrev pub both_legs : CommandType → PlayerBody → PlayerBody
both_legs new b = record b {
  left_leg = leg_command new b.left_leg;
  right_leg = leg_command new b.right_leg;
}

-- `if ( n >= 0 ) --n;`
abbrev pub count_down : ℤ → ℤ
count_down (pos zero) = negsuc 0
count_down (pos (suc n)) = pos n
count_down (negsuc n) = negsuc n

abbrev pub over_zero : ℤ → Bool
over_zero (pos zero) = false
over_zero (pos (suc n)) = true
over_zero (negsuc n) = false

-- `Player::applyLegsEffect`, but for the motion.
unfoldable pub apply_legs_effect : PlayerBody → PlayerBody
apply_legs_effect b =
    if is_dash b.left_leg || is_dash b.right_leg
    then record b { dash_count = b.dash_count + 1 }
    else b

-- `Player::resetCommandFlags`.
unfoldable pub reset_command_flags : PlayerBody → PlayerBody
reset_command_flags b =
    let kicks = count_down b.kick_cycles in
    let tackles = b.tackle_cycles - 1 in
    let fouls = b.foul_cycles - 1 in
    let held = over_zero kicks || (ltb 0 tackles || ltb 0 fouls) in
    record b {
      kick_cycles = kicks;
      dash_cycles = count_down b.dash_cycles;
      tackle_cycles = tackles;
      foul_cycles = fouls;
      command_done = if held then b.command_done else false;
      turn_neck_done = false;
      done_received = false;
      left_leg = leg_none;
      right_leg = leg_none;
    }

-- `Player::resetState`.
unfoldable pub reset_state : PlayerBody → PlayerBody
reset_state b =
    let kicked = over_zero b.kick_cycles in
    let tackled = ltb 0 b.tackle_cycles in
    let s = b.state in
    mark
      (record {
        kick_bit = s.kick_bit && kicked;
        kick_fault_bit = s.kick_fault_bit && kicked;
        catch_bit = false;
        catch_fault_bit = false;
        tackle_bit = s.tackle_bit && tackled;
        tackle_fault_bit = s.tackle_fault_bit && tackled;
        foul_charged_bit = s.foul_charged_bit && ltb 0 b.foul_cycles;
      })
      b

-- `Player::setFoulCharged`.
unfoldable pub set_foul_charged : CommandParam → PlayerBody → PlayerBody
set_foul_charged pp b = record b {
  foul_cycles = pp.foul_cycles;
  command_done = true;
  state = record b.state { foul_charged_bit = true };
}

-- The part of `Player::updateCapacity` on catches, which `Stadium::step` calls for enabled players.
unfoldable pub update_catch_ban : PlayerBody → PlayerBody
update_catch_ban b =
    if b.who.enabled then record b { goalie_catch_ban = b.goalie_catch_ban - 1 } else b

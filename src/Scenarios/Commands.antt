-- ===== src/Scenarios/Commands.antt =====
-- The commands of players (src/player.cpp): a catch and what follows, a tackle, and the view.
use rcssserver.Base.{◌≡◌, refl, ℕ, true, false, some, List, [], ◌∷◌, pos, negsuc}
use rcssserver.Mode
use rcssserver.Mode.{Side, left, right, PlayMode}
use rcssserver.Match.State.{Match}
use rcssserver.Referees.View.{View}
use rcssserver.Stadium.Actions.{BallAction, stadium_ball_caught}
use rcssserver.Referees.Catching.{catch_ball_caught, catch_ball_touched}
use rcssserver.Referees.Touching.{touch_ball_touched}
use rcssserver.Referees.Taking.{free_kick_ball_touched}
use rcssserver.Referees.Offside.{set_offside_mark}
use rcssserver.Referees.Awards.{award, award_free_kick}
use rcssserver.Match.ModeChange.{
  place_ball_mode, change_play_mode, penalty_change, keepaway_change, illegal_defense_change,
  foul_change, catch_change, touch_change, free_kick_change, offside_change,
}
use rcssserver.Shootout.Events.{ball_caught}
use rcssserver.Players.Body.{
  CommandParam, narrow, wide, low, new_body, apply_legs_effect, reset_command_flags,
  update_catch_ban,
}
use rcssserver.Players.Commands.{Playing, Kick, Catch, within_reach, goalie_catch, Move, move}
use rcssserver.Players.Views.{change_view, set_synch_see}
use rcssserver.Players.Runs.{
  PlayerEvent, kick_com, catch_com, move_com, turn_com, dash_left_com, dash_right_com, dash_com,
  synch_see_com, change_view_com, step_begun, step_ended, foul_charged, others, befall, befall_all,
}
use rcssserver.Players.Limits.{Ruled, commands-Ruled}
use rcssserver.Players.Release.{held-released}
use rcssserver.Players.Held.{Idle, leg_dashes, held-Idle}
use rcssserver.Scenarios.Matches.{params, full_time, rolling, striker, goalkeeper}

-- A ban of three steps, two moves with the ball, and two steps for a tackle and a foul.
abbrev rules : CommandParam
rules = record { catch_ban_cycle = 3; goalie_max_moves = pos 2; tackle_cycles = 2; foul_cycles = 2 }

abbrev own_area : View
own_area = record rolling { in_left_area = true }

-- The ball alone with the goalie of the left side.
abbrev at_ball : BallAction
at_ball = record {
  player = goalkeeper left;
  dashes = 0;
  field = record { centre = 500; ball_x = 100; placed = [] };
  view = own_area;
  coin = true;
}

abbrev firm_catch : Catch
firm_catch = record {
  reach = within_reach true;
  beside = (negsuc 49, pos 3);
  action = at_ball;
  own_area = true;
  collisions = [];
}

abbrev carry : ℕ → Move
carry y = record { x = negsuc 39; y = pos y; beyond_centre = false; collisions = [] }

abbrev left_goalie : Playing
left_goalie = record { game = full_time; body = new_body (goalkeeper left) (negsuc 48, pos 0) }

-- The match after the catch.
abbrev caught : Match
caught = record full_time { playmode = Mode.free_kick_left; ball_catcher = some (goalkeeper left) }

-- The goalie holds the ball for its side.
held_ball :
    (stadium_ball_caught params at_ball true [] full_time).ball_catcher ≡ some (goalkeeper left)
unfolding stadium_ball_caught ball_caught catch_ball_caught catch_ball_touched touch_ball_touched
    free_kick_ball_touched set_offside_mark award_free_kick award place_ball_mode change_play_mode
    penalty_change keepaway_change illegal_defense_change foul_change catch_change touch_change
    free_kick_change offside_change
held_ball = refl

abbrev catch_and_move : List PlayerEvent
catch_and_move =
    catch_com firm_catch
    ∷ others caught
    ∷ step_begun
    ∷ step_ended
    ∷ move_com (carry 5)
    ∷ step_begun
    ∷ step_ended
    ∷ move_com (carry 10)
    ∷ step_begun
    ∷ step_ended
    ∷ move_com (carry 15)
    ∷ []

-- The third move is refused.
third_move : (befall_all params rules catch_and_move left_goalie).body.place ≡ (negsuc 39, pos 10)
unfolding befall_all befall move update_catch_ban reset_command_flags apply_legs_effect goalie_catch
third_move = refl

commands-Ruled_example : Ruled rules 3 (befall_all params rules catch_and_move left_goalie).body
commands-Ruled_example =
    commands-Ruled params rules (goalkeeper left) (negsuc 48, pos 0) catch_and_move full_time

-- Low quality halves the interval, and `synch_see` gives high quality again.
abbrev look : List PlayerEvent
look = change_view_com wide low ∷ synch_see_com ∷ change_view_com narrow low ∷ []

looks_wide : (befall_all params rules look left_goalie).body.visual_send_interval ≡ 3
unfolding befall_all befall change_view set_synch_see
looks_wide = refl

abbrev hard_kick : Kick
hard_kick = record { kickable = true; near = true; action = at_ball; accel_r = 5 }

-- In the second step of a tackle that takes three.
abbrev tackling : Playing
tackling = record {
  game = full_time;
  body = record (new_body (striker right 4) (pos 100, pos 0)) {
    command_done = true;
    tackle_cycles = 3;
    tackle_count = 1;
  };
}

abbrev struggle : List PlayerEvent
struggle =
    kick_com hard_kick
    ∷ dash_com
    ∷ dash_left_com
    ∷ step_begun
    ∷ turn_com
    ∷ foul_charged
    ∷ others caught
    ∷ dash_right_com
    ∷ step_begun
    ∷ []

two_dashes : leg_dashes struggle false ≡ 2
two_dashes = refl

held-Idle_example : Idle tackling.body 2 caught (befall_all params rules struggle tackling)
held-Idle_example = held-Idle params rules struggle tackling refl refl refl refl

abbrev wriggle : List PlayerEvent
wriggle = dash_left_com ∷ step_begun ∷ turn_com ∷ step_ended ∷ step_begun ∷ dash_right_com ∷ []

held-released_example :
    (befall params rules step_begun (befall_all params rules wriggle tackling)).body.command_done
    ≡ false
held-released_example = held-released params rules wriggle tackling refl refl refl refl refl refl

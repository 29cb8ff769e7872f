-- ===== src/Players/Runs.antt =====
-- What happens to a player: its commands (`rcss::pcom::Builder` of src/pcombuilder.h), what `Stadium::step`
-- (src/stadium.cpp) does to it, and whatever the rest of the server does to the match meanwhile.
use rcssserver.Base.{true, List, [], ◌∷◌}
use rcssserver.Match.State.{ServerParam, Match}
use rcssserver.Players.Body.{
  CommandParam, ViewWidth, ViewQuality, PlayerBody, apply_legs_effect, reset_command_flags,
  reset_state, set_foul_charged, update_catch_ban,
}
use rcssserver.Players.Commands.{
  Playing, Kick, kick, Catch, goalie_catch, Move, move, turn_body, turn_neck, dash, dash_left_leg,
  dash_right_leg,
}
use rcssserver.Players.Tackles.{Tackle, tackle}
use rcssserver.Players.Views.{change_view, change_view_width, set_synch_see}

pub data PlayerEvent : Type 0 where
  kick_com : Kick → PlayerEvent
  catch_com : Catch → PlayerEvent
  move_com : Move → PlayerEvent
  tackle_com : Tackle → PlayerEvent
  turn_com turn_neck_com dash_com dash_left_com dash_right_com done_com synch_see_com : PlayerEvent
  change_view_com : ViewWidth → ViewQuality → PlayerEvent
  change_view_width_com : ViewWidth → PlayerEvent
  -- `applyLegsEffect` and `resetCommandFlags` at the start of a step, and `updateCapacity` at its end
  step_begun step_ended : PlayerEvent
  state_reset foul_charged : PlayerEvent
  -- the match as other players and the referees leave it
  others : Match → PlayerEvent

abbrev change_body : (PlayerBody → PlayerBody) → Playing → Playing
change_body f s = record s { body = f s.body }

-- `Player::done`.
abbrev note_done : PlayerBody → PlayerBody
note_done b = record b { done_received = true }

abbrev pub begin_step : PlayerBody → PlayerBody
begin_step b = reset_command_flags (apply_legs_effect b)

unfoldable pub befall : ServerParam → CommandParam → PlayerEvent → Playing → Playing
befall sp pp (kick_com k) s = kick sp k s
befall sp pp (catch_com c) s = goalie_catch sp pp c s
befall sp pp (move_com v) s = move sp pp v s
befall sp pp (tackle_com t) s = tackle sp pp t s
befall sp pp turn_com s = change_body turn_body s
befall sp pp turn_neck_com s = change_body turn_neck s
befall sp pp dash_com s = change_body dash s
befall sp pp dash_left_com s = change_body dash_left_leg s
befall sp pp dash_right_com s = change_body dash_right_leg s
befall sp pp done_com s = change_body note_done s
befall sp pp synch_see_com s = change_body set_synch_see s
befall sp pp (change_view_com w q) s = change_body (change_view w q) s
befall sp pp (change_view_width_com w) s = change_body (change_view_width w) s
befall sp pp step_begun s = change_body begin_step s
befall sp pp step_ended s = change_body update_catch_ban s
befall sp pp state_reset s = change_body reset_state s
befall sp pp foul_charged s = change_body (set_foul_charged pp) s
befall sp pp (others m) s = record s { game = m }

unfoldable pub befall_all : ServerParam → CommandParam → List PlayerEvent → Playing → Playing
unfolding befall
befall_all sp pp [] s = s
befall_all sp pp (e ∷ es) s = befall_all sp pp es (befall sp pp e s)

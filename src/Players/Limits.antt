-- ===== src/Players/Limits.antt =====
-- What holds of a player however it is commanded: catches and moves of a goalie, and the view
-- (src/player.cpp).
use rcssserver.Base.{
  ◌≡◌, refl, subst, ℕ, ◌+◌, ◌*◌, ◌/◌, ◌≤◌, true, false, not, ◌||◌, leb, List, [], ◌∷◌, is_negative,
  pos_part, ℤ, if_elim, if◌then◌else◌, arith,
}
use rcssserver.Match.State.{ServerParam, Player, Match}
use rcssserver.Players.Body.{
  CommandParam, ViewWidth, ViewQuality, low, high, PlayerBody, new_body, apply_legs_effect,
  reset_command_flags, reset_state, set_foul_charged, update_catch_ban,
}
use rcssserver.Players.Commands.{
  Playing, Kick, kick, Catch, Reach, out_of_reach, within_reach, try_catch, may_catch, catch_begun,
  goalie_catch, Move, move, turn_body, turn_neck, dash, dash_left_leg, dash_right_leg,
}
use rcssserver.Players.Tackles.{Tackle, Aim, no_distance, out_of_range, drawn, try_tackle, tackle}
use rcssserver.Players.Views.{interval_of, angle_of, change_view, change_view_width, set_synch_see}
use rcssserver.Players.Runs.{
  PlayerEvent, kick_com, catch_com, move_com, tackle_com, turn_com, turn_neck_com, dash_com,
  dash_left_com, dash_right_com, done_com, synch_see_com, change_view_com, change_view_width_com,
  step_begun, step_ended, state_reset, foul_charged, others, begin_step, befall, befall_all,
}

-- The goalie's limits after so many steps, and the view that the width, the quality and `synch_see` give.
pub record Ruled (pp : CommandParam) (steps : ℕ) (b : PlayerBody) : Type 0 where
  pub spaced : b.catch_count * pp.catch_ban_cycle ≤ steps + b.goalie_catch_ban
  pub banned : b.goalie_catch_ban ≤ pp.catch_ban_cycle
  pub moves :
      (is_negative pp.goalie_max_moves
        || leb b.goalie_moves_since_catch (pos_part pp.goalie_max_moves))
      ≡ true
  pub angle : b.visible_angle ≡ angle_of b.synch_see b.view_width
  pub interval : b.visual_send_interval ≡ (
      let full = interval_of b.synch_see b.view_width in if b.high_quality then full else full / 2)
  pub synchronous : (not b.synch_see || b.high_quality) ≡ true

module _ (sp : ServerParam) (pp : CommandParam) (n : ℕ) where
  kick-Ruled : (k : Kick) (s : Playing) → Ruled pp n s.body → Ruled pp n (kick sp k s).body
  unfolding kick
  kick-Ruled k s h = ground (arith, h)

  move-Ruled : (v : Move) (s : Playing) → Ruled pp n s.body → Ruled pp n (move sp pp v s).body
  unfolding move
  move-Ruled v s h = ground (arith, h)

  try_tackle-Ruled :
      (t : Tackle) (a : Aim) (s : Playing)
      → Ruled pp n s.body
      → Ruled pp n (try_tackle sp t a s).body
  try_tackle-Ruled t no_distance s h = ground (arith, h)
  try_tackle-Ruled t out_of_range s h = ground (arith, h)
  try_tackle-Ruled t (drawn true) s h = ground (arith, h)
  try_tackle-Ruled t (drawn false) s h = ground (arith, h)

  view-Ruled :
      (w : ViewWidth) (q : ViewQuality) (b : PlayerBody)
      → Ruled pp n b
      → Ruled pp n (change_view w q b)
  unfolding change_view
  view-Ruled w high b h = ground (arith, h)
  view-Ruled w low b h = ground (arith, h)

  tackle-Ruled : (t : Tackle) (s : Playing) → Ruled pp n s.body → Ruled pp n (tackle sp pp t s).body
  unfolding tackle
  tackle-Ruled t s h =
      if_elim (λ (r : Playing). Ruled pp n r.body) s.body.command_done (λ _. h)
        (λ _. try_tackle-Ruled t t.aim _ (ground (arith, h)))

  -- A catch is counted at most once for each time that the ban is set, and only without a ban.
  try_catch-Ruled :
      (c : Catch) (r : Reach) (s : Playing)
      → Ruled pp n s.body
      → s.body.goalie_catch_ban ≡ 0
      → Ruled pp n
          (try_catch sp c r
            (record s { body = record s.body { goalie_catch_ban = pp.catch_ban_cycle } })).body
  try_catch-Ruled c out_of_reach s h free = ground (arith, h, free)
  try_catch-Ruled c (within_reach true) s h free = ground (arith, h, free)
  try_catch-Ruled c (within_reach false) s h free = ground (arith, h, free)

  catch-Ruled :
      (c : Catch) (s : Playing) → Ruled pp n s.body → Ruled pp n (goalie_catch sp pp c s).body
  unfolding goalie_catch
  catch-Ruled c s h =
      if_elim (λ (r : Playing). Ruled pp n r.body) s.body.command_done (λ _. h)
        (λ _.
          if_elim (λ (r : Playing). Ruled pp n r.body) (not (may_catch s)) (λ _. ground (arith, h))
            (λ e.
              try_catch-Ruled c c.reach (record s { body = catch_begun s.body }) (ground (arith, h))
                (ground (arith, e))))

  begin_step-Ruled : (b : PlayerBody) → Ruled pp n b → Ruled pp n (begin_step b)
  unfolding apply_legs_effect reset_command_flags
  begin_step-Ruled b h = ground (arith, h)

-- The end of a step is one step more.
abbrev more_steps : PlayerEvent → ℕ
more_steps step_ended = 1
more_steps e = 0

abbrev steps_ended : List PlayerEvent → ℕ
steps_ended [] = 0
steps_ended (e ∷ es) = more_steps e + steps_ended es

befall-Ruled :
    (sp : ServerParam) (pp : CommandParam) (n : ℕ) (e : PlayerEvent) (s : Playing)
    → Ruled pp n s.body
    → Ruled pp (more_steps e + n) (befall sp pp e s).body
unfolding befall turn_body turn_neck dash dash_left_leg dash_right_leg change_view_width
    set_synch_see reset_state set_foul_charged update_catch_ban
befall-Ruled sp pp n (kick_com k) s h = ground (arith, kick-Ruled sp pp n k s h)
befall-Ruled sp pp n (catch_com c) s h = ground (arith, catch-Ruled sp pp n c s h)
befall-Ruled sp pp n (move_com v) s h = ground (arith, move-Ruled sp pp n v s h)
befall-Ruled sp pp n (tackle_com t) s h = ground (arith, tackle-Ruled sp pp n t s h)
befall-Ruled sp pp n (change_view_com w q) s h = ground (arith, view-Ruled sp pp n w q s.body h)
befall-Ruled sp pp n (change_view_width_com w) s h = ground (arith, h)
befall-Ruled sp pp n turn_com s h = ground (arith, h)
befall-Ruled sp pp n turn_neck_com s h = ground (arith, h)
befall-Ruled sp pp n dash_com s h = ground (arith, h)
befall-Ruled sp pp n dash_left_com s h = ground (arith, h)
befall-Ruled sp pp n dash_right_com s h = ground (arith, h)
befall-Ruled sp pp n done_com s h = ground (arith, h)
befall-Ruled sp pp n synch_see_com s h = ground (arith, h)
befall-Ruled sp pp n step_begun s h = ground (arith, begin_step-Ruled sp pp n s.body h)
befall-Ruled sp pp n step_ended s h = ground (arith, h)
befall-Ruled sp pp n state_reset s h = ground (arith, h)
befall-Ruled sp pp n foul_charged s h = ground (arith, h)
befall-Ruled sp pp n (others m) s h = ground (arith, h)

befall_all-Ruled :
    (sp : ServerParam) (pp : CommandParam) (n : ℕ) (es : List PlayerEvent) (s : Playing)
    → Ruled pp n s.body
    → Ruled pp (steps_ended es + n) (befall_all sp pp es s).body
unfolding befall_all
befall_all-Ruled sp pp n [] s h = ground (arith, h)
befall_all-Ruled sp pp n (e ∷ es) s h =
    let r =
      befall_all-Ruled sp pp (more_steps e + n) es (befall sp pp e s)
        (befall-Ruled sp pp n e s h) in
    subst (λ k. Ruled pp k (befall_all sp pp es (befall sp pp e s)).body) (omega arith) r

-- Whatever a player commands, and whatever happens to it and to the match meanwhile: the catches that it has
-- tried with the ball in reach, at `catch_ban_cycle` steps each, fit into the steps that have ended and the
-- ban that is left, which is at most `catch_ban_cycle`; since the last of them it has moved with the ball at
-- most `goalie_max_moves` times, if that is not negative; and its angle and its interval are those of its
-- width, halved intervals being of low quality, which it has without `synch_see` only.
pub commands-Ruled :
    (sp : ServerParam) (pp : CommandParam) (p : Player) (place : ℤ × ℤ) (es : List PlayerEvent)
    (m : Match)
    → Ruled pp
        (steps_ended es)
        (befall_all sp pp es (record { game = m; body = new_body p place })).body
commands-Ruled sp pp p place es m =
    let start : Ruled pp 0 (new_body p place) = record {
      spaced = omega arith;
      banned = omega arith;
      moves = ground arith;
      angle = refl;
      interval = refl;
      synchronous = refl;
    } in
    let r = befall_all-Ruled sp pp 0 es (record { game = m; body = new_body p place }) start in
    subst
      (λ k. Ruled pp k (befall_all sp pp es (record { game = m; body = new_body p place })).body)
      (omega arith) r

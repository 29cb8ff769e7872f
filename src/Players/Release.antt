-- ===== src/Players/Release.antt =====
-- When a player whom a tackle or a foul holds may command again (src/player.cpp).
use rcssserver.Base.{
  ◌≡◌, refl, subst, ℕ, suc, zero, ◌+◌, Bool, true, false, not, ◌&&◌, leb, List, [], ◌∷◌, ℤ, pos,
  negsuc, arith,
}
use rcssserver.Match.State.{ServerParam}
use rcssserver.Players.Body.{
  CommandParam, low, high, leg_none, PlayerBody, count_down, over_zero, apply_legs_effect,
  reset_command_flags, reset_state, set_foul_charged, update_catch_ban,
}
use rcssserver.Players.Commands.{
  Playing, kick, goalie_catch, move, turn_body, turn_neck, dash, dash_left_leg, dash_right_leg,
}
use rcssserver.Players.Tackles.{tackle}
use rcssserver.Players.Views.{change_view, change_view_width, set_synch_see}
use rcssserver.Players.Runs.{
  PlayerEvent, kick_com, catch_com, move_com, tackle_com, turn_com, turn_neck_com, dash_com,
  dash_left_com, dash_right_com, done_com, synch_see_com, change_view_com, change_view_width_com,
  step_begun, step_ended, state_reset, foul_charged, others, befall, befall_all,
}
use rcssserver.Players.Held.{Held, befall-Held, begins, waits, steps_begun, is_held}

abbrev is_unfouled : PlayerEvent → Bool
is_unfouled foul_charged = false
is_unfouled e = true

abbrev all_unfouled : List PlayerEvent → Bool
all_unfouled [] = true
all_unfouled (e ∷ es) = is_unfouled e && all_unfouled es

-- Not held beyond so many steps and the next one.
abbrev is_ending : ℕ → PlayerBody → Bool
is_ending n b =
    leb b.tackle_cycles (1 + n)
    && (leb b.foul_cycles (1 + n) && not (over_zero (count_down b.kick_cycles)))

count_down-over_zero :
    (k : ℤ) → over_zero (count_down k) ≡ false → over_zero (count_down (count_down k)) ≡ false
count_down-over_zero (pos zero) h = refl
count_down-over_zero (pos (suc zero)) h = refl
count_down-over_zero (pos (suc (suc n))) h = ground (arith, h)
count_down-over_zero (negsuc n) h = refl

befall-is_ending :
    (sp : ServerParam) (pp : CommandParam) (n : ℕ) (w : Bool) (e : PlayerEvent) (s : Playing)
    → Held pp (begins e + n) w s.body
    → is_unfouled e ≡ true
    → is_ending (begins e + n) s.body ≡ true
    → is_ending n (befall sp pp e s).body ≡ true
unfolding befall kick goalie_catch move tackle turn_body turn_neck dash dash_left_leg dash_right_leg
    change_view change_view_width set_synch_see reset_state set_foul_charged update_catch_ban
    apply_legs_effect reset_command_flags
befall-is_ending sp pp n w (kick_com k) s h u i = ground (arith, h, i)
befall-is_ending sp pp n w (catch_com c) s h u i = ground (arith, h, i)
befall-is_ending sp pp n w (move_com v) s h u i = ground (arith, h, i)
befall-is_ending sp pp n w (tackle_com t) s h u i = ground (arith, h, i)
befall-is_ending sp pp n w (change_view_com x low) s h u i = ground (arith, h, i)
befall-is_ending sp pp n w (change_view_com x high) s h u i = ground (arith, h, i)
befall-is_ending sp pp n w (change_view_width_com x) s h u i = ground (arith, h, i)
befall-is_ending sp pp n w turn_com s h u i = ground (arith, h, i)
befall-is_ending sp pp n w turn_neck_com s h u i = ground (arith, h, i)
befall-is_ending sp pp n w dash_com s h u i = ground (arith, h, i)
befall-is_ending sp pp n w dash_left_com s h u i = ground (arith, h, i)
befall-is_ending sp pp n w dash_right_com s h u i = ground (arith, h, i)
befall-is_ending sp pp n w done_com s h u i = ground (arith, h, i)
befall-is_ending sp pp n w synch_see_com s h u i = ground (arith, h, i)
befall-is_ending sp pp n w step_begun s h u i =
    ground (arith, h, i, count_down-over_zero s.body.kick_cycles)
befall-is_ending sp pp n w step_ended s h u i = ground (arith, h, i)
befall-is_ending sp pp n w state_reset s h u i = ground (arith, h, i)
befall-is_ending sp pp n w foul_charged s h u i = ground (arith, u)
befall-is_ending sp pp n w (others m) s h u i = ground (arith, h, i)

befall_all-is_ending :
    (sp : ServerParam) (pp : CommandParam) (n : ℕ) (w : Bool) (es : List PlayerEvent) (s : Playing)
    → Held pp (steps_begun es + n) w s.body
    → all_unfouled es ≡ true
    → is_ending (steps_begun es + n) s.body ≡ true
    → is_ending n (befall_all sp pp es s).body ≡ true
unfolding befall_all
befall_all-is_ending sp pp n w [] s h u i = subst (λ k. is_ending k s.body ≡ true) (omega arith) i
befall_all-is_ending sp pp n w (e ∷ es) s h u i =
    let rest = steps_begun es + n in
    let here : Held pp (begins e + rest) w s.body =
      subst (λ k. Held pp k w s.body) (omega arith) h in
    let ending : is_ending (begins e + rest) s.body ≡ true =
      subst (λ k. is_ending k s.body ≡ true) (omega arith) i in
    befall_all-is_ending sp pp n (waits e w) es (befall sp pp e s)
      (befall-Held sp pp rest w e s here).still (ground (arith, u))
      (befall-is_ending sp pp rest w e s here (ground (arith, u)) ending)

step_begun-frees :
    (sp : ServerParam) (pp : CommandParam) (s : Playing)
    → is_ending 0 s.body ≡ true
    → (befall sp pp step_begun s).body.command_done ≡ false
unfolding befall apply_legs_effect reset_command_flags
step_begun-frees sp pp s h = ground (arith, h)

-- A player who has done its command, is held by its own tackle or by a foul for more steps than begin, but
-- for no more than one step more, its legs free and no kick delayed, may command again as soon as the
-- next step begins, whatever it commands until then, if no other foul reaches it.
pub held-released :
    (sp : ServerParam) (pp : CommandParam) (es : List PlayerEvent) (s : Playing)
    → s.body.command_done ≡ true
    → is_held pp (steps_begun es) s.body ≡ true
    → is_ending (steps_begun es) s.body ≡ true
    → s.body.left_leg ≡ leg_none
    → s.body.right_leg ≡ leg_none
    → all_unfouled es ≡ true
    → (befall sp pp step_begun (befall_all sp pp es s)).body.command_done ≡ false
held-released sp pp es s done held ending l r u =
    let start : Held pp (steps_begun es) false s.body = ground (arith, done, held, l, r) in
    let last =
      befall_all-is_ending sp pp 0 false es s
        (subst (λ k. Held pp k false s.body) (omega arith) start) u
        (subst (λ k. is_ending k s.body ≡ true) (omega arith) ending) in
    step_begun-frees sp pp (befall_all sp pp es s) last

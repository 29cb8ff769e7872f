-- ===== src/Stadium/Offside.antt =====
-- Which mode the kick of an offside player leads to, through all referees (src/stadium.cpp).
use rcssserver.Base.{
  ◌≡◌, refl, ap, ◌∙◌, ℕ, Bool, true, false, not, ◌&&◌, ◌||◌, ◌==◌, ltb, if_elim, arith,
}
use rcssserver.Mode.{Side, left, neutral, right, PlayMode, same_side}
use rcssserver.Match.State.{ServerParam, Player, Match}
use rcssserver.Match.ModeChange.{is_penalty_shoot_out, goal_kick, clear_ball_catcher}
use rcssserver.Referees.View.{View}
use rcssserver.Shootout.Events.{kick_taken}
use rcssserver.Referees.Offside.{is_candidate, is_at, set_offside_mark}
use rcssserver.Referees.Taking.{is_off_side, free_kick_kick_taken}
use rcssserver.Referees.Touching.{touch_kick_taken}
use rcssserver.Referees.Catching.{catch_kick_taken}
use rcssserver.Referees.Fouls.{illegal_kick_taken}
use rcssserver.Stadium.Actions.{BallAction, kick_noted, stadium_kick_taken}
use rcssserver.Referees.OffsideCalls.{offside_mode, kick-mode}

-- A mode in which the referees after `OffsideRef` leave the mode alone at a kick.
record Settled (pm : PlayMode) : Type 0 where
  pub no_shootout : is_penalty_shoot_out pm ≡ false
  pub no_goal_kick : goal_kick pm ≡ false
  pub offside_called : is_off_side pm ≡ true

free_kick-Settled :
    (sp : ServerParam) (p : Player) (d : ℕ) (m : Match)
    → Settled m.playmode
    → free_kick_kick_taken sp p d m ≡ m
unfolding free_kick_kick_taken
free_kick-Settled sp p d m s = simp (s.no_shootout, s.no_goal_kick, s.offside_called)

touch-mode :
    (v : View) (p : Player) (a : ℕ) (m : Match) → (touch_kick_taken v p a m).playmode ≡ m.playmode
unfolding touch_kick_taken
touch-mode v p a m =
    if_elim (λ (n : Match). n.playmode ≡ m.playmode) (not v.beyond_goal_line) (λ _. refl)
      (λ _. refl)

catch-mode : (p : Player) (m : Match) → (catch_kick_taken p m).playmode ≡ m.playmode
unfolding catch_kick_taken
catch-mode p m = refl

illegal-mode :
    (sp : ServerParam) (p : Player) (m : Match) → (illegal_kick_taken sp p m).playmode ≡ m.playmode
unfolding illegal_kick_taken
illegal-mode sp p m =
    if_elim (λ (n : Match). n.playmode ≡ m.playmode) (sp.illegal_defense_number == 0) (λ _. refl)
      (λ _.
        if_elim (λ (n : Match). n.playmode ≡ m.playmode)
          ((m.illegal_defense.last_kick_time == m.time)
            && (not (same_side p.side m.illegal_defense.last_kicker_side)
                || same_side m.illegal_defense.last_kicker_side neutral))
          (λ _. refl) (λ _. refl))

kick_taken_outside :
    (sp : ServerParam) (c : Bool) (p : Player) (m : Match)
    → is_penalty_shoot_out m.playmode ≡ false
    → kick_taken sp c p m ≡ m
unfolding kick_taken
kick_taken_outside sp c p m running = simp (running)

kick_noted-Settled :
    (sp : ServerParam) (a : BallAction) (accel_r : ℕ) (m : Match)
    → Settled (set_offside_mark sp a.field a.player accel_r m).playmode
    → (kick_noted sp a accel_r m).playmode
      ≡ (set_offside_mark sp a.field a.player accel_r m).playmode
kick_noted-Settled sp a accel_r m s =
    let marked = set_offside_mark sp a.field a.player accel_r m in
    catch-mode a.player _
    ∙ touch-mode a.view a.player accel_r _
    ∙ ap (λ (n : Match). n.playmode) (free_kick-Settled sp a.player a.dashes marked s)

stadium_kick-Settled :
    (sp : ServerParam) (a : BallAction) (accel_r : ℕ) (m : Match) (pm : PlayMode)
    → Settled pm
    → (set_offside_mark sp a.field a.player accel_r (clear_ball_catcher m)).playmode ≡ pm
    → (stadium_kick_taken sp a accel_r m).playmode ≡ pm
unfolding stadium_kick_taken
stadium_kick-Settled sp a accel_r m pm s e =
    let start = clear_ball_catcher m in
    let noted = kick_noted sp a accel_r start in
    let judged = illegal_kick_taken sp a.player noted in
    let settled : Settled (set_offside_mark sp a.field a.player accel_r start).playmode =
      rw (e) s in
    let kept : judged.playmode ≡ pm =
      illegal-mode sp a.player noted ∙ kick_noted-Settled sp a accel_r start settled ∙ e in
    ap (λ (n : Match). n.playmode)
      (kick_taken_outside sp a.coin a.player judged (rw (kept) s.no_shootout))
    ∙ kept

offside-Settled :
    (s : Side) (pm : PlayMode) → same_side s neutral ≡ false → Settled (offside_mode s pm)
offside-Settled left pm h = record {
  no_shootout = refl;
  no_goal_kick = refl;
  offside_called = refl;
}
offside-Settled neutral pm h = ground (arith, h)
offside-Settled right pm h = record {
  no_shootout = refl;
  no_goal_kick = refl;
  offside_called = refl;
}

-- With offside in use, a candidate for offside that plays for a side and kicks the ball in a later cycle
-- than the kick that made it one, outside the shoot-out and with any strength above 0, is offside: when the
-- kick has gone through all referees, the mode is the offside of its side, whatever the mode was before.
pub kick-offside :
    (sp : ServerParam) (a : BallAction) (accel_r : ℕ) (m : Match)
    → sp.use_offside ≡ true
    → is_penalty_shoot_out m.playmode ≡ false
    → is_at m.offside.last_kick_time m.time ≡ false
    → is_candidate a.player m.offside.candidates ≡ true
    → ltb 0 accel_r ≡ true
    → same_side a.player.side neutral ≡ false
    → (stadium_kick_taken sp a accel_r m).playmode ≡ offside_mode a.player.side m.playmode
kick-offside sp a accel_r m on running later cand strong plays =
    stadium_kick-Settled sp a accel_r m (offside_mode a.player.side m.playmode)
      (offside-Settled a.player.side m.playmode plays)
      (kick-mode sp a.field a.player accel_r (clear_ball_catcher m) on running later cand strong)

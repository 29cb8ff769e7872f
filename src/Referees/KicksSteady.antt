-- ===== src/Referees/KicksSteady.antt =====
-- Neither the kicks nor a ball that leaves the pitch make a referee of src/referee.cpp set the
-- clock or the score.
use rcssserver.Base.{pos, suc, refl, Bool, true, false, arith, if◌then◌else◌}
use rcssserver.Mode
use rcssserver.Mode.{Side, left, neutral, right, PlayMode, opposite}
use rcssserver.Match.State.{
  ServerParam, Match, centre, emit, place_players_in_field, place_players_for_goal_kick,
}
use rcssserver.Match.ModeChange.{is_free_kick, reset_field}
use rcssserver.Match.Frame.{counted-Steady, Steady, Steady-refl, Steady-trans, change-Steady}
use rcssserver.Referees.View.{View}
use rcssserver.Referees.Awards.{award_drop_ball}
use rcssserver.Referees.Kicks.{
  at_least, tick, is_zero, taker_side, run_timer, stopped_goal_kick, watch_goal_kick, begin_play,
  clear_opponents, watch_free_kick, wait_free_kick_fault, free_kick_by_mode, free_kick_analyse,
}
use rcssserver.Referees.Ball.{over_goal_line, over_side_line, watch_lines, wait_goal}
use rcssserver.Referees.Training.{keepaway_analyse}
use rcssserver.Referees.Steady.{
  award_free_kick-Steady, award_goal_kick-Steady, award_kick_in-Steady, award_corner_kick-Steady,
  award_drop_ball-Steady, place-Steady, wait_fault-Steady,
}

run_timer-Steady : (sp : ServerParam) (m : Match) → Steady m (run_timer sp m)
run_timer-Steady sp m =
    let f = m.free_kick in
    let t = if at_least f.timer (pos 0) then tick f.timer else f.timer in
    let ticked = record m { free_kick = record f { timer = t } } in
    counted-Steady _ _ ticked refl refl refl refl (dropped (is_zero t) ticked)
  where
    dropped : (b : Bool) (n : Match) → Steady n (if b then award_drop_ball sp n else n)
    dropped true n = award_drop_ball-Steady sp n
    dropped false n = Steady-refl n

stopped_goal_kick-Steady :
    (sp : ServerParam) (v : View) (m : Match) → Steady m (stopped_goal_kick sp v m)
stopped_goal_kick-Steady sp v m =
    let s = taker_side m.free_kick.kick_taker in
    ground (arith, award_free_kick-Steady sp (opposite s) m, award_goal_kick-Steady sp s m)

watch_goal_kick-Steady :
    (sp : ServerParam) (v : View) (pm : PlayMode) (m : Match) → Steady m (watch_goal_kick sp v pm m)
unfolding watch_goal_kick
watch_goal_kick-Steady sp v pm m0 =
    let m = emit place_players_in_field (emit (place_players_for_goal_kick pm) m0) in
    ground (
      arith,
      change-Steady sp Mode.play_on m,
      stopped_goal_kick-Steady sp v m,
      run_timer-Steady sp m,
    )

begin_play-Steady :
    (sp : ServerParam) (v : View) (pm : PlayMode) (m : Match) → Steady m (begin_play sp v pm m)
begin_play-Steady sp v pm m = ground (arith, change-Steady sp Mode.play_on m)

clear_opponents-Steady : (pm : PlayMode) (m : Match) → Steady m (clear_opponents pm m)
clear_opponents-Steady pm m = ground arith

placed-Steady : (m : Match) → Steady m (emit place_players_in_field m)
placed-Steady m = ground arith

watch_free_kick-Steady :
    (sp : ServerParam) (v : View) (pm : PlayMode) (m : Match) → Steady m (watch_free_kick sp v pm m)
unfolding watch_free_kick
watch_free_kick-Steady sp v pm m =
    let placed = emit place_players_in_field (begin_play sp v pm m) in
    let cleared = clear_opponents pm placed in
    let p : Steady m placed = Steady-trans (begin_play-Steady sp v pm m) (placed-Steady _) in
    Steady-trans p
      (Steady-trans (clear_opponents-Steady pm placed) (timed (is_free_kick pm) cleared))
  where
    timed : (b : Bool) (n : Match) → Steady n (if b then run_timer sp n else n)
    timed true n = run_timer-Steady sp n
    timed false n = Steady-refl n

wait_free_kick_fault-Steady :
    (sp : ServerParam) (s : Side) (pm : PlayMode) (m : Match)
    → Steady m (wait_free_kick_fault sp s pm m)
wait_free_kick_fault-Steady sp s pm m =
    let f = m.free_kick in
    let t = suc f.after_free_kick_fault_time in
    counted-Steady _ _ (record m { free_kick = record f { after_free_kick_fault_time = t } }) refl
      refl refl refl (wait_fault-Steady sp t s pm _)

free_kick_by_mode-Steady :
    (sp : ServerParam) (v : View) (pm : PlayMode) (m : Match)
    → Steady m (free_kick_by_mode sp v pm m)
free_kick_by_mode-Steady sp v Mode.free_kick_fault_left m =
    wait_free_kick_fault-Steady sp left Mode.free_kick_right m
free_kick_by_mode-Steady sp v Mode.free_kick_fault_right m =
    wait_free_kick_fault-Steady sp right Mode.free_kick_left m
free_kick_by_mode-Steady sp v Mode.back_pass_left m = Steady-refl m
free_kick_by_mode-Steady sp v Mode.back_pass_right m = Steady-refl m
free_kick_by_mode-Steady sp v Mode.catch_fault_left m = Steady-refl m
free_kick_by_mode-Steady sp v Mode.catch_fault_right m = Steady-refl m
free_kick_by_mode-Steady sp v Mode.goal_kick_left m =
    watch_goal_kick-Steady sp v Mode.goal_kick_left m
free_kick_by_mode-Steady sp v Mode.goal_kick_right m =
    watch_goal_kick-Steady sp v Mode.goal_kick_right m
free_kick_by_mode-Steady sp v pm m = watch_free_kick-Steady sp v pm m

pub free_kick_analyse-Steady :
    (sp : ServerParam) (v : View) (m : Match) → Steady m (free_kick_analyse sp v m)
unfolding free_kick_analyse
free_kick_analyse-Steady sp v m = ground (arith, free_kick_by_mode-Steady sp v m.playmode m)

over_goal_line-Steady : (sp : ServerParam) (s : Side) (m : Match) → Steady m (over_goal_line sp s m)
over_goal_line-Steady sp s m =
    ground (arith, award_corner_kick-Steady sp (opposite s) m, award_goal_kick-Steady sp s m)

over_side_line-Steady : (sp : ServerParam) (m : Match) → Steady m (over_side_line sp m)
over_side_line-Steady sp m = ground (
  arith,
  award_kick_in-Steady sp left m,
  award_kick_in-Steady sp right m,
  award_drop_ball-Steady sp m,
)

pub watch_lines-Steady : (sp : ServerParam) (v : View) (m : Match) → Steady m (watch_lines sp v m)
unfolding watch_lines
watch_lines-Steady sp v m = ground (
  arith,
  over_goal_line-Steady sp (if v.beyond_right then right else left) m,
  over_side_line-Steady sp m,
)

pub wait_goal-Steady :
    (sp : ServerParam) (s : Side) (pm : PlayMode) (m : Match) → Steady m (wait_goal sp s pm m)
unfolding wait_goal
wait_goal-Steady sp s pm m =
    let h = m.touch in
    let t = suc h.after_goal_time in
    let counted = record m { touch = record h { after_goal_time = t } } in
    ground (arith, place-Steady sp pm s centre counted)

pub keepaway_analyse-Steady :
    (sp : ServerParam) (v : View) (m : Match) → Steady m (keepaway_analyse sp v m)
unfolding keepaway_analyse reset_field
keepaway_analyse-Steady sp v m = ground (arith, change-Steady sp Mode.play_on m)

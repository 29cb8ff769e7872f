-- ===== src/Referees/FaultsSteady.antt =====
-- No referee of `Referees` (src/referee.cpp) sets the clock in its `analyse`.
use rcssserver.Base.{suc, refl, false, Option, none, some, arith, if◌then◌else◌}
use rcssserver.Mode
use rcssserver.Mode.{Side, left, neutral, right, PlayMode, opposite}
use rcssserver.Match.State.{ServerParam, Match, Player, emit, place_offside_players}
use rcssserver.Match.Frame.{counted-Steady, Steady, Steady-refl, Steady-trans}
use rcssserver.Referees.View.{View}
use rcssserver.Referees.Faults.{
  own_area, clear_after, wait_offside, offside_by_mode, offside_analyse, wait_illegal_defense,
  count_illegal, call_left_defense, call_right_defense, illegal_defense_by_mode,
  illegal_defense_analyse, wait_back_pass, wait_catch_fault, call_catch_fault, watch_catcher,
  catch_by_mode, catch_analyse, wait_foul, foul_analyse,
}
use rcssserver.Referees.Steady.{
  cleared_award-Steady, wait_fault-Steady, resume-Steady, clear-Steady,
}

offside_by_mode-Steady :
    (sp : ServerParam) (pm : PlayMode) (m : Match) → Steady m (offside_by_mode sp pm m)
offside_by_mode-Steady sp pm m = ground (
  arith,
  offside_wait-Steady sp left Mode.free_kick_right m,
  offside_wait-Steady sp right Mode.free_kick_left m,
)
  where
    offside_wait-Steady :
        (sp : ServerParam) (s : Side) (pm : PlayMode) (m : Match)
        → Steady m (wait_offside sp s pm m)
    offside_wait-Steady sp s pm m =
        let o = m.offside in
        let t = suc o.after_offside_time in
        let counted = record m { offside = record o { after_offside_time = t } } in
        let cleared = emit (place_offside_players s) (clear_after t s counted) in
        let p : Steady m cleared = ground (arith, clear-Steady t s counted) in
        Steady-trans p (resume-Steady sp t pm cleared)

pub offside_analyse-Steady : (sp : ServerParam) (m : Match) → Steady m (offside_analyse sp m)
unfolding offside_analyse
offside_analyse-Steady sp m = ground (arith, offside_by_mode-Steady sp m.playmode m)

wait_illegal_defense-Steady :
    (sp : ServerParam) (s : Side) (pm : PlayMode) (m : Match)
    → Steady m (wait_illegal_defense sp s pm m)
wait_illegal_defense-Steady sp s pm m =
    let d = m.illegal_defense in
    let t = suc d.after_illegal_defense_time in
    counted-Steady _ _ (record m { illegal_defense = record d { after_illegal_defense_time = t } })
      refl refl refl refl (wait_fault-Steady sp t s pm _)

count_illegal-Steady : (sp : ServerParam) (v : View) (m : Match) → Steady m (count_illegal sp v m)
count_illegal-Steady sp v m = ground arith

call_left_defense-Steady : (sp : ServerParam) (m : Match) → Steady m (call_left_defense sp m)
call_left_defense-Steady sp m =
    ground (arith, cleared_award-Steady sp Mode.illegal_defense_left right m)

call_right_defense-Steady : (sp : ServerParam) (m : Match) → Steady m (call_right_defense sp m)
call_right_defense-Steady sp m =
    ground (arith, cleared_award-Steady sp Mode.illegal_defense_right left m)

watch_defense-Steady :
    (sp : ServerParam) (v : View) (m : Match)
    → Steady m (call_right_defense sp (call_left_defense sp (count_illegal sp v m)))
watch_defense-Steady sp v m = Steady-trans (count_illegal-Steady sp v m) (
    Steady-trans (call_left_defense-Steady sp (count_illegal sp v m))
      (call_right_defense-Steady sp (call_left_defense sp (count_illegal sp v m))))

illegal_defense_by_mode-Steady :
    (sp : ServerParam) (v : View) (pm : PlayMode) (m : Match)
    → Steady m (illegal_defense_by_mode sp v pm m)
illegal_defense_by_mode-Steady sp v Mode.illegal_defense_left m =
    wait_illegal_defense-Steady sp left Mode.free_kick_right m
illegal_defense_by_mode-Steady sp v Mode.illegal_defense_right m =
    wait_illegal_defense-Steady sp right Mode.free_kick_left m
illegal_defense_by_mode-Steady sp v Mode.play_on m = watch_defense-Steady sp v m
illegal_defense_by_mode-Steady sp v _ m = Steady-refl m

pub illegal_defense_analyse-Steady :
    (sp : ServerParam) (v : View) (m : Match) → Steady m (illegal_defense_analyse sp v m)
unfolding illegal_defense_analyse
illegal_defense_analyse-Steady sp v m =
    ground (arith, illegal_defense_by_mode-Steady sp v m.playmode m)

call_catch_fault-Steady :
    (sp : ServerParam) (s : Side) (m : Match) → Steady m (call_catch_fault sp s m)
unfolding call_catch_fault
call_catch_fault-Steady sp left m =
    ground (arith, cleared_award-Steady sp Mode.catch_fault_left right m)
call_catch_fault-Steady sp neutral m = ground arith
call_catch_fault-Steady sp right m =
    ground (arith, cleared_award-Steady sp Mode.catch_fault_right left m)

watch_catcher-Steady : (sp : ServerParam) (v : View) (m : Match) → Steady m (watch_catcher sp v m)
watch_catcher-Steady sp v m = by_catcher m.ball_catcher
  where
    by_catcher :
        (o : Option Player)
        → Steady m (elim o [
          | none ↦ m
          | some p ↦ if own_area v p.side then m else call_catch_fault sp p.side m
        ])
    by_catcher none = Steady-refl m
    by_catcher (some p) = ground (arith, call_catch_fault-Steady sp p.side m)

wait_back_pass-Steady :
    (sp : ServerParam) (s : Side) (pm : PlayMode) (m : Match) → Steady m (wait_back_pass sp s pm m)
wait_back_pass-Steady sp s pm m =
    let c = m.catch in
    let t = suc c.after_back_pass_time in
    counted-Steady _ _ (record m { catch = record c { after_back_pass_time = t } }) refl refl refl
      refl (wait_fault-Steady sp t s pm _)

wait_catch_fault-Steady :
    (sp : ServerParam) (s : Side) (pm : PlayMode) (m : Match)
    → Steady m (wait_catch_fault sp s pm m)
wait_catch_fault-Steady sp s pm m =
    let c = m.catch in
    let t = suc c.after_catch_fault_time in
    counted-Steady _ _ (record m { catch = record c { after_catch_fault_time = t } }) refl refl refl
      refl (wait_fault-Steady sp t s pm _)

catch_by_mode-Steady :
    (sp : ServerParam) (v : View) (pm : PlayMode) (m : Match) → Steady m (catch_by_mode sp v pm m)
catch_by_mode-Steady sp v Mode.back_pass_left m =
    wait_back_pass-Steady sp left Mode.ind_free_kick_right m
catch_by_mode-Steady sp v Mode.back_pass_right m =
    wait_back_pass-Steady sp right Mode.ind_free_kick_left m
catch_by_mode-Steady sp v Mode.catch_fault_left m =
    wait_catch_fault-Steady sp left Mode.free_kick_right m
catch_by_mode-Steady sp v Mode.catch_fault_right m =
    wait_catch_fault-Steady sp right Mode.free_kick_left m
catch_by_mode-Steady sp v Mode.after_goal_left m = Steady-refl m
catch_by_mode-Steady sp v Mode.after_goal_right m = Steady-refl m
catch_by_mode-Steady sp v Mode.time_over m = Steady-refl m
catch_by_mode-Steady sp v _ m = watch_catcher-Steady sp v m

pub catch_analyse-Steady :
    (sp : ServerParam) (v : View) (m : Match) → Steady m (catch_analyse sp v m)
unfolding catch_analyse
catch_analyse-Steady sp v m =
    let c = m.catch in
    let n = record m { catch = record c { team_l_touched = false; team_r_touched = false } } in
    ground (arith, catch_by_mode-Steady sp v m.playmode n)

wait_foul-Steady :
    (sp : ServerParam) (s : Side) (pm : PlayMode) (m : Match) → Steady m (wait_foul sp s pm m)
wait_foul-Steady sp s pm m =
    let t = suc m.after_foul_time in
    counted-Steady _ _ (record m { after_foul_time = t }) refl refl refl refl
      (wait_fault-Steady sp t s pm _)

pub foul_analyse-Steady : (sp : ServerParam) (v : View) (m : Match) → Steady m (foul_analyse sp v m)
unfolding foul_analyse
foul_analyse-Steady sp v m = ground (
  arith,
  wait_foul-Steady sp left
      (if v.in_left_area then Mode.ind_free_kick_right else Mode.free_kick_right) m,
  wait_foul-Steady sp right
      (if v.in_right_area then Mode.ind_free_kick_left else Mode.free_kick_left) m,
)

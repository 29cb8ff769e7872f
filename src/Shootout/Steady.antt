-- ===== src/Shootout/Steady.antt =====
-- The shoot-out (class PenaltyRef of src/referee.cpp) does not set the clock or the score.
use rcssserver.Base.{
  zero, suc, ◌≤◌, ◌≡◌, ◌⊎◌, inl, inr, Bool, true, false, ◌&&◌, ◌||◌, ℤ, pos, negsuc, arith,
  Bool-cases, if◌then◌else◌, is_positive,
}
use rcssserver.Mode
use rcssserver.Mode.{
  Side, left, neutral, right, PlayMode, Phase, setup, ready, taken, miss, score, no_phase, phase,
  opposite, same_side,
}
use rcssserver.Match.State.{ServerParam, Match, emit, audio, penalty_foul_by}
use rcssserver.Match.Frame.{Steady, Steady-refl, Steady-trans, change-Steady}
use rcssserver.Shootout.Scoring.{
  penalty_check_score, penalty_score, penalty_miss, penalty_foul, penalty_init, finish_kicks,
  check_extra_kicks, check_normal_kicks, announce_winner, score_mode, miss_mode, booked_side,
  count_kick, stadium_penalty_score,
}
use rcssserver.Shootout.Events.{freeze_ball}
use rcssserver.Shootout.Tally.{penalty_init-Changed}
use rcssserver.Shootout.Analyse.{
  Sight, misplaced_foul, time_elapsed, handle_timeout, goal_scored, kick_missed, watch,
  handle_timer, by_timer, analyse_impl, start_penalty_shootout, analyse, maximum_time, shootout_due,
  draw_sides, coach_places, coach_in_setup, is_ready_or_taken, set_timer,
}

finish-Steady : (sp : ServerParam) (coin : Bool) (m : Match) → Steady m (finish_kicks sp coin m)
finish-Steady sp coin m = ground arith

extra-Steady : (m : Match) → Steady m (check_extra_kicks m)
extra-Steady m = ground arith

normal-Steady : (sp : ServerParam) (m : Match) → Steady m (check_normal_kicks sp m)
normal-Steady sp m = ground (arith, change-Steady sp Mode.time_over (announce_winner right m))

check-Steady :
    (sp : ServerParam) (coin : Bool) (m : Match) → Steady m (penalty_check_score sp coin m)
unfolding penalty_check_score
check-Steady sp coin m = ground (arith, finish-Steady sp coin m, extra-Steady m, normal-Steady sp m)

counted-Steady : (m : Match) → Steady m (count_kick m)
counted-Steady m = ground arith

booked-Steady : (s : Side) (scored : Bool) (m : Match) → Steady m (stadium_penalty_score s scored m)
booked-Steady left scored m = ground arith
booked-Steady neutral scored m = ground arith
booked-Steady right scored m = ground arith

abbrev foul_announced : Side → Match → Match
foul_announced s m = emit (audio (penalty_foul_by (if same_side s left then left else right))) m

score-Steady :
    (sp : ServerParam) (coin : Bool) (s : Side) (m : Match) → Steady m (penalty_score sp coin s m)
unfolding penalty_score
score-Steady sp coin s m = Steady-trans (change-Steady sp (score_mode s) m) (
    Steady-trans (booked-Steady (booked_side s) true _)
      (Steady-trans (counted-Steady _) (check-Steady sp coin _)))

miss-Steady :
    (sp : ServerParam) (coin : Bool) (s : Side) (m : Match) → Steady m (penalty_miss sp coin s m)
unfolding penalty_miss
miss-Steady sp coin s m = Steady-trans (change-Steady sp (miss_mode s) m) (
    Steady-trans (counted-Steady _)
      (Steady-trans (booked-Steady (booked_side s) false _) (check-Steady sp coin _)))

foul-Steady :
    (sp : ServerParam) (coin : Bool) (s : Side) (m : Match) → Steady m (penalty_foul sp coin s m)
unfolding penalty_foul
foul-Steady sp coin s m =
    let m' = foul_announced s m in
    ground (
      arith,
      miss-Steady sp coin left m',
      miss-Steady sp coin right m',
      score-Steady sp coin left m',
      score-Steady sp coin right m',
    )

init-Steady : (sp : ServerParam) (m : Match) → Steady m (penalty_init sp m)
init-Steady sp m = ground (arith, penalty_init-Changed sp m)

misplaced-Steady :
    (sp : ServerParam) (coin l r : Bool) (m : Match) → Steady m (misplaced_foul sp coin l r m)
unfolding misplaced_foul
misplaced-Steady sp coin l r m = by_taker m.penalty.cur_pen_taker
  where
    by_taker :
        (t : Side)
        → Steady m (elim t [
          | left ↦ penalty_foul sp coin (if l then right else left) m
          | neutral ↦ m
          | right ↦ penalty_foul sp coin (if r then left else right) m
        ])
    by_taker left = foul-Steady sp coin (if l then right else left) m
    by_taker neutral = Steady-refl m
    by_taker right = foul-Steady sp coin (if r then left else right) m

elapsed-Steady : (sp : ServerParam) (coin : Bool) (m : Match) → Steady m (time_elapsed sp coin m)
unfolding time_elapsed
elapsed-Steady sp coin m = ground (
  arith,
  change-Steady sp Mode.penalty_ready_left m,
  change-Steady sp Mode.penalty_ready_right m,
  miss-Steady sp coin left m,
  miss-Steady sp coin right m,
)

places-Steady : (c l r : Bool) (m : Match) → Steady m (coach_places c l r m)
places-Steady c l r m = ground arith

timeout-Steady :
    (sp : ServerParam) (coin l r : Bool) (m : Match) → Steady m (handle_timeout sp coin l r m)
unfolding handle_timeout
timeout-Steady sp coin l r m =
    let placed = coach_places (coach_in_setup sp m) l r m in
    Steady-trans (places-Steady (coach_in_setup sp m) l r m) (
      by_phase (phase m.playmode) (coach_in_setup sp m || (l && r)) (init-Steady sp placed)
        (elapsed-Steady sp coin placed) (misplaced-Steady sp coin l r placed))
  where
    by_phase :
        (ph : Phase) (b : Bool) {n x y z : Match}
        → Steady n x
        → Steady n y
        → Steady n z
        → Steady n (elim ph [ miss ↦ x | score ↦ x | _ ↦ if b then y else z ])
    by_phase ph b p q r = ground arith

goal-Steady : (sp : ServerParam) (coin : Bool) (m : Match) → Steady m (goal_scored sp coin m)
unfolding goal_scored
goal-Steady sp coin m = ground (arith, score-Steady sp coin left m, score-Steady sp coin right m)

missed-Steady : (sp : ServerParam) (coin : Bool) (m : Match) → Steady m (kick_missed sp coin m)
unfolding kick_missed
missed-Steady sp coin m =
    let frozen = freeze_ball m.penalty.pen_side m in
    ground (arith, miss-Steady sp coin left frozen, miss-Steady sp coin right frozen)

watch-Steady : (sp : ServerParam) (s : Sight) (l r : Bool) (m : Match) → Steady m (watch sp s l r m)
unfolding watch
watch-Steady sp s l r m =
    ground
      (arith, goal-Steady sp s.coin m, missed-Steady sp s.coin m, misplaced-Steady sp s.coin l r m)

timer-Steady :
    (sp : ServerParam) (s : Sight) (l r : Bool) (t : ℤ) (m : Match)
    → Steady m (by_timer sp s l r t m)
unfolding by_timer handle_timer
timer-Steady sp s l r (negsuc n) m = Steady-refl m
timer-Steady sp s l r (pos zero) m = timeout-Steady sp s.coin l r m
timer-Steady sp s l r (pos (suc t)) m = ground (arith, watch-Steady sp s l r (set_timer (pos t) m))

impl-Steady : (sp : ServerParam) (s : Sight) (m : Match) → Steady m (analyse_impl sp s m)
unfolding analyse_impl
impl-Steady sp s m =
    let coach = sp.pen_coach_moves_players && is_ready_or_taken (phase m.playmode) in
    let placed = coach_places coach s.left_ok s.right_ok m in
    ground (
      arith,
      change-Steady sp Mode.time_over m,
      places-Steady coach s.left_ok s.right_ok m,
      timer-Steady sp s (coach || s.left_ok) (coach || s.right_ok) m.penalty.timer placed,
    )

start-Steady : (sp : ServerParam) (s : Sight) (m : Match) → Steady m (start_penalty_shootout sp s m)
unfolding start_penalty_shootout
start-Steady sp s m = ground (arith, init-Steady sp (draw_sides s m))

-- A cycle of the shoot-out's referee.
pub analyse-Steady : (sp : ServerParam) (s : Sight) (m : Match) → Steady m (analyse sp s m)
unfolding analyse
analyse-Steady sp s m =
    Steady-trans (start-Steady sp s m) (impl-Steady sp s (start_penalty_shootout sp s m))

-- A finished match stays so, unless its time is over.
pub analyse-time_over :
    (sp : ServerParam) (s : Sight) (m : Match)
    → is_positive sp.half_time ≡ true
    → m.playmode ≡ Mode.time_over
    → ((analyse sp s m).playmode ≡ Mode.time_over) ⊎ (maximum_time sp ≤ m.time)
unfolding analyse start_penalty_shootout analyse_impl
analyse-time_over sp s m p e = elim (Bool-cases (shootout_due sp m)) [
  | inl d ↦ inr (ground arith)
  | inr d ↦ inl (ground arith)
]

-- ===== src/Scenarios/Shootouts.antt =====
-- Shoot-outs that run, and the theorems on shoot-outs at them.
use rcssserver.Base.{◌≡◌, ◌≢◌, ◌↔◌, refl, true, false, List, [], ◌∷◌, arith}
use rcssserver.Mode
use rcssserver.Mode.{left, right}
use rcssserver.Match.State.{Match}
use rcssserver.Match.ModeChange.{
  change_play_mode, penalty_change, keepaway_change, foul_change, catch_change, touch_change,
  free_kick_change, illegal_defense_change, offside_change, place_ball_mode,
}
use rcssserver.Shootout.Scoring.{
  penalty_check_score, penalty_score, penalty_miss, penalty_foul, penalty_init,
}
use rcssserver.Shootout.Events.{
  note_kicker, catch_of_kick, ball_caught, judge_open_kick, judge_kick, start_kick, kick_taken,
  tackle_taken,
}
use rcssserver.Shootout.Analyse.{
  misplaced_foul, time_elapsed, handle_timeout, goal_scored, kick_missed, watch, handle_timer,
  by_timer, analyse_impl, start_penalty_shootout, analyse,
}
use rcssserver.Shootout.Tally.{Inv}
use rcssserver.Shootout.Run.{Event, cycle, kicked, step, run, run-Inv, limit_ends}
use rcssserver.Shootout.Verdict.{SureLoss, normal_verdict, extra_verdict}
use rcssserver.Scenarios.Matches.{params, no_kicks, playing, full_time, striker, calm}

-- `run`, with all that a shoot-out computes with.
abbrev play : List Event → Match
unfolding change_play_mode penalty_change keepaway_change foul_change catch_change touch_change
    free_kick_change illegal_defense_change offside_change place_ball_mode penalty_check_score
    penalty_score penalty_miss penalty_foul penalty_init note_kicker catch_of_kick ball_caught
    judge_open_kick judge_kick start_kick kick_taken tackle_taken misplaced_foul time_elapsed
    handle_timeout goal_scored kick_missed watch handle_timer by_timer analyse_impl
    start_penalty_shootout analyse step run
play es = run no_kicks es full_time

-- The shoot-out starts with the right team's kick, since the left team is drawn.
starts : (play (cycle calm ∷ [])).playmode ≡ Mode.penalty_setup_right
unfolding play
starts = refl

-- A kick before the referee is ready is a foul, and is booked as a miss.
early_kick :
    (play (cycle calm ∷ kicked true (striker right 9) ∷ [])).playmode ≡ Mode.penalty_miss_right
unfolding play
early_kick = refl

full_time-Inv : Inv no_kicks full_time
full_time-Inv = ground arith

run-Inv_example :
    Inv no_kicks (run no_kicks (cycle calm ∷ kicked true (striker right 9) ∷ []) full_time)
run-Inv_example =
    run-Inv no_kicks (cycle calm ∷ kicked true (striker right 9) ∷ []) full_time
      (tt, ((λ e. cc), tt)) full_time-Inv

limit_ends_example :
    (analyse no_kicks calm
      (run no_kicks (cycle calm ∷ kicked true (striker right 9) ∷ []) full_time)).playmode
    ≡ Mode.time_over
unfolding play
limit_ends_example =
    limit_ends no_kicks calm (cycle calm ∷ kicked true (striker right 9) ∷ []) full_time
      (tt, ((λ e. cc), tt)) full_time-Inv refl (omega arith)

-- Three kicks each: the left team has scored none, the right team three.
lost_by_left : Match
lost_by_left = record full_time {
  playmode = Mode.penalty_score_right;
  team_left = record playing { pen_taken = 3 };
  team_right = record playing { pen_point = 3; pen_taken = 3 };
  penalty = record fresh { first_time = false; cur_pen_taker = right; pen_nr_taken = 6 };
}
  where
    open full_time use {penalty as fresh}

normal_verdict_example :
    let n = penalty_check_score params true lost_by_left in
    ((n.playmode ≡ Mode.time_over) ↔ SureLoss params lost_by_left.team_left lost_by_left.team_right)
    × ((n.penalty.timeover ≡ true) ↔ SureLoss params lost_by_left.team_right lost_by_left.team_left)
unfolding lost_by_left
normal_verdict_example =
    normal_verdict params true right lost_by_left (ground arith) (omega arith) refl

-- Twelve kicks: the right team leads after its sixth.
extra_lead : Match
extra_lead = record full_time {
  playmode = Mode.penalty_score_right;
  team_left = record playing { pen_point = 4; pen_taken = 6 };
  team_right = record playing { pen_point = 5; pen_taken = 6 };
  penalty = record fresh { first_time = false; cur_pen_taker = right; pen_nr_taken = 12 };
}
  where
    open full_time use {penalty as fresh}

extra_verdict_example :
    let n = penalty_check_score params true extra_lead in
    (n.playmode ≡ extra_lead.playmode)
    × ((n.penalty.timeover ≡ true) ↔ (
        (extra_lead.team_left.pen_taken ≡ extra_lead.team_right.pen_taken)
        × (extra_lead.team_left.pen_point ≢ extra_lead.team_right.pen_point)))
unfolding extra_lead
extra_verdict_example =
    extra_verdict params true right extra_lead (ground arith) (omega arith) (omega arith) refl

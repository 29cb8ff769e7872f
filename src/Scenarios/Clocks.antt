-- ===== src/Scenarios/Clocks.antt =====
-- The clock at work, and the theorems on it at concrete matches.
use rcssserver.Base.{suc, ◌≡◌, refl, inr, [], ◌∷◌, arith}
use rcssserver.Mode
use rcssserver.Mode.{left, right, setup, phase, opposite}
use rcssserver.Match.State.{Match, new_match, half_time_over, time_extended}
use rcssserver.Match.ModeChange.{
  change_play_mode, penalty_change, keepaway_change, foul_change, catch_change, touch_change,
  free_kick_change, illegal_defense_change, offside_change,
}
use rcssserver.Clock.Halves.{call_half_time, half_side, next_half, analyse, kick_off}
use rcssserver.Clock.Step.{running, flow, others_analyse, step}
use rcssserver.Referees.Faults.{
  offside_analyse, illegal_defense_analyse, catch_analyse, foul_analyse,
}
use rcssserver.Referees.Kicks.{watch_free_kick, free_kick_analyse}
use rcssserver.Referees.Ball.{ball_stuck_analyse, watch_lines, touch_analyse}
use rcssserver.Referees.Training.{keepaway_analyse}
use rcssserver.Shootout.Analyse
use rcssserver.Shootout.Analyse.{analyse_impl}
use rcssserver.Clock.Bounds.{InHalf}
use rcssserver.Clock.Cycles.{cycles, cycles-InHalf}
use rcssserver.Clock.KickOff.{kick_off_mode, kick_off-next_half}
use rcssserver.Shootout.Analyse.{start_penalty_shootout}
use rcssserver.Scenarios.Matches.{params, odd_halves, playing, calm, rolling}

-- One cycle before half time.
abbrev ninth : Match
ninth = record new_match {
  playmode = Mode.play_on;
  time = 9;
  team_left = playing;
  team_right = playing;
}

half_time_comes :
    let n = step params rolling calm ninth in
    (n.playmode ≡ Mode.before_kick_off) × (n.time ≡ 10) × (n.half_time_count ≡ 1)
unfolding step others_analyse ball_stuck_analyse offside_analyse free_kick_analyse watch_free_kick
    watch_lines touch_analyse catch_analyse foul_analyse illegal_defense_analyse keepaway_analyse
    Analyse.analyse analyse_impl start_penalty_shootout analyse call_half_time change_play_mode
    penalty_change keepaway_change foul_change catch_change touch_change free_kick_change
    illegal_defense_change offside_change
half_time_comes = (refl, refl, refl)

abbrev eighth : Match
eighth = record ninth { time = 7 }

still_running : flow (cycles params ((rolling, calm) ∷ []) eighth).playmode ≡ running
unfolding cycles step others_analyse ball_stuck_analyse offside_analyse free_kick_analyse
    watch_free_kick watch_lines touch_analyse catch_analyse foul_analyse illegal_defense_analyse
    keepaway_analyse Analyse.analyse analyse_impl start_penalty_shootout analyse call_half_time
still_running = refl

cycles-InHalf_example :
    InHalf params (step params rolling calm (cycles params ((rolling, calm) ∷ []) eighth))
cycles-InHalf_example =
    cycles-InHalf params ((rolling, calm) ∷ []) rolling calm eighth refl refl
      (inr (inr (omega arith))) still_running

kick_off_second_half :
    (kick_off params (next_half params half_time_over ninth)).playmode ≡ Mode.kick_off_right
kick_off_second_half = kick_off-next_half params half_time_over ninth refl refl (omega arith)

-- The end of the fourth half, the first of extra time, with three regular halves: `TimeRef` gives the
-- kick-off to the left side.
abbrev fourth : Match
fourth = record ninth { time = 40; half_time_count = 3 }

kick_off-next_half_example :
    (kick_off odd_halves (next_half odd_halves time_extended fourth)).playmode
    ≡ kick_off_mode (opposite (half_side (suc fourth.half_time_count)))
kick_off-next_half_example =
    kick_off-next_half odd_halves time_extended fourth refl refl (omega arith)

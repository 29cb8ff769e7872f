-- ===== src/Scenarios/Timers.antt =====
-- The synchronous timer at the default parameters (src/synctimer.cpp, src/serverparam.cpp).
use rcssserver.Base.{◌≡◌, refl, ◌⊎◌, ◌+◌, [], ◌∷◌, arith}
use rcssserver.Timer.Ticks.{
  TimerParam, new_simulator_step, send_sense_body, send_synch_visuals, send_think, send_visuals,
  send_coach_messages, new_timer, ticks,
}
use rcssserver.Timer.Alternate.{steps_of, thinks_of, Fitting}
use rcssserver.Timer.Rate.{ticks-calls}

abbrev defaults : TimerParam
defaults = record {
  time_delta = 10;
  sim_step = 100;
  sense_body_step = 100;
  send_step = 150;
  coach_visual_step = 100;
  synch_offset = 60;
  synch_see_offset = 0;
  lcm_step = 300;
}

-- What is called in the first hundred milliseconds, the latest first.
first_step :
    (ticks defaults 10 new_timer).calls
    ≡ send_coach_messages ∷ send_synch_visuals ∷ send_sense_body ∷ new_simulator_step ∷ send_visuals
      ∷ send_think ∷ send_visuals ∷ send_synch_visuals ∷ []
unfolding ticks
first_step = refl

fitting : Fitting defaults 3
fitting = record {
  rounds = refl;
  some_round = omega arith;
  turns = omega arith;
  late = omega arith;
  early = omega arith;
}

ticks-calls_example :
    let made = (ticks defaults 47 new_timer).calls in
    (steps_of made ≡ 4) × ((thinks_of made ≡ steps_of made) ⊎ (thinks_of made ≡ 1 + steps_of made))
ticks-calls_example = ticks-calls defaults 3 47 fitting refl

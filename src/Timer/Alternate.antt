-- ===== src/Timer/Alternate.antt =====
-- How the calls of the synchronous timer follow each other (src/synctimer.cpp).
use rcssserver.Base.{
  ◌≡◌, refl, ap, subst, ◌∙◌, ℕ, suc, zero, ◌+◌, ◌-◌, ◌*◌, ◌/◌, ◌≤◌, ◌<◌, ◌⊎◌, inr, false, leb, List,
  [], ◌∷◌, if_elim, div-mul, mul_mono, mul-sub, arith,
}
use rcssserver.Timer.Ticks.{
  TimerParam, TimerCall, new_simulator_step, send_think, SyncTimer, new_timer, simulate,
  sense_bodies, show_visuals, show_synch_visuals, tell_coaches, think, restart, advance, inform,
  synch_tick, ticks, next_count,
}

abbrev pub steps_of : List TimerCall → ℕ
steps_of [] = 0
steps_of (new_simulator_step ∷ cs) = 1 + steps_of cs
steps_of (c ∷ cs) = steps_of cs

abbrev pub thinks_of : List TimerCall → ℕ
thinks_of [] = 0
thinks_of (send_think ∷ cs) = 1 + thinks_of cs
thinks_of (c ∷ cs) = thinks_of cs

-- The steps that fit together: each is a whole number of turns or more, and the offset lies in a step.
pub record Fitting (tp : TimerParam) (q : ℕ) : Type 0 where
  pub rounds : tp.lcm_step ≡ tp.sim_step * q
  pub some_round : 1 ≤ q
  pub turns : 1 ≤ tp.time_delta
  pub late : tp.time_delta ≤ tp.synch_offset
  pub early : tp.synch_offset ≤ tp.sim_step

-- Where the counters are between two turns.
pub record Paced (tp : TimerParam) (q : ℕ) (t : SyncTimer) : Type 0 where
  pub counted : 1 ≤ t.c_simt
  pub in_round : t.c_simt ≤ q
  pub after : tp.sim_step * (t.c_simt - 1) ≤ t.lcmt
  pub before : t.lcmt < tp.sim_step * t.c_simt
  pub thought :
      ((t.c_synch ≡ t.c_simt + 1) × (tp.sim_step * (t.c_simt - 1) + tp.synch_offset ≤ t.lcmt))
      ⊎ ((t.c_synch ≡ t.c_simt) × (t.lcmt < tp.sim_step * (t.c_simt - 1) + tp.synch_offset))
  pub balance : thinks_of t.calls + t.c_simt ≡ steps_of t.calls + t.c_synch

-- What `inform` leaves alone.
pub record Informed (t u : SyncTimer) : Type 0 where
  pub lcmt : u.lcmt ≡ t.lcmt
  pub c_simt : u.c_simt ≡ t.c_simt
  pub c_synch : u.c_synch ≡ t.c_synch
  pub steps : steps_of u.calls ≡ steps_of t.calls
  pub thinks : thinks_of u.calls ≡ thinks_of t.calls

Informed-trans : (t u v : SyncTimer) → Informed t u → Informed u v → Informed t v
Informed-trans t u v h i = record {
  lcmt = i.lcmt ∙ h.lcmt;
  c_simt = i.c_simt ∙ h.c_simt;
  c_synch = i.c_synch ∙ h.c_synch;
  steps = i.steps ∙ h.steps;
  thinks = i.thinks ∙ h.thinks;
}

pub inform-Informed : (tp : TimerParam) (t : SyncTimer) → Informed t (inform tp t)
unfolding inform sense_bodies show_visuals show_synch_visuals tell_coaches
inform-Informed tp t =
    let a = sense_bodies tp t in
    let b = show_visuals tp a in
    let c = show_synch_visuals tp b in
    Informed-trans t a _ (ground arith)
      (Informed-trans a b _ (ground arith) (Informed-trans b c _ (ground arith) (ground arith)))

mul_pred : (s c : ℕ) → 1 ≤ c → s * c ≡ s * (c - 1) + s
mul_pred s c h = omega (arith, mul-sub s c 1 h)

mul_suc : (s c : ℕ) → s * (c + 1) ≡ s * c + s
mul_suc s c = grind arith

pub rounds_of : (tp : TimerParam) (q : ℕ) → Fitting tp q → tp.lcm_step / tp.sim_step ≡ q
rounds_of tp q f =
    ap (λ l. l / tp.sim_step) f.rounds
    ∙ div-mul tp.sim_step q (omega (arith, f.turns, f.late, f.early))

-- The products that the tests compare, as sums.
pub record Products (tp : TimerParam) (q c : ℕ) : Type 0 where
  pub here : tp.sim_step * c ≡ tp.sim_step * (c - 1) + tp.sim_step
  pub next : tp.sim_step * (c + 1) ≡ tp.sim_step * c + tp.sim_step
  pub in_round : tp.sim_step * c ≤ tp.lcm_step
  pub next_in_round : (c < q) → tp.sim_step * (c + 1) ≤ tp.lcm_step

pub products : (tp : TimerParam) (q c : ℕ) → Fitting tp q → 1 ≤ c → c ≤ q → Products tp q c
products tp q c f p l = record {
  here = mul_pred tp.sim_step c p;
  next = mul_suc tp.sim_step c;
  in_round = omega (arith, f.rounds, mul_mono tp.sim_step c q l);
  next_in_round = λ b. omega (arith, f.rounds, mul_mono tp.sim_step (c + 1) q (omega (arith, b)));
}

-- A turn in which the simulator does not step.
waiting-Paced :
    (tp : TimerParam) (q : ℕ) (t u : SyncTimer)
    → Fitting tp q
    → Paced tp q t
    → Informed (advance tp t) u
    → t.lcmt + tp.time_delta < tp.sim_step * t.c_simt
    → Paced tp q (restart tp (think tp u))
unfolding restart think
waiting-Paced tp q t u f h i w =
    ground (arith, f, h, i, w, products tp q t.c_simt f h.counted h.in_round)

-- The step of the simulator, with the number of its steps in a round.
abbrev pub stepped : TimerParam → ℕ → SyncTimer → SyncTimer
stepped tp q t = record (advance tp t) {
  c_simt = next_count q t.c_simt;
  sent_synch_see = false;
  calls = new_simulator_step ∷ t.calls;
}

-- A turn in which it steps.
stepping-Paced :
    (tp : TimerParam) (q : ℕ) (t u : SyncTimer)
    → Fitting tp q
    → Paced tp q t
    → Informed (stepped tp q t) u
    → tp.sim_step * t.c_simt ≤ t.lcmt + tp.time_delta
    → Paced tp q (restart tp (think tp u))
unfolding restart think
stepping-Paced tp q t u f h i w =
    ground (arith, f, h, i, w, products tp q t.c_simt f h.counted h.in_round)

pub synch_tick-Paced :
    (tp : TimerParam) (q : ℕ) (t : SyncTimer)
    → Fitting tp q
    → Paced tp q t
    → Paced tp q (synch_tick tp t)
unfolding synch_tick simulate
synch_tick-Paced tp q t f h =
    if_elim (λ (x : SyncTimer). Paced tp q (restart tp (think tp (inform tp x))))
      (leb (tp.sim_step * t.c_simt) (t.lcmt + tp.time_delta))
      (λ e.
        let made = inform tp (stepped tp (tp.lcm_step / tp.sim_step) t) in
        stepping-Paced tp q t made f h
          (subst (λ r. Informed (stepped tp r t) made) (rounds_of tp q f)
            (inform-Informed tp (stepped tp (tp.lcm_step / tp.sim_step) t)))
          (ground (arith, e)))
      (λ e. waiting-Paced tp q t _ f h (inform-Informed tp (advance tp t)) (ground (arith, e)))

ticks-Paced :
    (tp : TimerParam) (q n : ℕ) (t : SyncTimer)
    → Fitting tp q
    → Paced tp q t
    → Paced tp q (ticks tp n t)
unfolding ticks
ticks-Paced tp q zero t f h = h
ticks-Paced tp q (suc n) t f h =
    ticks-Paced tp q n (synch_tick tp t) f (synch_tick-Paced tp q t f h)

pub start-Paced : (tp : TimerParam) (q : ℕ) → Fitting tp q → Paced tp q new_timer
start-Paced tp q f = record {
  counted = omega arith;
  in_round = omega (arith, f.some_round);
  after = omega arith;
  before = omega (arith, f.turns, f.late, f.early);
  thought = inr (refl, omega (arith, f.turns, f.late));
  balance = refl;
}

-- When the simulator's step fits a whole number of times into `lcm_step`, and `synch_offset` is no shorter
-- than a turn of the loop and no longer than the step, the steps of the simulator and the commands to
-- think alternate: after any number of turns there have been as many of the one as of the other, or
-- one command to think more.
pub ticks-alternate :
    (tp : TimerParam) (q n : ℕ)
    → Fitting tp q
    → (let made = (ticks tp n new_timer).calls in
        (thinks_of made ≡ steps_of made) ⊎ (thinks_of made ≡ 1 + steps_of made))
ticks-alternate tp q n f =
    let h = ticks-Paced tp q n new_timer f (start-Paced tp q f) in ground (arith, h)

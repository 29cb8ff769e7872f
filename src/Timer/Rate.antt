-- ===== src/Timer/Rate.antt =====
-- How often the synchronous timer lets the simulator step (src/synctimer.cpp).
use rcssserver.Base.{
  ◌≡◌, subst, ℕ, suc, zero, ◌+◌, ◌-◌, ◌*◌, ◌/◌, ◌%◌, ◌≤◌, ◌<◌, ◌⊎◌, leb, if_elim, arith,
}
use rcssserver.Timer.Ticks.{
  TimerParam, SyncTimer, new_timer, simulate, think, restart, advance, inform, synch_tick, ticks,
}
use rcssserver.Timer.Alternate.{
  steps_of, thinks_of, ticks-alternate, Fitting, Paced, Informed, stepped, products,
  inform-Informed, synch_tick-Paced, start-Paced, rounds_of,
}

mod-add_self : (a d : ℕ) → 1 ≤ d → a % d ≡ 0 → (a + d) % d ≡ 0
mod-add_self a d p h = grind arith

-- Between multiples of a number lies at least that number.
gap : (a b d : ℕ) → 1 ≤ d → a % d ≡ 0 → b % d ≡ 0 → a < b → a + d ≤ b
gap a b d p h i l = grind arith

-- After `n` turns the time in the round and the steps that have been made account for all of the time.
record Exact (tp : TimerParam) (n : ℕ) (t : SyncTimer) : Type 0 where
  pub whole : t.lcmt % tp.time_delta ≡ 0
  pub account :
      steps_of t.calls * tp.sim_step + t.lcmt ≡ n * tp.time_delta + tp.sim_step * (t.c_simt - 1)

once_more : (k d : ℕ) → (k + 1) * d ≡ k * d + d
once_more k d = grind arith

waiting-Exact :
    (tp : TimerParam) (q n : ℕ) (t u : SyncTimer)
    → Fitting tp q
    → Paced tp q t
    → Exact tp n t
    → Informed (advance tp t) u
    → t.lcmt + tp.time_delta < tp.sim_step * t.c_simt
    → Exact tp (n + 1) (restart tp (think tp u))
unfolding restart think
waiting-Exact tp q n t u f h x i w = ground (
  arith,
  f,
  h,
  x,
  i,
  w,
  products tp q t.c_simt f h.counted h.in_round,
  once_more n tp.time_delta,
  mod-add_self t.lcmt tp.time_delta f.turns x.whole,
)

stepping-Exact :
    (tp : TimerParam) (q n : ℕ) (t u : SyncTimer)
    → Fitting tp q
    → tp.lcm_step % tp.time_delta ≡ 0
    → Paced tp q t
    → Exact tp n t
    → Informed (stepped tp q t) u
    → tp.sim_step * t.c_simt ≤ t.lcmt + tp.time_delta
    → Exact tp (n + 1) (restart tp (think tp u))
unfolding restart think
stepping-Exact tp q n t u f l h x i w = ground (
  arith,
  f,
  h,
  x,
  i,
  w,
  products tp q t.c_simt f h.counted h.in_round,
  once_more n tp.time_delta,
  once_more (steps_of t.calls) tp.sim_step,
  mod-add_self t.lcmt tp.time_delta f.turns x.whole,
  gap t.lcmt tp.lcm_step tp.time_delta f.turns x.whole l,
)

synch_tick-Exact :
    (tp : TimerParam) (q n : ℕ) (t : SyncTimer)
    → Fitting tp q
    → tp.lcm_step % tp.time_delta ≡ 0
    → Paced tp q t
    → Exact tp n t
    → Exact tp (n + 1) (synch_tick tp t)
unfolding synch_tick simulate
synch_tick-Exact tp q n t f l h x =
    if_elim (λ (y : SyncTimer). Exact tp (n + 1) (restart tp (think tp (inform tp y))))
      (leb (tp.sim_step * t.c_simt) (t.lcmt + tp.time_delta))
      (λ e.
        let made = inform tp (stepped tp (tp.lcm_step / tp.sim_step) t) in
        stepping-Exact tp q n t made f l h x
          (subst (λ r. Informed (stepped tp r t) made) (rounds_of tp q f)
            (inform-Informed tp (stepped tp (tp.lcm_step / tp.sim_step) t)))
          (ground (arith, e)))
      (λ e. waiting-Exact tp q n t _ f h x (inform-Informed tp (advance tp t)) (ground (arith, e)))

ticks-Exact :
    (tp : TimerParam) (q k n : ℕ) (t : SyncTimer)
    → Fitting tp q
    → tp.lcm_step % tp.time_delta ≡ 0
    → Paced tp q t
    → Exact tp k t
    → (Paced tp q (ticks tp n t)) × (Exact tp (k + n) (ticks tp n t))
unfolding ticks
ticks-Exact tp q k zero t f l h x = (h, subst (λ j. Exact tp j t) (omega arith) x)
ticks-Exact tp q k (suc n) t f l h x =
    let rest =
      ticks-Exact tp q (k + 1) n (synch_tick tp t) f l (synch_tick-Paced tp q t f h)
        (synch_tick-Exact tp q k t f l h x) in
    (rest.0, subst (λ j. Exact tp j (ticks tp n (synch_tick tp t))) (omega arith) rest.1)

mod-zero_self : (d : ℕ) → 0 % d ≡ 0
mod-zero_self d = grind arith

start_account : (tp : TimerParam) → 0 * tp.sim_step + 0 ≡ 0 * tp.time_delta + tp.sim_step * (1 - 1)
start_account tp = omega arith

quotient : (a s k : ℕ) → 1 ≤ s → k * s ≤ a → a < (k + 1) * s → k ≡ a / s
quotient a s k p l u = grind arith

-- When the step of the simulator fits a whole number of times into `lcm_step`, and a turn of the loop too, and
-- `synch_offset` is no shorter than a turn and no longer than a step: after any number of turns the simulator
-- has made as many steps as fit into the time that has passed, and there have been as many commands to
-- think, or one more.
pub ticks-calls :
    (tp : TimerParam) (q n : ℕ)
    → Fitting tp q
    → tp.lcm_step % tp.time_delta ≡ 0
    → (let made = (ticks tp n new_timer).calls in
        (steps_of made ≡ (n * tp.time_delta) / tp.sim_step)
        × ((thinks_of made ≡ steps_of made) ⊎ (thinks_of made ≡ 1 + steps_of made)))
ticks-calls tp q n f l =
    let t = ticks tp n new_timer in
    let start : Exact tp 0 new_timer = record {
      whole = mod-zero_self tp.time_delta;
      account = start_account tp;
    } in
    let ends = ticks-Exact tp q 0 n new_timer f l (start-Paced tp q f) start in
    let steps = steps_of t.calls in
    let p = products tp q t.c_simt f ends.0.counted ends.0.in_round in
    (
      quotient (n * tp.time_delta) tp.sim_step steps (omega (arith, f.turns, f.late, f.early))
          (omega (arith, ends.1.account, ends.0.after))
          (omega (arith, ends.1.account, ends.0.before, p.here, once_more steps tp.sim_step)),
      ticks-alternate tp q n f,
    )

-- ===== src/Timer/Ticks.antt =====
-- `SyncTimer::run` (src/synctimer.cpp): what each turn of its loop calls.
use rcssserver.Base.{
  ℕ, ◌+◌, ◌-◌, ◌*◌, ◌/◌, suc, zero, Bool, true, false, not, ◌&&◌, leb, List, [], ◌∷◌, if◌then◌else◌,
}

-- `TIMEDELTA` and the parameters of src/serverparam.h, all in milliseconds.
pub record TimerParam : Type 0 where
  pub time_delta : ℕ
  pub sim_step : ℕ
  pub sense_body_step : ℕ
  pub send_step : ℕ
  pub coach_visual_step : ℕ
  pub synch_offset : ℕ
  pub synch_see_offset : ℕ
  pub lcm_step : ℕ

-- The calls of `Timeable`.
pub data TimerCall : Type 0 where
  new_simulator_step send_sense_body send_visuals send_synch_visuals : TimerCall
  send_coach_messages send_think : TimerCall

-- The variables of `run`. `lcmt` is a `double` that counts whole milliseconds.
pub record SyncTimer : Type 0 where
  pub lcmt : ℕ
  pub c_simt : ℕ
  pub c_sent : ℕ
  pub c_sbt : ℕ
  pub c_svt : ℕ
  pub c_synch : ℕ
  pub c_synch_see : ℕ
  pub sent_synch_see : Bool
  -- the calls so far, the latest first
  pub calls : List TimerCall

abbrev pub new_timer : SyncTimer
new_timer = record {
  lcmt = 0;
  c_simt = 1;
  c_sent = 1;
  c_sbt = 1;
  c_svt = 1;
  c_synch = 1;
  c_synch_see = 1;
  sent_synch_see = false;
  calls = [];
}

abbrev call : TimerCall → SyncTimer → SyncTimer
call c t = record t { calls = c ∷ t.calls }

-- `if ( q <= c ) c = 1; else c++;`
abbrev pub next_count : ℕ → ℕ → ℕ
next_count q c = if leb q c then 1 else c + 1

unfoldable pub simulate : TimerParam → SyncTimer → SyncTimer
simulate tp t =
    if leb (tp.sim_step * t.c_simt) t.lcmt
    then record (call new_simulator_step t) {
      c_simt = next_count (tp.lcm_step / tp.sim_step) t.c_simt;
      sent_synch_see = false;
    }
    else t

unfoldable pub sense_bodies : TimerParam → SyncTimer → SyncTimer
sense_bodies tp t =
    if leb (tp.sense_body_step * t.c_sbt) t.lcmt
    then record (call send_sense_body t) {
      c_sbt = next_count (tp.lcm_step / tp.sense_body_step) (t.lcmt / tp.sense_body_step);
    }
    else t

-- The step of `sendVisuals` is a quarter of `send_step`.
unfoldable pub show_visuals : TimerParam → SyncTimer → SyncTimer
show_visuals tp t =
    if leb (tp.send_step * t.c_sent) (4 * t.lcmt)
    then record (call send_visuals t) {
      c_sent = next_count ((tp.lcm_step / tp.send_step) * 4) ((4 * t.lcmt) / tp.send_step);
    }
    else t

unfoldable pub show_synch_visuals : TimerParam → SyncTimer → SyncTimer
show_synch_visuals tp t =
    if not t.sent_synch_see && leb (tp.sim_step * (t.c_synch_see - 1) + tp.synch_see_offset) t.lcmt
    then record (call send_synch_visuals t) {
      c_synch_see = t.c_synch_see + 1;
      sent_synch_see = true;
    }
    else t

unfoldable pub tell_coaches : TimerParam → SyncTimer → SyncTimer
tell_coaches tp t =
    if leb (tp.coach_visual_step * t.c_svt) t.lcmt
    then record (call send_coach_messages t) {
      c_svt = next_count (tp.lcm_step / tp.coach_visual_step) (t.lcmt / tp.coach_visual_step);
    }
    else t

unfoldable pub think : TimerParam → SyncTimer → SyncTimer
think tp t =
    if leb (tp.sim_step * (t.c_synch - 1) + tp.synch_offset) t.lcmt
    then record (call send_think t) { c_synch = t.c_synch + 1 }
    else t

unfoldable pub restart : TimerParam → SyncTimer → SyncTimer
restart tp t =
    if leb tp.lcm_step t.lcmt then record t { lcmt = 0; c_synch = 1; c_synch_see = 1 } else t

abbrev pub advance : TimerParam → SyncTimer → SyncTimer
advance tp t = record t { lcmt = t.lcmt + tp.time_delta }

-- What is sent between a step of the simulator and the command to think.
unfoldable pub inform : TimerParam → SyncTimer → SyncTimer
unfolding sense_bodies show_visuals show_synch_visuals tell_coaches
inform tp t = tell_coaches tp (show_synch_visuals tp (show_visuals tp (sense_bodies tp t)))

unfoldable pub synch_tick : TimerParam → SyncTimer → SyncTimer
unfolding simulate inform think restart
synch_tick tp t = restart tp (think tp (inform tp (simulate tp (advance tp t))))

-- The loop, for as many turns as the server is alive.
unfoldable pub ticks : TimerParam → ℕ → SyncTimer → SyncTimer
unfolding synch_tick
ticks tp zero t = t
ticks tp (suc n) t = ticks tp n (synch_tick tp t)

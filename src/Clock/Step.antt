-- ===== src/Clock/Step.antt =====
-- The cycle of `Stadium::step` (src/stadium.cpp), by what it does to the clock: how the play mode
-- decides whether time or stoppage time goes on, and when the referees look at the match.
use rcssserver.Base.{suc, none, if◌then◌else◌, ite}
use rcssserver.Mode
use rcssserver.Mode.{PlayMode, PlayMode-discrete}
use rcssserver.Match.State.{ServerParam, Match}
use rcssserver.Clock.Halves.{is_clock_stopped, analyse}
use rcssserver.Referees.View.{View}
use rcssserver.Referees.Faults.{
  offside_analyse, illegal_defense_analyse, catch_analyse, foul_analyse,
}
use rcssserver.Referees.Kicks.{free_kick_analyse}
use rcssserver.Referees.Ball.{ball_stuck_analyse, touch_analyse}
use rcssserver.Referees.Training.{keepaway_analyse}
use rcssserver.Shootout.Analyse.{Sight}
use rcssserver.Shootout.Analyse

-- What the match does in a mode: it waits for the kick-off, it is stopped by a referee, it is over,
-- or it goes on.
pub data Flow : Type 0 where
  waiting stopped over running : Flow

abbrev pub flow : PlayMode → Flow
flow Mode.before_kick_off = waiting
flow Mode.time_over = over
flow pm = if is_clock_stopped pm then stopped else running

-- The referees after `TimeRef`, in the order in which `Stadium::Stadium` registers them.
unfoldable pub others_analyse : ServerParam → View → Sight → Match → Match
others_analyse sp v s m =
    let free = free_kick_analyse sp v (offside_analyse sp (ball_stuck_analyse sp v m)) in
    let caught = catch_analyse sp v (touch_analyse sp v free) in
    let defended = illegal_defense_analyse sp v (foul_analyse sp v caught) in
    Analyse.analyse sp s (keepaway_analyse sp v defended)

-- All referees look at the match one after the other.
abbrev referees_analyse : ServerParam → View → Sight → Match → Match
referees_analyse sp v s m = others_analyse sp v s (analyse sp m)

-- The calls of the referees in a stopped mode: the clock moves on when one of them changes the mode.
abbrev pub resume_clock : PlayMode → Match → Match
resume_clock pm m =
    ite (PlayMode-discrete pm m.playmode) m (record m { time = suc m.time; stoppage_time = 0 })

-- The clock's and the referees' part of `Stadium::step`.
unfoldable pub step : ServerParam → View → Sight → Match → Match
step sp v s m = elim (flow m.playmode) [
  | waiting ↦ referees_analyse sp v s (record m { stoppage_time = suc m.stoppage_time })
  | stopped ↦ resume_clock m.playmode (
      referees_analyse sp v s
        (record m { ball_catcher = none; stoppage_time = suc m.stoppage_time }))
  | over ↦ record m { stoppage_time = suc m.stoppage_time }
  | running ↦ referees_analyse sp v s (record m { time = suc m.time; stoppage_time = 0 })
]

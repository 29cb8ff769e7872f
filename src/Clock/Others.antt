-- ===== src/Clock/Others.antt =====
-- The referees after `TimeRef` (src/referee.cpp) keep the clock, and leave a finished match alone
-- unless its time is over: then a shoot-out may start.
use rcssserver.Base.{◌≤◌, ◌≡◌, ◌⊎◌, inl, inr, true, false, is_positive, arith}
use rcssserver.Match.State.{ServerParam, Match}
use rcssserver.Match.Frame.{Steady, Steady-trans}
use rcssserver.Referees.View.{View}
use rcssserver.Referees.Faults.{
  offside_analyse, illegal_defense_analyse, catch_analyse, foul_analyse,
}
use rcssserver.Referees.Kicks.{free_kick_analyse}
use rcssserver.Referees.Ball.{ball_stuck_analyse, touch_analyse}
use rcssserver.Referees.Training.{keepaway_analyse}
use rcssserver.Referees.Steady.{ball_stuck_analyse-Steady}
use rcssserver.Referees.FaultsSteady.{
  offside_analyse-Steady, illegal_defense_analyse-Steady, catch_analyse-Steady, foul_analyse-Steady,
}
use rcssserver.Referees.KicksSteady.{free_kick_analyse-Steady, keepaway_analyse-Steady}
use rcssserver.Referees.Goals.{Scored, Steady-Scored, Scored-Steady, touch_analyse-Scored}
use rcssserver.Referees.Over.{
  Over, ball_stuck_analyse-Over, offside_analyse-Over, free_kick_analyse-Over, touch_analyse-Over,
  catch_analyse-Over, foul_analyse-Over, illegal_defense_analyse-Over, keepaway_analyse-Over,
}
use rcssserver.Shootout.Analyse.{Sight}
use rcssserver.Shootout.Steady.{analyse-Steady, analyse-time_over}
use rcssserver.Clock.Halves.{maximum_time}
use rcssserver.Clock.Step.{others_analyse}

-- The time and the count of halves stay.
pub record SameClock (m n : Match) : Type 0 where
  pub same_time : n.time ≡ m.time
  pub same_count : n.half_time_count ≡ m.half_time_count

-- The referees between `TimeRef` and `PenaltyRef`.
abbrev middle_analyse : ServerParam → View → Match → Match
middle_analyse sp v m =
    let free = free_kick_analyse sp v (offside_analyse sp (ball_stuck_analyse sp v m)) in
    let caught = catch_analyse sp v (touch_analyse sp v free) in
    keepaway_analyse sp v (illegal_defense_analyse sp v (foul_analyse sp v caught))

-- The score changes by what `TouchRef` does alone.
middle_analyse-Scored :
    (sp : ServerParam) (v : View) (m : Match) → Scored v m (middle_analyse sp v m)
middle_analyse-Scored sp v m =
    let stuck = ball_stuck_analyse sp v m in
    let off = offside_analyse sp stuck in
    let free = free_kick_analyse sp v off in
    let touched = touch_analyse sp v free in
    let before : Steady m free =
      Steady-trans (ball_stuck_analyse-Steady sp v m)
        (Steady-trans (offside_analyse-Steady sp stuck) (free_kick_analyse-Steady sp v off)) in
    let after : Steady touched (middle_analyse sp v m) =
      Steady-trans (catch_analyse-Steady sp v touched) (
        Steady-trans (foul_analyse-Steady sp v _) (
          Steady-trans (illegal_defense_analyse-Steady sp v _) (keepaway_analyse-Steady sp v _))) in
    Scored-Steady v m touched (middle_analyse sp v m)
      (Steady-Scored v m free touched before (touch_analyse-Scored sp v free)) after

pub others_analyse-Scored :
    (sp : ServerParam) (v : View) (s : Sight) (m : Match) → Scored v m (others_analyse sp v s m)
unfolding others_analyse
others_analyse-Scored sp v s m =
    Scored-Steady v m (middle_analyse sp v m) _ (middle_analyse-Scored sp v m)
      (analyse-Steady sp s (middle_analyse sp v m))

Scored-SameClock : (v : View) (m n : Match) → Scored v m n → SameClock m n
Scored-SameClock v m n (inl p) = ground arith
Scored-SameClock v m n (inr (b, inl (c, g))) = ground arith
Scored-SameClock v m n (inr (b, inr (c, g))) = ground arith

pub others_analyse-SameClock :
    (sp : ServerParam) (v : View) (s : Sight) (m : Match) → SameClock m (others_analyse sp v s m)
others_analyse-SameClock sp v s m =
    Scored-SameClock v m (others_analyse sp v s m) (others_analyse-Scored sp v s m)

middle_analyse-Over :
    (sp : ServerParam) (v : View) (m : Match)
    → sp.keep_away_mode ≡ false
    → Over m
    → Over (middle_analyse sp v m)
middle_analyse-Over sp v m k h =
    keepaway_analyse-Over sp v _
      (illegal_defense_analyse-Over sp v _ (
        foul_analyse-Over sp v _ (
          catch_analyse-Over sp v _ (
            touch_analyse-Over sp v _ (
              free_kick_analyse-Over sp v _
                (offside_analyse-Over sp v _ (ball_stuck_analyse-Over sp v m h)))))))
      k

pub others_analyse-Over :
    (sp : ServerParam) (v : View) (s : Sight) (m : Match)
    → sp.keep_away_mode ≡ false
    → is_positive sp.half_time ≡ true
    → Over m
    → Over (others_analyse sp v s m) ⊎ (maximum_time sp ≤ m.time)
unfolding others_analyse
others_analyse-Over sp v s m k p h =
    let same = Scored-SameClock v m (middle_analyse sp v m) (middle_analyse-Scored sp v m) in
    elim (analyse-time_over sp s (middle_analyse sp v m) p (middle_analyse-Over sp v m k h)) [
      | inl e ↦ inl e
      | inr t ↦ inr (omega (arith, same.same_time))
    ]

-- ===== src/Clock/Cycles.antt =====
-- What a cycle of `Stadium::step` (src/stadium.cpp) does to the clock, with all referees
-- of src/referee.cpp.
use rcssserver.Base.{
  none, suc, ◌≤◌, ◌≡◌, refl, ap, ◌⊎◌, inl, inr, true, false, is_positive, arith, List, [], ◌∷◌,
}
use rcssserver.Mode
use rcssserver.Mode.{PlayMode, PlayMode-discrete}
use rcssserver.Match.State.{ServerParam, Match}
use rcssserver.Clock.Halves.{maximum_time, half_start, is_clock_stopped, analyse}
use rcssserver.Clock.Step.{
  Flow, waiting, stopped, over, running, flow, resume_clock, others_analyse, step,
}
use rcssserver.Clock.Others.{others_analyse-SameClock, others_analyse-Over}
use rcssserver.Referees.View.{View}
use rcssserver.Shootout.Analyse.{Sight}
use rcssserver.Clock.Bounds.{InHalf, analyse-InHalf}

-- The half that is counted has begun, or the match or its time is over.
abbrev Begun : ServerParam → Match → Type 0
Begun sp m =
    (m.playmode ≡ Mode.time_over)
    ⊎ ((maximum_time sp ≤ m.time) ⊎ (half_start sp m.half_time_count ≤ m.time))

module _ (sp : ServerParam) (v : View) (t : Sight) where
  others-InHalf :
      (m : Match)
      → sp.keep_away_mode ≡ false
      → is_positive sp.half_time ≡ true
      → InHalf sp m
      → InHalf sp (others_analyse sp v t m)
  others-InHalf m k p (inl e) =
      let same = others_analyse-SameClock sp v t m in
      elim (others_analyse-Over sp v t m k p e) [
        | inl o ↦ inl o
        | inr l ↦ inr (inl (omega (arith, same.same_time)))
      ]
  others-InHalf m k p (inr (inl h)) =
      let same = others_analyse-SameClock sp v t m in inr (inl (omega (arith, same.same_time)))
  others-InHalf m k p (inr (inr h)) =
      let same = others_analyse-SameClock sp v t m in
      let here = ap (half_start sp) same.same_count in
      let next = ap (λ c. half_start sp (suc c)) same.same_count in
      inr (inr (omega (arith, same.same_time, here), omega (arith, same.same_time, next)))

  others-Begun :
      (m : Match)
      → sp.keep_away_mode ≡ false
      → is_positive sp.half_time ≡ true
      → Begun sp m
      → Begun sp (others_analyse sp v t m)
  others-Begun m k p (inl e) =
      let same = others_analyse-SameClock sp v t m in
      elim (others_analyse-Over sp v t m k p e) [
        | inl o ↦ inl o
        | inr l ↦ inr (inl (omega (arith, same.same_time)))
      ]
  others-Begun m k p (inr (inl h)) =
      let same = others_analyse-SameClock sp v t m in inr (inl (omega (arith, same.same_time)))
  others-Begun m k p (inr (inr h)) =
      let same = others_analyse-SameClock sp v t m in
      let here = ap (half_start sp) same.same_count in
      inr (inr (omega (arith, same.same_time, here)))

InHalf-Begun : (sp : ServerParam) (m : Match) → InHalf sp m → Begun sp m
InHalf-Begun sp m (inl e) = inl e
InHalf-Begun sp m (inr (inl h)) = inr (inl h)
InHalf-Begun sp m (inr (inr h)) = inr (inr h.0)

analyse-stopped :
    (sp : ServerParam) (m : Match) → is_clock_stopped m.playmode ≡ true → analyse sp m ≡ m
unfolding analyse
analyse-stopped sp m h = rw h

resume-Begun :
    (sp : ServerParam) (pm : PlayMode) (m : Match) → Begun sp m → Begun sp (resume_clock pm m)
resume-Begun sp pm m b = ground arith

flow-running : (pm : PlayMode) → flow pm ≡ running → is_clock_stopped pm ≡ false
flow-running pm h = ground arith

flow-stopped : (pm : PlayMode) → flow pm ≡ stopped → is_clock_stopped pm ≡ true
flow-stopped pm h = ground arith

flow-waiting : (pm : PlayMode) → flow pm ≡ waiting → is_clock_stopped pm ≡ true
flow-waiting pm h = ground arith

-- The match that the referees see when the clock runs, when it is stopped, and before a kick-off.
abbrev running_on : Match → Match
running_on m = record m { time = suc m.time; stoppage_time = 0 }

abbrev stopped_on : Match → Match
stopped_on m = record m { ball_catcher = none; stoppage_time = suc m.stoppage_time }

abbrev waiting_on : Match → Match
waiting_on m = record m { stoppage_time = suc m.stoppage_time }

step-running :
    (sp : ServerParam) (v : View) (t : Sight) (m : Match)
    → flow m.playmode ≡ running
    → step sp v t m ≡ others_analyse sp v t (analyse sp (running_on m))
unfolding step
step-running sp v t m f = rw (f, step)

step-stopped :
    (sp : ServerParam) (v : View) (t : Sight) (m : Match)
    → flow m.playmode ≡ stopped
    → step sp v t m ≡ resume_clock m.playmode (others_analyse sp v t (analyse sp (stopped_on m)))
unfolding step
step-stopped sp v t m f = rw (f, step)

step-waiting :
    (sp : ServerParam) (v : View) (t : Sight) (m : Match)
    → flow m.playmode ≡ waiting
    → step sp v t m ≡ others_analyse sp v t (analyse sp (waiting_on m))
unfolding step
step-waiting sp v t m f = rw (f, step)

step-over :
    (sp : ServerParam) (v : View) (t : Sight) (m : Match)
    → flow m.playmode ≡ over
    → step sp v t m ≡ record m { stoppage_time = suc m.stoppage_time }
unfolding step
step-over sp v t m f = rw (f, step)

Begun-later :
    (sp : ServerParam) (m : Match)
    → flow m.playmode ≡ running
    → Begun sp m
    → (maximum_time sp ≤ suc m.time) ⊎ (half_start sp m.half_time_count ≤ suc m.time)
Begun-later sp m f (inl e) = absurd (ground arith)
Begun-later sp m f (inr (inl h)) = inl (omega arith)
Begun-later sp m f (inr (inr h)) = inr (omega arith)

-- A cycle in which the clock runs leaves the match in the half that is counted: between the start of
-- that half and the start of the next, unless the match is over or the time of all halves is. Here
-- half_time is positive, keep_away_mode is off, and the half had begun.
step-running-InHalf :
    (sp : ServerParam) (v : View) (t : Sight) (m : Match)
    → sp.keep_away_mode ≡ false
    → is_positive sp.half_time ≡ true
    → flow m.playmode ≡ running
    → Begun sp m
    → InHalf sp (step sp v t m)
step-running-InHalf sp v t m k p f b = rw (step-running sp v t m f) (
    others-InHalf sp v t _ k p
      (analyse-InHalf sp (running_on m) p (flow-running m.playmode f) (Begun-later sp m f b)))

step-Begun :
    (sp : ServerParam) (v : View) (t : Sight) (m : Match)
    → sp.keep_away_mode ≡ false
    → is_positive sp.half_time ≡ true
    → Begun sp m
    → Begun sp (step sp v t m)
step-Begun sp v t m k p b = by_flow (flow m.playmode) refl
  where
    by_flow : (fl : Flow) → flow m.playmode ≡ fl → Begun sp (step sp v t m)
    by_flow waiting f =
        rw (step-waiting sp v t m f, analyse-stopped sp (waiting_on m) (flow-waiting m.playmode f))
          (others-Begun sp v t (waiting_on m) k p b)
    by_flow stopped f =
        rw (step-stopped sp v t m f, analyse-stopped sp (stopped_on m) (flow-stopped m.playmode f))
          (resume-Begun sp m.playmode (others_analyse sp v t (stopped_on m))
            (others-Begun sp v t (stopped_on m) k p b))
    by_flow over f = rw (step-over sp v t m f) b
    by_flow running f = InHalf-Begun sp (step sp v t m) (step-running-InHalf sp v t m k p f b)

-- Cycles one after the other, each with what the referees measure and draw in it.
unfoldable pub cycles : ServerParam → List (View × Sight) → Match → Match
cycles sp [] m = m
cycles sp ((v, t) ∷ rest) m = cycles sp rest (step sp v t m)

-- After any number of cycles the clock is at or past the start of the half that is counted, unless
-- the match is over or the time of all halves is. Here half_time is positive, keep_away_mode is off,
-- and the half had begun.
cycles-Begun :
    (sp : ServerParam) (seen : List (View × Sight)) (m : Match)
    → sp.keep_away_mode ≡ false
    → is_positive sp.half_time ≡ true
    → Begun sp m
    → Begun sp (cycles sp seen m)
unfolding cycles
cycles-Begun sp [] m k p b = b
cycles-Begun sp ((v, t) ∷ rest) m k p b =
    cycles-Begun sp rest (step sp v t m) k p (step-Begun sp v t m k p b)

-- When the clock runs in the next cycle after any number of cycles, that cycle leaves the time between the
-- start of the half that is counted and the start of the next, unless the match or the time of all
-- halves is over. Here half_time is positive, keep_away_mode is off, and the half had begun at first.
pub cycles-InHalf :
    (sp : ServerParam) (seen : List (View × Sight)) (v : View) (t : Sight) (m : Match)
    → sp.keep_away_mode ≡ false
    → is_positive sp.half_time ≡ true
    → Begun sp m
    → flow (cycles sp seen m).playmode ≡ running
    → InHalf sp (step sp v t (cycles sp seen m))
cycles-InHalf sp seen v t m k p b f =
    step-running-InHalf sp v t (cycles sp seen m) k p f (cycles-Begun sp seen m k p b)

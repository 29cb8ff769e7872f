-- ===== src/Shootout/Run.antt =====
-- A shoot-out as a sequence of events: the cycles of the simulator, and the kicks, catches and
-- tackles of the players between them (class PenaltyRef of src/referee.cpp).
use rcssserver.Base.{◌<◌, ◌≡◌, ◌≢◌, Bool, true, false, List, [], ◌∷◌, All, arith}
use rcssserver.Mode
use rcssserver.Mode.{Side, left, neutral, right, PlayMode, phase}
use rcssserver.Match.State.{ServerParam, Player, Match}
use rcssserver.Match.ModeChange.{is_penalty_shoot_out}
use rcssserver.Match.Frame.{change_play_mode-Changed}
use rcssserver.Shootout.Events.{ball_caught, kick_taken, tackle_taken}
use rcssserver.Shootout.Analyse.{Sight, start_penalty_shootout, analyse_impl, analyse}
use rcssserver.Shootout.Outcome.{kick_limit}
use rcssserver.Shootout.Tally.{Inv}
use rcssserver.Shootout.Invariant.{kick_taken-Inv, ball_caught-Inv, tackle_taken-Inv}
use rcssserver.Shootout.Cycle.{analyse-Inv}

-- What happens to the referee: a cycle, or a call of one of its handlers. The flags are a draw, and
-- the test of the penalty area or the outcome of the foul check.
pub data Event : Type 0 where
  cycle : Sight → Event
  kicked : Bool → Player → Event
  caught : Bool → Bool → Player → Event
  tackled : Bool → Bool → Player → Event

-- Every player belongs to a side.
abbrev HasSide : Event → Type 0
HasSide (cycle s) = Unit {0}
HasSide (kicked coin p) = p.side ≢ neutral
HasSide (caught coin in_area p) = p.side ≢ neutral
HasSide (tackled coin detected p) = p.side ≢ neutral

unfoldable pub step : ServerParam → Event → Match → Match
step sp (cycle s) m = analyse sp s m
step sp (kicked coin p) m = kick_taken sp coin p m
step sp (caught coin in_area p) m = ball_caught sp coin in_area p m
step sp (tackled coin detected p) m = tackle_taken sp coin detected p m

unfoldable pub run : ServerParam → List Event → Match → Match
run sp [] m = m
run sp (e ∷ es) m = run sp es (step sp e m)

step-Inv : (sp : ServerParam) (e : Event) (m : Match) → HasSide e → Inv sp m → Inv sp (step sp e m)
unfolding step
step-Inv sp (cycle s) m h i = analyse-Inv sp s m i
step-Inv sp (kicked coin p) m h i = kick_taken-Inv sp coin p m h i
step-Inv sp (caught coin in_area p) m h i = ball_caught-Inv sp coin in_area p m h i
step-Inv sp (tackled coin detected p) m h i = tackle_taken-Inv sp coin detected p m h i

-- The books of a shoot-out hold after every sequence of events: each kick is booked for one of the
-- two teams, no team has more points than kicks, the teams kick in turn, the mode names the side in
-- turn, and the kicks stay within the limit. Both teams are in the match, and each player has a side.
pub run-Inv :
    (sp : ServerParam) (es : List Event) (m : Match)
    → All HasSide es
    → Inv sp m
    → Inv sp (run sp es m)
unfolding run
run-Inv sp [] m h i = i
run-Inv sp (e ∷ es) m h i = run-Inv sp es (step sp e m) h.1 (step-Inv sp e m h.0 i)

over_ends :
    (sp : ServerParam) (s : Sight) (m : Match)
    → m.penalty.first_time ≡ false
    → is_penalty_shoot_out m.playmode ≡ true
    → m.penalty.timeover ≡ true
    → (analyse sp s m).playmode ≡ Mode.time_over
unfolding analyse start_penalty_shootout analyse_impl
over_ends sp s m f h o = ground (arith, change_play_mode-Changed sp Mode.time_over m)

limit_over :
    (sp : ServerParam) (m : Match)
    → Inv sp m
    → is_penalty_shoot_out m.playmode ≡ true
    → kick_limit sp < m.penalty.pen_nr_taken
    → (m.penalty.first_time ≡ false) × (m.penalty.timeover ≡ true)
limit_over sp m i h l = ground arith

-- Once more than 2 * (pen_max_extra_kicks + pen_nr_kicks) kicks are booked, the next cycle ends the
-- match, in every shoot-out that any events have led to.
pub limit_ends :
    (sp : ServerParam) (s : Sight) (es : List Event) (m : Match)
    → All HasSide es
    → Inv sp m
    → is_penalty_shoot_out (run sp es m).playmode ≡ true
    → kick_limit sp < (run sp es m).penalty.pen_nr_taken
    → (analyse sp s (run sp es m)).playmode ≡ Mode.time_over
limit_ends sp s es m h i shoot_out l =
    let (f, o) = limit_over sp (run sp es m) (run-Inv sp es m h i) shoot_out l in
    over_ends sp s (run sp es m) f shoot_out o

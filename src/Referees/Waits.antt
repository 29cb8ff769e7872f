-- ===== src/Referees/Waits.antt =====
-- A match that a referee (src/referee.cpp) has stopped for a fault goes on after the wait, with the
-- free kick of the other side.
use rcssserver.Base.{List, [], ◌∷◌, ℕ, ◌≡◌, ◌≢◌, Bool, true, if◌then◌else◌}
use rcssserver.Mode
use rcssserver.Mode.{Side, left, neutral, PlayMode}
use rcssserver.Match.State.{ServerParam, Match}
use rcssserver.Referees.View.{View}
use rcssserver.Referees.Faults.{
  offside_analyse, illegal_defense_analyse, catch_analyse, foul_analyse,
}
use rcssserver.Referees.Kicks.{free_kick_analyse}

-- The faults, by the referee that calls them.
pub data Fault : Type 0 where
  off_side illegal_defense free_kick_fault back_pass catch_fault foul_charge foul_push : Fault

-- The mode in which the fault of a side stops the match.
abbrev pub fault_mode : Fault → Side → PlayMode
fault_mode off_side left = Mode.off_side_left
fault_mode off_side _ = Mode.off_side_right
fault_mode illegal_defense left = Mode.illegal_defense_left
fault_mode illegal_defense _ = Mode.illegal_defense_right
fault_mode free_kick_fault left = Mode.free_kick_fault_left
fault_mode free_kick_fault _ = Mode.free_kick_fault_right
fault_mode back_pass left = Mode.back_pass_left
fault_mode back_pass _ = Mode.back_pass_right
fault_mode catch_fault left = Mode.catch_fault_left
fault_mode catch_fault _ = Mode.catch_fault_right
fault_mode foul_charge left = Mode.foul_charge_left
fault_mode foul_charge _ = Mode.foul_charge_right
fault_mode foul_push left = Mode.foul_push_left
fault_mode foul_push _ = Mode.foul_push_right

-- The cycles that the referee has counted.
abbrev fault_count : Fault → Match → ℕ
fault_count off_side m = m.offside.after_offside_time
fault_count illegal_defense m = m.illegal_defense.after_illegal_defense_time
fault_count free_kick_fault m = m.free_kick.after_free_kick_fault_time
fault_count back_pass m = m.catch.after_back_pass_time
fault_count catch_fault m = m.catch.after_catch_fault_time
fault_count foul_charge m = m.after_foul_time
fault_count foul_push m = m.after_foul_time

-- The cycle of the referee that is in charge.
abbrev pub fault_analyse : Fault → ServerParam → View → Match → Match
fault_analyse off_side sp v m = offside_analyse sp m
fault_analyse illegal_defense sp v m = illegal_defense_analyse sp v m
fault_analyse free_kick_fault sp v m = free_kick_analyse sp v m
fault_analyse back_pass sp v m = catch_analyse sp v m
fault_analyse catch_fault sp v m = catch_analyse sp v m
fault_analyse foul_charge sp v m = foul_analyse sp v m
fault_analyse foul_push sp v m = foul_analyse sp v m

-- The free kick of the other side.
abbrev other_free_kick : Side → PlayMode
other_free_kick left = Mode.free_kick_right
other_free_kick _ = Mode.free_kick_left

abbrev other_ind_free_kick : Side → PlayMode
other_ind_free_kick left = Mode.ind_free_kick_right
other_ind_free_kick _ = Mode.ind_free_kick_left

abbrev after_foul : Bool → Side → PlayMode
after_foul in_area s = if in_area then other_ind_free_kick s else other_free_kick s

abbrev in_own_area : View → Side → Bool
in_own_area v left = v.in_left_area
in_own_area v _ = v.in_right_area

-- An indirect free kick for a back pass, and for a foul in the own penalty area.
abbrev pub resumed_mode : Fault → View → Side → PlayMode
resumed_mode back_pass v s = other_ind_free_kick s
resumed_mode foul_charge v s = after_foul (in_own_area v s) s
resumed_mode foul_push v s = after_foul (in_own_area v s) s
resumed_mode _ v s = other_free_kick s

-- The parameters with which the referee is at work.
abbrev Watched : ServerParam → Fault → Type 0
Watched sp off_side = sp.use_offside ≡ true
Watched sp illegal_defense = sp.illegal_defense_number ≢ 0
Watched sp _ = Unit {0}

-- Cycles of the referee in charge, one for each view.
unfoldable pub waits : Fault → ServerParam → List View → Match → Match
waits f sp [] m = m
waits f sp (v ∷ vs) m = waits f sp vs (fault_analyse f sp v m)

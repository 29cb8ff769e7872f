-- ===== src/Referees/Faults.antt =====
-- The referees that stop the match for a fault: `OffsideRef`, `IllegalDefenseRef`, `CatchRef` and
-- `FoulRef` of src/referee.cpp, by their `analyse`. Each keeps the match stopped for a while, and
-- then gives a free kick.
use rcssserver.Base.{ℕ, suc, ◌-◌, [], Bool, false, not, none, some, ltb, leb, ◌==◌, if◌then◌else◌}
use rcssserver.Mode
use rcssserver.Mode.{Side, left, neutral, right, PlayMode, same_side}
use rcssserver.Match.State.{
  ServerParam, Match, clear_players_from_ball, place_offside_players, place_players_in_their_field,
  emit,
}
use rcssserver.Match.ModeChange.{is_penalty_shoot_out, clear_ball_catcher, change_play_mode}
use rcssserver.Referees.View.{View}
use rcssserver.Referees.Awards.{award}

-- `AFTER_OFFSIDE_WAIT`, `AFTER_ILLEGAL_DEFENSE_WAIT`, `AFTER_FREE_KICK_FAULT_WAIT`,
-- `AFTER_BACKPASS_WAIT`, `AFTER_CATCH_FAULT_WAIT` and `AFTER_FOUL_WAIT`, and `CLEAR_PLAYER_TIME`.
abbrev pub fault_wait : ℕ
fault_wait = 30

abbrev clear_player_time : ℕ
clear_player_time = 5

-- The players of a side are sent away at the end of the wait.
abbrev pub clear_after : ℕ → Side → Match → Match
clear_after t s m =
    if ltb (fault_wait - clear_player_time) t then emit (clear_players_from_ball s) m else m

abbrev pub resume_after : ServerParam → ℕ → PlayMode → Match → Match
resume_after sp t pm m = if ltb fault_wait t then change_play_mode sp pm m else m

-- `t` is the count with this cycle.
abbrev pub wait_fault : ServerParam → ℕ → Side → PlayMode → Match → Match
wait_fault sp t s pm m = resume_after sp t pm (clear_after t s m)

-- The wait of `OffsideRef::analyse`.
abbrev pub wait_offside : ServerParam → Side → PlayMode → Match → Match
wait_offside sp s pm m =
    let o = m.offside in
    let t = suc o.after_offside_time in
    let counted = record m { offside = record o { after_offside_time = t } } in
    resume_after sp t pm (emit (place_offside_players s) (clear_after t s counted))

abbrev kick_off_players : ServerParam → Match → Match
kick_off_players sp m = if sp.kick_off_offside then emit place_players_in_their_field m else m

abbrev forget_candidates : Match → Match
forget_candidates m = let o = m.offside in record m { offside = record o { candidates = [] } }

abbrev pub offside_by_mode : ServerParam → PlayMode → Match → Match
offside_by_mode sp Mode.before_kick_off m = kick_off_players sp m
offside_by_mode sp Mode.kick_off_left m = kick_off_players sp m
offside_by_mode sp Mode.kick_off_right m = kick_off_players sp m
offside_by_mode sp Mode.off_side_left m = wait_offside sp left Mode.free_kick_right m
offside_by_mode sp Mode.off_side_right m = wait_offside sp right Mode.free_kick_left m
offside_by_mode sp Mode.play_on m = m
offside_by_mode sp _ m = forget_candidates m

-- `OffsideRef::analyse`.
unfoldable pub offside_analyse : ServerParam → Match → Match
offside_analyse sp m =
    if not sp.use_offside
    then m
    else if is_penalty_shoot_out m.playmode
    then m
    else offside_by_mode sp m.playmode m

abbrev pub wait_illegal_defense : ServerParam → Side → PlayMode → Match → Match
wait_illegal_defense sp s pm m =
    let d = m.illegal_defense in
    let t = suc d.after_illegal_defense_time in
    wait_fault sp t s pm
      (record m { illegal_defense = record d { after_illegal_defense_time = t } })

-- Players are counted only while the other side has kicked last.
abbrev seen_illegal : Side → Side → ℕ → ℕ
seen_illegal last_kicker other players = if same_side last_kicker other then players else 0

-- The counters of cycles with too many players in the area.
abbrev pub count_illegal : ServerParam → View → Match → Match
count_illegal sp v m =
    let d = m.illegal_defense in
    record m {
      illegal_defense = record d {
        left_illegal_counter =
            if leb sp.illegal_defense_number
              (seen_illegal d.last_kicker_side right v.left_player_illegal)
            then suc d.left_illegal_counter
            else 0;
        right_illegal_counter =
            if leb sp.illegal_defense_number
              (seen_illegal d.last_kicker_side left v.right_player_illegal)
            then suc d.right_illegal_counter
            else 0;
      };
    }

abbrev pub call_left_defense : ServerParam → Match → Match
call_left_defense sp m =
    if leb sp.illegal_defense_duration m.illegal_defense.left_illegal_counter
    then (let called = award sp Mode.illegal_defense_left right (clear_ball_catcher m) in
        let d = called.illegal_defense in
        record called {
          illegal_defense = record d { left_illegal_counter = 0; after_illegal_defense_time = 0 };
        })
    else m

abbrev pub call_right_defense : ServerParam → Match → Match
call_right_defense sp m =
    if leb sp.illegal_defense_duration m.illegal_defense.right_illegal_counter
    then (let called = award sp Mode.illegal_defense_right left (clear_ball_catcher m) in
        let d = called.illegal_defense in
        record called {
          illegal_defense = record d { right_illegal_counter = 0; after_illegal_defense_time = 0 };
        })
    else m

abbrev pub illegal_defense_by_mode : ServerParam → View → PlayMode → Match → Match
illegal_defense_by_mode sp v Mode.illegal_defense_left m =
    wait_illegal_defense sp left Mode.free_kick_right m
illegal_defense_by_mode sp v Mode.illegal_defense_right m =
    wait_illegal_defense sp right Mode.free_kick_left m
illegal_defense_by_mode sp v Mode.play_on m =
    call_right_defense sp (call_left_defense sp (count_illegal sp v m))
illegal_defense_by_mode sp v _ m = m

-- `IllegalDefenseRef::analyse`, without the marks that it sets on players for the monitors.
unfoldable pub illegal_defense_analyse : ServerParam → View → Match → Match
illegal_defense_analyse sp v m =
    if sp.illegal_defense_number == 0 then m else illegal_defense_by_mode sp v m.playmode m

abbrev pub wait_back_pass : ServerParam → Side → PlayMode → Match → Match
wait_back_pass sp s pm m =
    let c = m.catch in
    let t = suc c.after_back_pass_time in
    wait_fault sp t s pm (record m { catch = record c { after_back_pass_time = t } })

abbrev pub wait_catch_fault : ServerParam → Side → PlayMode → Match → Match
wait_catch_fault sp s pm m =
    let c = m.catch in
    let t = suc c.after_catch_fault_time in
    wait_fault sp t s pm (record m { catch = record c { after_catch_fault_time = t } })

-- `CatchRef::callCatchFault`.
abbrev fault_mode_award : ServerParam → Side → Match → Match
fault_mode_award sp left m = award sp Mode.catch_fault_left right m
fault_mode_award sp neutral m = m
fault_mode_award sp right m = award sp Mode.catch_fault_right left m

unfoldable pub call_catch_fault : ServerParam → Side → Match → Match
call_catch_fault sp s m =
    let called = fault_mode_award sp s (clear_ball_catcher m) in
    let c = called.catch in record called { catch = record c { after_catch_fault_time = 0 } }

abbrev pub own_area : View → Side → Bool
own_area v left = v.in_left_area
own_area v _ = v.in_right_area

-- The catcher has left its penalty area with the ball.
abbrev pub watch_catcher : ServerParam → View → Match → Match
watch_catcher sp v m = elim m.ball_catcher [
  | none ↦ m
  | some p ↦ if own_area v p.side then m else call_catch_fault sp p.side m
]

abbrev pub catch_by_mode : ServerParam → View → PlayMode → Match → Match
catch_by_mode sp v Mode.back_pass_left m = wait_back_pass sp left Mode.ind_free_kick_right m
catch_by_mode sp v Mode.back_pass_right m = wait_back_pass sp right Mode.ind_free_kick_left m
catch_by_mode sp v Mode.catch_fault_left m = wait_catch_fault sp left Mode.free_kick_right m
catch_by_mode sp v Mode.catch_fault_right m = wait_catch_fault sp right Mode.free_kick_left m
catch_by_mode sp v Mode.after_goal_left m = m
catch_by_mode sp v Mode.after_goal_right m = m
catch_by_mode sp v Mode.time_over m = m
catch_by_mode sp v _ m = watch_catcher sp v m

-- `CatchRef::analyse`.
unfoldable pub catch_analyse : ServerParam → View → Match → Match
catch_analyse sp v m0 =
    let c = m0.catch in
    let m = record m0 { catch = record c { team_l_touched = false; team_r_touched = false } } in
    if is_penalty_shoot_out m.playmode then m else catch_by_mode sp v m.playmode m

abbrev pub wait_foul : ServerParam → Side → PlayMode → Match → Match
wait_foul sp s pm m =
    let t = suc m.after_foul_time in wait_fault sp t s pm (record m { after_foul_time = t })

abbrev pub left_foul : ServerParam → View → Match → Match
left_foul sp v m =
    wait_foul sp left (if v.in_left_area then Mode.ind_free_kick_right else Mode.free_kick_right) m

abbrev pub right_foul : ServerParam → View → Match → Match
right_foul sp v m =
    wait_foul sp right (if v.in_right_area then Mode.ind_free_kick_left else Mode.free_kick_left) m

-- `FoulRef::analyse`.
unfoldable pub foul_analyse : ServerParam → View → Match → Match
foul_analyse sp v m = elim m.playmode [
  | Mode.foul_charge_left ↦ left_foul sp v m
  | Mode.foul_push_left ↦ left_foul sp v m
  | Mode.foul_charge_right ↦ right_foul sp v m
  | Mode.foul_push_right ↦ right_foul sp v m
  | _ ↦ m
]

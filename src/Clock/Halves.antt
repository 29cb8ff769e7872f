-- ===== src/Clock/Halves.antt =====
-- `TimeRef::analyse` (src/referee.cpp) with `Stadium::callHalfTime` and `Stadium::kickOff`
-- (src/stadium.cpp): when a half and when the match is over, and who kicks off.
use rcssserver.Base.{
  ℕ, suc, ◌+◌, ◌-◌, ◌*◌, ◌/◌, ◌%◌, Bool, true, false, not, ◌&&◌, ◌||◌, none, is_positive, pos_part,
  neg_part, ltb, leb, ◌==◌, if◌then◌else◌,
}
use rcssserver.Mode
use rcssserver.Mode.{Side, left, right, PlayMode}
use rcssserver.Match.State.{
  ServerParam, Match, Announcement, centre, audio, time_up, time_up_without_a_team, time_extended,
  half_time_over, place_players_in_their_field, recover_stamina_capacity, recovery_players,
  weather_half_time, assign_player_types, emit,
}
use rcssserver.Match.ModeChange.{place_ball, change_play_mode}

-- `param.halfTime()`, where it is not negative.
abbrev pub half_length : ServerParam → ℕ
half_length sp = pos_part sp.half_time

abbrev pub normal_time : ServerParam → ℕ
normal_time sp = half_length sp * sp.nr_normal_halfs

abbrev pub maximum_time : ServerParam → ℕ
maximum_time sp = normal_time sp + sp.extra_half_time * sp.nr_extra_halfs

-- The time that `callHalfTime` sets for the half `count`.
abbrev pub half_start : ServerParam → ℕ → ℕ
half_start sp count =
    if ltb count sp.nr_normal_halfs
    then half_length sp * count
    else normal_time sp + sp.extra_half_time * (count - sp.nr_normal_halfs)

-- `Stadium::callHalfTime`.
unfoldable pub call_half_time : ServerParam → Side → ℕ → Match → Match
call_half_time sp side count m =
    let placed = place_ball side centre (record m { ball_catcher = none }) in
    let waiting = change_play_mode sp Mode.before_kick_off placed in
    let timed = record waiting { time = half_start sp count } in
    emit weather_half_time
      (if count == sp.nr_normal_halfs then emit recover_stamina_capacity timed else timed)

-- The modes in which `TimeRef::analyse` returns at once.
abbrev pub is_clock_stopped : PlayMode → Bool
is_clock_stopped Mode.before_kick_off = true
is_clock_stopped Mode.time_over = true
is_clock_stopped Mode.after_goal_right = true
is_clock_stopped Mode.after_goal_left = true
is_clock_stopped Mode.off_side_right = true
is_clock_stopped Mode.off_side_left = true
is_clock_stopped Mode.illegal_defense_left = true
is_clock_stopped Mode.illegal_defense_right = true
is_clock_stopped Mode.foul_charge_right = true
is_clock_stopped Mode.foul_charge_left = true
is_clock_stopped Mode.foul_push_right = true
is_clock_stopped Mode.foul_push_left = true
is_clock_stopped Mode.back_pass_right = true
is_clock_stopped Mode.back_pass_left = true
is_clock_stopped Mode.free_kick_fault_right = true
is_clock_stopped Mode.free_kick_fault_left = true
is_clock_stopped Mode.catch_fault_right = true
is_clock_stopped Mode.catch_fault_left = true
is_clock_stopped _ = false

abbrev pub half_side : ℕ → Side
half_side count = if count % 2 == 0 then left else right

-- The match is called off with an announcement.
abbrev pub end_match : ServerParam → Announcement → Match → Match
end_match sp a m = change_play_mode sp Mode.time_over (emit (audio a) m)

-- The next half begins: the count goes up before the calls.
abbrev pub next_half : ServerParam → Announcement → Match → Match
next_half sp a m =
    let count = suc m.half_time_count in
    emit place_players_in_their_field (
      call_half_time sp (half_side count) count
        (emit (audio a) (record m { half_time_count = count })))

abbrev pub is_tied : Match → Bool
is_tied m = m.team_left.point == m.team_right.point

-- The overtime branch of `TimeRef::analyse`. The code compares with
-- `normal_time + extraHalfTime() * ( count + 1 - nrNormalHalfs() )`; `extraHalfTime() *
-- nrNormalHalfs()` is added on both sides, since the difference may be negative.
unfoldable pub analyse_overtime : ServerParam → Match → Match
analyse_overtime sp m =
    let count = suc m.half_time_count in
    if not m.team_left.enabled || not m.team_right.enabled
    then end_match sp time_up_without_a_team m
    else if sp.golden_goal && not (is_tied m)
    then end_match sp time_up m
    else if leb (normal_time sp + sp.extra_half_time * count)
        (m.time + sp.extra_half_time * sp.nr_normal_halfs)
    then (if (count == sp.nr_normal_halfs) && not (is_tied m)
        then end_match sp time_up m
        else next_half sp time_extended m)
    else m

-- `TimeRef::analyse`.
unfoldable pub analyse : ServerParam → Match → Match
analyse sp m =
    if is_clock_stopped m.playmode
    then m
    else if is_positive sp.half_time
    then (if leb (maximum_time sp) m.time
        then (if sp.penalty_shoot_outs && is_tied m then m else end_match sp time_up m)
        else if leb (normal_time sp) m.time
        then analyse_overtime sp m
        else if leb (half_length sp * suc m.half_time_count) m.time
        then next_half sp half_time_over m
        else m)
    else m

-- The condition of `Stadium::kickOff`: the clock stands at the beginning of a half.
abbrev pub kick_off_due : ServerParam → ℕ → Bool
kick_off_due sp t =
    not (is_positive sp.half_time)
    || ((leb t (normal_time sp) && (t % half_length sp == 0))
        || (ltb (normal_time sp) t
            && (ltb 0 sp.extra_half_time && ((t - normal_time sp) % sp.extra_half_time == 0))))

-- How far `halfTime() * nrNormalHalfs()` is below zero, if it is.
abbrev normal_deficit : ServerParam → ℕ
normal_deficit sp = neg_part sp.half_time * sp.nr_normal_halfs

-- The test of `Stadium::kickOff` that gives the left team the kick-off. Past `normal_time`, which may
-- be negative, the time is counted from there.
abbrev pub left_kicks_off : ServerParam → ℕ → Bool
left_kicks_off sp t =
    let over = ltb (normal_time sp) (t + normal_deficit sp) in
    let current = if over then t + normal_deficit sp - normal_time sp else t in
    let half = if over then sp.extra_half_time else half_length sp in
    (half == 0) || ((current / half) % 2 == 0)

abbrev recover_in_normal_time : ServerParam → Match → Match
recover_in_normal_time sp m = if ltb m.time (normal_time sp) then emit recovery_players m else m

-- The match before the left team's kick-off, and before the right team's.
abbrev pub left_placed : ServerParam → Match → Match
left_placed sp m =
    let placed = place_ball left centre (recover_in_normal_time sp m) in
    if m.time == 0 then emit assign_player_types placed else placed

abbrev pub right_placed : ServerParam → Match → Match
right_placed sp m = place_ball right centre (recover_in_normal_time sp m)

-- `Stadium::kickOff`.
unfoldable pub kick_off : ServerParam → Match → Match
kick_off sp m =
    if sp.keep_away_mode
    then change_play_mode sp Mode.play_on m
    else if kick_off_due sp m.time
    then (if left_kicks_off sp m.time
        then change_play_mode sp Mode.kick_off_left (left_placed sp m)
        else change_play_mode sp Mode.kick_off_right (right_placed sp m))
    else m

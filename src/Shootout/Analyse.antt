-- ===== src/Shootout/Analyse.antt =====
-- What `PenaltyRef` (src/referee.cpp) does once a cycle: `startPenaltyShootout`, `analyseImpl`,
-- `handleTimeout` and `handleTimer`. What the referee measures on the field and draws at random
-- enters as a record.
use rcssserver.Base.{
  ℕ, zero, suc, ◌+◌, ◌*◌, Bool, true, false, not, ◌&&◌, ◌||◌, none, ℤ, pos, negsuc, is_negative,
  pos_part, leb, ◌==◌, if◌then◌else◌,
}
use rcssserver.Mode
use rcssserver.Mode.{
  Side, left, neutral, right, PlayMode, Phase, setup, ready, taken, miss, score, no_phase, phase,
  opposite, same_side,
}
use rcssserver.Match.State.{
  ServerParam, Match, audio, penalty_onfield, move_goalies, place_all_players, emit,
}
use rcssserver.Match.ModeChange.{is_penalty_shoot_out, change_play_mode}
use rcssserver.Shootout.Scoring.{penalty_score, penalty_miss, penalty_foul, penalty_init}
use rcssserver.Shootout.Events.{freeze_ball}

-- One cycle's measurements on `double` positions, and the draws of `drand( 0, 1 ) < 0.5`.
pub record Sight : Type 0 where
  -- `penalty_check_players` of each side
  pub left_ok : Bool
  pub right_ok : Bool
  -- `crossGoalLine( M_pen_side, M_prev_ball_pos )`
  pub crossed : Bool
  -- the test of `handleTimer` that the ball has left the pitch
  pub out_of_pitch : Bool
  pub coin : Bool
  pub side_coin : Bool
  pub taker_coin : Bool

abbrev pub set_timer : ℤ → Match → Match
set_timer t m = let r = m.penalty in record m { penalty = record r { timer = t } }

abbrev place_all : Bool → Side → Match → Match
place_all ok s m = if ok then m else emit (place_all_players s) m

-- The places that `penCoachMovesPlayers` puts right, the left team first.
abbrev pub place_both : Bool → Bool → Match → Match
place_both left_ok right_ok m = place_all right_ok right (place_all left_ok left m)

-- The foul for a player out of place.
unfoldable pub misplaced_foul : ServerParam → Bool → Bool → Bool → Match → Match
misplaced_foul sp coin left_ok right_ok m = elim m.penalty.cur_pen_taker [
  | left ↦ penalty_foul sp coin (if left_ok then right else left) m
  | neutral ↦ m
  | right ↦ penalty_foul sp coin (if right_ok then left else right) m
]

-- The end of `handleTimeout`, once the players are placed.
unfoldable pub time_elapsed : ServerParam → Bool → Match → Match
time_elapsed sp coin m = elim m.playmode [
  | Mode.penalty_setup_left ↦ change_play_mode sp Mode.penalty_ready_left m
  | Mode.penalty_setup_right ↦ change_play_mode sp Mode.penalty_ready_right m
  | Mode.penalty_taken_left ↦ penalty_miss sp coin left m
  | Mode.penalty_ready_left ↦ penalty_miss sp coin left m
  | Mode.penalty_taken_right ↦ penalty_miss sp coin right m
  | Mode.penalty_ready_right ↦ penalty_miss sp coin right m
  | _ ↦ m
]

-- `penCoachMovesPlayers` in a setup mode.
abbrev pub coach_in_setup : ServerParam → Match → Bool
coach_in_setup sp m =
    sp.pen_coach_moves_players && (elim (phase m.playmode) [ setup ↦ true | _ ↦ false ])

-- The coach puts the players right, if it may.
abbrev pub coach_places : Bool → Bool → Bool → Match → Match
coach_places coach left_ok right_ok m = if coach then place_both left_ok right_ok m else m

-- `PenaltyRef::handleTimeout`.
unfoldable pub handle_timeout : ServerParam → Bool → Bool → Bool → Match → Match
handle_timeout sp coin left_ok right_ok m =
    let coach = coach_in_setup sp m in
    let placed = coach_places coach left_ok right_ok m in
    elim (phase m.playmode) [
      | miss ↦ penalty_init sp placed
      | score ↦ penalty_init sp placed
      | _ ↦
          if coach || (left_ok && right_ok)
          then time_elapsed sp coin placed
          else misplaced_foul sp coin left_ok right_ok placed
    ]

-- The ball has crossed the goal line.
unfoldable pub goal_scored : ServerParam → Bool → Match → Match
goal_scored sp coin m =
    let booked : Match = elim m.playmode [
      | Mode.penalty_taken_left ↦ penalty_score sp coin left m
      | Mode.penalty_taken_right ↦ penalty_score sp coin right m
      | _ ↦ m
    ] in
    freeze_ball booked.penalty.pen_side booked

-- The ball has left the pitch. The code reads the mode before it puts the ball down.
unfoldable pub kick_missed : ServerParam → Bool → Match → Match
kick_missed sp coin m =
    let frozen = freeze_ball m.penalty.pen_side m in
    elim m.playmode [
      | Mode.penalty_taken_left ↦ penalty_miss sp coin left frozen
      | Mode.penalty_taken_right ↦ penalty_miss sp coin right frozen
      | _ ↦ frozen
    ]

-- The modes in which the players must stand right: ready, and taken.
abbrev pub is_ready_or_taken : Phase → Bool
is_ready_or_taken ready = true
is_ready_or_taken taken = true
is_ready_or_taken _ = false

-- The part of `handleTimer` that watches the ball and the players.
unfoldable pub watch : ServerParam → Sight → Bool → Bool → Match → Match
watch sp s left_ok right_ok m =
    if left_ok && right_ok
    then (if s.crossed
        then goal_scored sp s.coin m
        else if s.out_of_pitch
        then kick_missed sp s.coin m
        else m)
    else if is_ready_or_taken (phase m.playmode)
    then (if sp.pen_coach_moves_players
        then place_both left_ok right_ok m
        else misplaced_foul sp s.coin left_ok right_ok m)
    else m

-- `PenaltyRef::handleTimer`, where the timer is `suc t`.
unfoldable pub handle_timer : ServerParam → Sight → Bool → Bool → ℕ → Match → Match
handle_timer sp s left_ok right_ok t m0 =
    let m = set_timer (pos t) m0 in
    elim (phase m.playmode) [
      | score ↦ freeze_ball m.penalty.cur_pen_taker m
      | miss ↦ freeze_ball m.penalty.cur_pen_taker m
      | _ ↦ watch sp s left_ok right_ok m
    ]

-- The end of `analyseImpl`: by the timer's sign.
unfoldable pub by_timer : ServerParam → Sight → Bool → Bool → ℤ → Match → Match
by_timer sp s left_ok right_ok (negsuc n) m = m
by_timer sp s left_ok right_ok (pos zero) m = handle_timeout sp s.coin left_ok right_ok m
by_timer sp s left_ok right_ok (pos (suc t)) m = handle_timer sp s left_ok right_ok t m

-- `PenaltyRef::analyseImpl`.
unfoldable pub analyse_impl : ServerParam → Sight → Match → Match
analyse_impl sp s m =
    let coach = sp.pen_coach_moves_players && is_ready_or_taken (phase m.playmode) in
    let placed = coach_places coach s.left_ok s.right_ok m in
    if is_penalty_shoot_out m.playmode
    then (if m.penalty.timeover
        then change_play_mode sp Mode.time_over m
        else by_timer sp s (coach || s.left_ok) (coach || s.right_ok) m.penalty.timer placed)
    else m

-- The time at which regular and extra time are over.
abbrev pub maximum_time : ServerParam → ℕ
maximum_time sp =
    pos_part sp.half_time * sp.nr_normal_halfs + sp.extra_half_time * sp.nr_extra_halfs

abbrev is_before_kick_off : PlayMode → Bool
is_before_kick_off Mode.before_kick_off = true
is_before_kick_off _ = false

-- The condition of `startPenaltyShootout`.
abbrev pub shootout_due : ServerParam → Match → Bool
shootout_due sp m =
    m.penalty.first_time
    && (sp.penalty_shoot_outs
        && (not (is_before_kick_off m.playmode)
            && ((m.team_left.point == m.team_right.point)
                && (if is_negative sp.half_time
                    then sp.nr_normal_halfs + sp.nr_extra_halfs == 0
                    else leb (maximum_time sp) m.time))))

-- The draws of `startPenaltyShootout`. The goalies of the side that does not own the goal are moved.
abbrev pub draw_sides : Sight → Match → Match
draw_sides s m =
    let side = if s.side_coin then left else right in
    let r = m.penalty in
    let drawn = record m {
      ball_catcher = none;
      penalty = record r { pen_side = side; cur_pen_taker = if s.taker_coin then left else right };
    } in
    emit (move_goalies (opposite side)) (emit (audio (penalty_onfield side)) drawn)

abbrev pub clear_first_time : Match → Match
clear_first_time m = let r = m.penalty in record m { penalty = record r { first_time = false } }

-- `PenaltyRef::startPenaltyShootout`.
unfoldable pub start_penalty_shootout : ServerParam → Sight → Match → Match
start_penalty_shootout sp s m =
    if shootout_due sp m then clear_first_time (penalty_init sp (draw_sides s m)) else m

-- `PenaltyRef::analyse`, without the ball's position that it keeps for `crossGoalLine`.
unfoldable pub analyse : ServerParam → Sight → Match → Match
analyse sp s m = analyse_impl sp s (start_penalty_shootout sp s m)

-- ===== src/Shootout/Events.antt =====
-- What `PenaltyRef` (src/referee.cpp) does at a catch, a kick and a tackle during a shoot-out:
-- `ballCaught`, `ballPunched`, `kickTaken` and `tackleTaken`.
use rcssserver.Base.{
  ℕ, Bool, true, false, not, ◌&&◌, ◌||◌, Option, none, some, List, [], ◌∷◌, is_some, ◌==◌, length,
  if◌then◌else◌,
}
use rcssserver.Mode
use rcssserver.Mode.{
  Side, left, neutral, right, Phase, setup, ready, taken, miss, score, no_phase, phase, opposite,
  same_side,
}
use rcssserver.Match.State.{ServerParam, Player, Match, max_player, same_player}
use rcssserver.Match.ModeChange.{is_penalty_shoot_out, place_ball, change_play_mode}
use rcssserver.Shootout.Scoring.{penalty_miss, penalty_foul}

-- `M_stadium.placeBall( side, M_stadium.ball().pos() )`: the ball is stopped where it is.
abbrev pub freeze_ball : Side → Match → Match
freeze_ball s m = place_ball s m.ball m

abbrev pub is_phase : Phase → Phase → Bool
is_phase setup setup = true
is_phase ready ready = true
is_phase taken taken = true
is_phase miss miss = true
is_phase score score = true
is_phase _ _ = false

-- The catch of a kick that has been taken.
unfoldable pub catch_of_kick : ServerParam → Bool → Bool → Player → Match → Match
catch_of_kick sp coin in_area catcher m =
    let taker = m.penalty.cur_pen_taker in
    if same_side catcher.side taker
    then penalty_foul sp coin taker m
    else if not in_area
    then penalty_foul sp coin (opposite taker) m
    else penalty_miss sp coin taker m

-- `PenaltyRef::ballCaught`. `in_area` is `inPenaltyArea( M_pen_side, M_stadium.ball().pos() )`.
unfoldable pub ball_caught : ServerParam → Bool → Bool → Player → Match → Match
ball_caught sp coin in_area catcher m =
    let ruled : Match = elim (phase m.playmode) [
      | taken ↦ catch_of_kick sp coin in_area catcher m
      | ready ↦ penalty_foul sp coin catcher.side m
      | _ ↦ m
    ] in
    if is_penalty_shoot_out m.playmode then freeze_ball neutral ruled else m

-- `PenaltyRef::ballPunched`.
abbrev pub ball_punched : ServerParam → Bool → Bool → Player → Match → Match
ball_punched = ball_caught

-- `std::set< int >`: membership and insertion of a uniform number.
unfoldable pub contains : ℕ → List ℕ → Bool
contains k [] = false
contains k (x ∷ xs) = (x == k) || contains k xs

unfoldable pub insert : ℕ → List ℕ → List ℕ
unfolding contains
insert k xs = if contains k xs then xs else k ∷ xs

-- The set of kickers after a kick of the player `k`: it is emptied once all have kicked.
unfoldable pub note_kicker : ℕ → List ℕ → List ℕ
unfolding insert
note_kicker k xs = if length (insert k xs) == max_player then [] else insert k xs

-- Has the kicker of the side in turn kicked in this round?
abbrev pub has_kicked : Player → Match → Bool
has_kicked p m = elim m.penalty.cur_pen_taker [
  | left ↦ contains p.unum m.penalty.left_pen_taken
  | neutral ↦ false
  | right ↦ contains p.unum m.penalty.right_pen_taken
]

-- `M_last_taker && M_last_taker->side() == M_cur_pen_taker && M_last_taker != &kicker`.
abbrev pub other_kicker : Player → Side → Option Player → Bool
other_kicker p taker none = false
other_kicker p taker (some q) = same_side q.side taker && not (same_player q p)

abbrev pub set_last_taker : Player → Match → Match
set_last_taker p m = let r = m.penalty in record m { penalty = record r { last_taker = some p } }

-- The tests of `PenaltyRef::kickTaken` for a kick in a ready or taken mode.
unfoldable pub judge_open_kick : ServerParam → Bool → Player → Match → Match
judge_open_kick sp coin kicker m =
    let taker = m.penalty.cur_pen_taker in
    if is_phase (phase m.playmode) ready && (same_side kicker.side taker && has_kicked kicker m)
    then penalty_foul sp coin taker m
    else if other_kicker kicker taker m.penalty.last_taker
    then penalty_foul sp coin taker m
    else if not (same_side kicker.side taker) && not kicker.goalie
    then penalty_foul sp coin (opposite taker) m
    else set_last_taker kicker m

-- The first chain of tests of `PenaltyRef::kickTaken`: is the kick a foul, and whose?
unfoldable pub judge_kick : ServerParam → Bool → Player → Match → Match
judge_kick sp coin kicker m =
    let taker = m.penalty.cur_pen_taker in
    let ph = phase m.playmode in
    if is_some m.ball_catcher
    then m
    else if is_phase ph setup
    then penalty_foul sp coin kicker.side m
    else if not sp.pen_allow_mult_kicks && (is_phase ph taken && same_side kicker.side taker)
    then penalty_foul sp coin taker m
    else if is_phase ph ready || is_phase ph taken
    then judge_open_kick sp coin kicker m
    else m

abbrev pub note_left_kicker : Player → Match → Match
note_left_kicker p m =
    let r = m.penalty in
    record m { penalty = record r { left_pen_taken = note_kicker p.unum r.left_pen_taken } }

abbrev pub note_right_kicker : Player → Match → Match
note_right_kicker p m =
    let r = m.penalty in
    record m { penalty = record r { right_pen_taken = note_kicker p.unum r.right_pen_taken } }

-- The second chain of tests of `PenaltyRef::kickTaken`, on the mode that the first has left.
unfoldable pub start_kick : ServerParam → Player → Match → Match
unfolding note_kicker
start_kick sp kicker m = elim m.playmode [
  | Mode.penalty_ready_left ↦
      change_play_mode sp Mode.penalty_taken_left (note_left_kicker kicker m)
  | Mode.penalty_ready_right ↦
      change_play_mode sp Mode.penalty_taken_right (note_right_kicker kicker m)
  | Mode.penalty_taken_left ↦ m
  | Mode.penalty_taken_right ↦ m
  | _ ↦ freeze_ball m.penalty.pen_side m
]

-- `PenaltyRef::kickTaken`.
unfoldable pub kick_taken : ServerParam → Bool → Player → Match → Match
kick_taken sp coin kicker m =
    if is_penalty_shoot_out m.playmode
    then start_kick sp kicker (judge_kick sp coin kicker m)
    else m

-- `PenaltyRef::tackleTaken`. `detected` is the outcome of `checkFoul`: a charge or a card.
unfoldable pub tackle_taken : ServerParam → Bool → Bool → Player → Match → Match
tackle_taken sp coin detected tackler m =
    let taker = m.penalty.cur_pen_taker in
    let tackled =
      if detected
      then (if same_side tackler.side taker
          then penalty_foul sp coin taker m
          else penalty_foul sp coin (opposite taker) m)
      else kick_taken sp coin tackler m in
    elim (phase m.playmode) [ no_phase ↦ m | miss ↦ m | score ↦ m | _ ↦ tackled ]

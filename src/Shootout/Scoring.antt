-- ===== src/Shootout/Scoring.antt =====
-- How `PenaltyRef` (src/referee.cpp) books a kick: `penalty_init`, `penalty_score`, `penalty_miss`,
-- `penalty_foul` and `penalty_check_score`, and the calls of `Stadium` (src/stadium.cpp) and `Team`
-- (src/team.h) that they make. The draw `drand( 0, 1 ) < 0.5` is the argument `coin`.
use rcssserver.Base.{
  ℕ, ◌+◌, ◌-◌, ◌*◌, ◌/◌, ◌%◌, suc, Bool, true, false, not, ◌&&◌, ltb, ◌==◌, if◌then◌else◌,
}
use rcssserver.Mode
use rcssserver.Mode.{Side, left, neutral, right, PlayMode, opposite, same_side}
use rcssserver.Match.State.{
  ServerParam, Team, Match, audio, penalty_draw, penalty_winner_is, penalty_foul_by, penalty_spot,
  emit,
}
use rcssserver.Match.ModeChange.{change_play_mode, place_ball_mode}

-- `Team::setPenaltyScore` and `Team::setPenaltyMiss`.
abbrev set_penalty_score : Team → Team
set_penalty_score t = record t { pen_point = suc t.pen_point; pen_taken = suc t.pen_taken }

abbrev set_penalty_miss : Team → Team
set_penalty_miss t = record t { pen_taken = suc t.pen_taken }

-- What `Stadium::penaltyScore` does to the team of the named side.
abbrev book : Bool → Team → Team
book scored t =
    if t.enabled then (if scored then set_penalty_score t else set_penalty_miss t) else t

-- `Stadium::penaltyScore`.
abbrev pub stadium_penalty_score : Side → Bool → Match → Match
stadium_penalty_score left scored m = record m { team_left = book scored m.team_left }
stadium_penalty_score right scored m = record m { team_right = book scored m.team_right }
stadium_penalty_score neutral scored m = m

-- `Stadium::penaltyWinner`, with `Team::setPenaltyWinner`.
abbrev penalty_winner : Side → Match → Match
penalty_winner left m = let t = m.team_left in record m { team_left = record t { pen_won = true } }
penalty_winner right m =
    let t = m.team_right in record m { team_right = record t { pen_won = true } }
penalty_winner neutral m = m

abbrev pub set_timeover : Match → Match
set_timeover m = let r = m.penalty in record m { penalty = record r { timeover = true } }

abbrev pub announce_winner : Side → Match → Match
announce_winner s m = emit (audio (penalty_winner_is s)) m

-- The first branch of `penalty_check_score`: all kicks are used up.
abbrev pub finish_kicks : ServerParam → Bool → Match → Match
finish_kicks sp coin m = set_timeover (
    if sp.pen_random_winner
    then (if coin
        then penalty_winner left (announce_winner left m)
        else penalty_winner right (announce_winner right m))
    else emit (audio penalty_draw) m)

-- The second branch: the extra kicks, decided after a pair of kicks.
abbrev pub check_extra_kicks : Match → Match
check_extra_kicks m =
    let l = m.team_left.pen_point in
    let r = m.team_right.pen_point in
    if (m.penalty.pen_nr_taken % 2 == 0) && not (l == r)
    then set_timeover (if ltb r l then announce_winner left m else announce_winner right m)
    else m

-- `iMaxExtraLeft` and `iMaxExtraRight`: the points that the side can still reach. The branch that
-- computes them has `pen_nr_taken <= 2 * penNrKicks`, so no subtraction goes below zero.
abbrev pub max_extra : ServerParam → Side → ℕ → Match → ℕ
max_extra sp s points m =
    let n = m.penalty.pen_nr_taken in
    let all = points + (sp.pen_nr_kicks - n / 2) in
    if (n % 2 == 1) && same_side m.penalty.cur_pen_taker s then all - 1 else all

-- The third branch: a side that can no longer catch up has lost.
abbrev pub check_normal_kicks : ServerParam → Match → Match
check_normal_kicks sp m =
    let l = m.team_left.pen_point in
    let r = m.team_right.pen_point in
    if ltb (max_extra sp left l m) r
    then change_play_mode sp Mode.time_over (announce_winner right m)
    else if ltb (max_extra sp right r m) l
    then set_timeover (announce_winner left m)
    else m

-- `PenaltyRef::penalty_check_score`.
unfoldable pub penalty_check_score : ServerParam → Bool → Match → Match
penalty_check_score sp coin m =
    let n = m.penalty.pen_nr_taken in
    if ltb (2 * (sp.pen_max_extra_kicks + sp.pen_nr_kicks)) n
    then finish_kicks sp coin m
    else if ltb (2 * sp.pen_nr_kicks) n
    then check_extra_kicks m
    else check_normal_kicks sp m

-- `M_pen_nr_taken++`.
abbrev pub count_kick : Match → Match
count_kick m =
    let r = m.penalty in record m { penalty = record r { pen_nr_taken = suc r.pen_nr_taken } }

abbrev pub score_mode : Side → PlayMode
score_mode right = Mode.penalty_score_right
score_mode _ = Mode.penalty_score_left

abbrev pub miss_mode : Side → PlayMode
miss_mode left = Mode.penalty_miss_left
miss_mode _ = Mode.penalty_miss_right

-- The side that `penalty_score` and `penalty_miss` book a kick for.
abbrev pub booked_side : Side → Side
booked_side right = right
booked_side _ = left

-- `PenaltyRef::penalty_score`.
unfoldable pub penalty_score : ServerParam → Bool → Side → Match → Match
penalty_score sp coin s m =
    let scored =
      stadium_penalty_score (booked_side s) true (change_play_mode sp (score_mode s) m) in
    penalty_check_score sp coin (count_kick scored)

-- `PenaltyRef::penalty_miss`.
unfoldable pub penalty_miss : ServerParam → Bool → Side → Match → Match
penalty_miss sp coin s m =
    let counted = count_kick (change_play_mode sp (miss_mode s) m) in
    penalty_check_score sp coin (stadium_penalty_score (booked_side s) false counted)

-- `PenaltyRef::penalty_foul`.
unfoldable pub penalty_foul : ServerParam → Bool → Side → Match → Match
penalty_foul sp coin s m =
    let m' = emit (audio (penalty_foul_by (if same_side s left then left else right))) m in
    let taker = m.penalty.cur_pen_taker in
    if same_side s left && same_side taker left
    then penalty_miss sp coin left m'
    else if same_side s right && same_side taker right
    then penalty_miss sp coin right m'
    else if same_side s left
    then penalty_score sp coin right m'
    else penalty_score sp coin left m'

-- The side whose turn `penalty_init` makes it.
abbrev pub next_taker : Side → Side
next_taker left = right
next_taker _ = left

abbrev pub setup_mode : Side → PlayMode
setup_mode left = Mode.penalty_setup_left
setup_mode _ = Mode.penalty_setup_right

-- `PenaltyRef::penalty_init`.
unfoldable pub penalty_init : ServerParam → Match → Match
penalty_init sp m =
    let r = m.penalty in
    let taker = next_taker r.cur_pen_taker in
    place_ball_mode sp (setup_mode taker) neutral (penalty_spot r.pen_side)
      (record m { penalty = record r { cur_pen_taker = taker } })

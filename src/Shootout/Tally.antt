-- ===== src/Shootout/Tally.antt =====
-- The books of a shoot-out (PenaltyRef of src/referee.cpp): the counts of kicks and points agree,
-- and the sides kick in turn.
use rcssserver.Base.{suc, ◌+◌, ◌≤◌, ◌≡◌, ◌≢◌, ◌⊎◌, Bool, true, false, arith, if◌then◌else◌}
use rcssserver.Mode
use rcssserver.Mode.{
  Side, left, neutral, right, PlayMode, Phase, setup, ready, taken, miss, score, no_phase, phase,
  same_side,
}
use rcssserver.Match.State.{ServerParam, Match, audio, penalty_foul_by, penalty_spot, emit}
use rcssserver.Match.ModeChange.{place_ball, place_ball_mode, change_play_mode}
use rcssserver.Match.Frame.{Changed, change_play_mode-Changed}
use rcssserver.Shootout.Outcome.{kick_limit, penalty_check_score-Outcome}
use rcssserver.Shootout.Scoring.{
  penalty_check_score, penalty_score, penalty_miss, penalty_foul, penalty_init, score_mode,
  miss_mode, count_kick, stadium_penalty_score, booked_side, next_taker, setup_mode,
}

-- The side that a mode of the shoot-out names.
abbrev pub mode_side : PlayMode → Side
mode_side Mode.penalty_setup_left = left
mode_side Mode.penalty_ready_left = left
mode_side Mode.penalty_taken_left = left
mode_side Mode.penalty_miss_left = left
mode_side Mode.penalty_score_left = left
mode_side Mode.penalty_setup_right = right
mode_side Mode.penalty_ready_right = right
mode_side Mode.penalty_taken_right = right
mode_side Mode.penalty_miss_right = right
mode_side Mode.penalty_score_right = right
mode_side _ = neutral

-- Both teams play, each kick is booked for one of them, and points are kicks that scored.
pub record Tally (m : Match) : Type 0 where
  pub left_plays : m.team_left.enabled ≡ true
  pub right_plays : m.team_right.enabled ≡ true
  pub counted : m.penalty.pen_nr_taken ≡ m.team_left.pen_taken + m.team_right.pen_taken
  pub left_points : m.team_left.pen_point ≤ m.team_left.pen_taken
  pub right_points : m.team_right.pen_point ≤ m.team_right.pen_taken

-- As many kicks on both sides, or one more on the named side.
abbrev EvenOrAhead : Side → Match → Type 0
EvenOrAhead left m =
    (m.team_left.pen_taken ≡ m.team_right.pen_taken)
    ⊎ (m.team_left.pen_taken ≡ suc m.team_right.pen_taken)
EvenOrAhead neutral m = ⊥
EvenOrAhead right m =
    (m.team_left.pen_taken ≡ m.team_right.pen_taken)
    ⊎ (m.team_right.pen_taken ≡ suc m.team_left.pen_taken)

-- The side `s` is about to kick.
abbrev pub Pending : ServerParam → Side → Match → Type 0
Pending sp s m =
    (m.penalty.first_time ≡ false)
    × (m.penalty.cur_pen_taker ≡ s)
    × EvenOrAhead (Mode.opposite s) m
    × (m.penalty.timeover ≡ false)
    × (m.penalty.pen_nr_taken ≤ kick_limit sp)

-- The side `s` has kicked.
abbrev Booked : ServerParam → Side → Match → Type 0
Booked sp s m =
    (m.penalty.first_time ≡ false)
    × (m.penalty.cur_pen_taker ≡ s)
    × EvenOrAhead s m
    × (m.penalty.pen_nr_taken ≤ suc (kick_limit sp))
    × ((m.penalty.timeover ≡ true) ⊎ (m.penalty.pen_nr_taken ≤ kick_limit sp))

-- Out of the shoot-out: before it nothing is booked, and after it at most one side is ahead.
abbrev pub Outside : ServerParam → Match → Type 0
Outside sp m =
    (m.penalty.first_time ≡ true → (m.penalty.pen_nr_taken ≡ 0) × (m.penalty.timeover ≡ false))
    × (EvenOrAhead left m ⊎ EvenOrAhead right m)
    × (m.penalty.pen_nr_taken ≤ suc (kick_limit sp))

abbrev Stage : ServerParam → Phase → Side → Match → Type 0
Stage sp setup s m = Pending sp s m
Stage sp ready s m = Pending sp s m
Stage sp taken s m = Pending sp s m
Stage sp miss s m = Booked sp s m
Stage sp score s m = Booked sp s m
Stage sp no_phase s m = Outside sp m

-- The invariant of the shoot-out.
pub record Inv (sp : ServerParam) (m : Match) : Type 0 where
  pub tally : Tally m
  pub stage : Stage sp (phase m.playmode) (mode_side m.playmode) m

-- A kick of the side `s` has just been booked, and is to be judged.
pub record Judged (sp : ServerParam) (s : Side) (m : Match) : Type 0 where
  pub tally : Tally m
  pub started : m.penalty.first_time ≡ false
  pub turn : m.penalty.cur_pen_taker ≡ s
  pub ahead : EvenOrAhead s m
  pub limit : m.penalty.pen_nr_taken ≤ suc (kick_limit sp)
  pub mode : (m.playmode ≡ score_mode s) ⊎ (m.playmode ≡ miss_mode s)

check-Inv :
    (sp : ServerParam) (coin : Bool) (s : Side) (m : Match)
    → Judged sp s m
    → Inv sp (penalty_check_score sp coin m)
check-Inv sp coin left m j = ground (arith, penalty_check_score-Outcome sp coin m)
check-Inv sp coin neutral m j = absurd j.ahead
check-Inv sp coin right m j = ground (arith, penalty_check_score-Outcome sp coin m)

-- The match in which the kick of `s` is booked, before it is judged.
abbrev after_score : ServerParam → Side → Match → Match
after_score sp s m =
    count_kick (stadium_penalty_score (booked_side s) true (change_play_mode sp (score_mode s) m))

abbrev after_miss : ServerParam → Side → Match → Match
after_miss sp s m =
    stadium_penalty_score (booked_side s) false (count_kick (change_play_mode sp (miss_mode s) m))

after_score-Judged :
    (sp : ServerParam) (s : Side) (m : Match)
    → Tally m
    → Pending sp s m
    → Judged sp s (after_score sp s m)
after_score-Judged sp left m t p =
    ground (arith, change_play_mode-Changed sp Mode.penalty_score_left m)
after_score-Judged sp neutral m t p = absurd p.2
after_score-Judged sp right m t p =
    ground (arith, change_play_mode-Changed sp Mode.penalty_score_right m)

after_miss-Judged :
    (sp : ServerParam) (s : Side) (m : Match)
    → Tally m
    → Pending sp s m
    → Judged sp s (after_miss sp s m)
after_miss-Judged sp left m t p =
    ground (arith, change_play_mode-Changed sp Mode.penalty_miss_left m)
after_miss-Judged sp neutral m t p = absurd p.2
after_miss-Judged sp right m t p =
    ground (arith, change_play_mode-Changed sp Mode.penalty_miss_right m)

pub penalty_score-Inv :
    (sp : ServerParam) (coin : Bool) (s : Side) (m : Match)
    → Tally m
    → Pending sp s m
    → Inv sp (penalty_score sp coin s m)
unfolding penalty_score
penalty_score-Inv sp coin s m t p = check-Inv sp coin s _ (after_score-Judged sp s m t p)

pub penalty_miss-Inv :
    (sp : ServerParam) (coin : Bool) (s : Side) (m : Match)
    → Tally m
    → Pending sp s m
    → Inv sp (penalty_miss sp coin s m)
unfolding penalty_miss
penalty_miss-Inv sp coin s m t p = check-Inv sp coin s _ (after_miss-Judged sp s m t p)

-- A foul of a side, announced.
abbrev fouled : Side → Match → Match
fouled s m = emit (audio (penalty_foul_by (if same_side s left then left else right))) m

-- A foul of the side in turn is a miss, and one of the other side a score of the side in turn.
penalty_foul-eq :
    (sp : ServerParam) (coin : Bool) (s taker : Side) (m : Match)
    → s ≢ neutral
    → taker ≢ neutral
    → m.penalty.cur_pen_taker ≡ taker
    → penalty_foul sp coin s m ≡ (
        if same_side s taker
        then penalty_miss sp coin taker (fouled s m)
        else penalty_score sp coin taker (fouled s m))
unfolding penalty_foul
penalty_foul-eq sp coin s taker m hs ht e = ground arith

pub penalty_foul-Inv :
    (sp : ServerParam) (coin : Bool) (s taker : Side) (m : Match)
    → s ≢ neutral
    → Tally m
    → Pending sp taker m
    → Inv sp (penalty_foul sp coin s m)
penalty_foul-Inv sp coin s neutral m hs t p = absurd p.2
penalty_foul-Inv sp coin s taker m hs t p =
    rw (penalty_foul-eq sp coin s taker m hs (λ e. cc) p.1) (
      by_cases (same_side s taker)
        (penalty_miss-Inv sp coin taker (fouled s m) (ground arith) (ground arith))
        (penalty_score-Inv sp coin taker (fouled s m) (ground arith) (ground arith)))
  where
    by_cases : (b : Bool) {x y : Match} → Inv sp x → Inv sp y → Inv sp (if b then x else y)
    by_cases true u v = u
    by_cases false u v = v

-- The match that `penalty_init` hands to `changePlayMode`.
abbrev handed : Side → Match → Match
handed s m =
    let r = m.penalty in
    place_ball neutral (penalty_spot r.pen_side)
      (record m { penalty = record r { cur_pen_taker = s } })

penalty_init-eq :
    (sp : ServerParam) (m : Match)
    → let s = next_taker m.penalty.cur_pen_taker in
      penalty_init sp m ≡ change_play_mode sp (setup_mode s) (handed s m)
unfolding penalty_init place_ball_mode
penalty_init-eq sp m = ground arith

-- What `penalty_init` does: the mode becomes the setup of the next side.
pub penalty_init-Changed :
    (sp : ServerParam) (m : Match)
    → let s = next_taker m.penalty.cur_pen_taker in
      Changed sp (setup_mode s) (handed s m) (penalty_init sp m)
penalty_init-Changed sp m = rw (penalty_init-eq sp m) (change_play_mode-Changed sp _ _)

pub penalty_init-Inv :
    (sp : ServerParam) (s : Side) (m : Match)
    → Tally m
    → Booked sp s m
    → m.penalty.timeover ≡ false
    → Inv sp (penalty_init sp m)
penalty_init-Inv sp left m t b o = ground (arith, penalty_init-Changed sp m)
penalty_init-Inv sp neutral m t b o = absurd b.2
penalty_init-Inv sp right m t b o = ground (arith, penalty_init-Changed sp m)

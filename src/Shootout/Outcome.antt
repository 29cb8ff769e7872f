-- ===== src/Shootout/Outcome.antt =====
-- What `PenaltyRef::penalty_check_score` (src/referee.cpp) may do: end the shoot-out at once, mark
-- it as over, or let it go on. It books nothing.
use rcssserver.Base.{
  ℕ, ◌*◌, ◌+◌, ◌≤◌, ◌≡◌, ◌⊎◌, inl, inr, Bool, true, arith, ltb, Bool-cases, if◌then◌else◌,
}
use rcssserver.Mode
use rcssserver.Mode.{left, right}
use rcssserver.Match.State.{ServerParam, Team, Match}
use rcssserver.Match.ModeChange.{change_play_mode}
use rcssserver.Match.Frame.{change_play_mode-Changed}
use rcssserver.Shootout.Scoring.{
  penalty_check_score, finish_kicks, check_extra_kicks, check_normal_kicks, announce_winner,
  set_timeover, max_extra,
}

-- The most kicks after which the shoot-out goes on.
abbrev pub kick_limit : ServerParam → ℕ
kick_limit sp = 2 * (sp.pen_max_extra_kicks + sp.pen_nr_kicks)

pub record SameBooks (t u : Team) : Type 0 where
  pub same_enabled : u.enabled ≡ t.enabled
  pub same_pen_point : u.pen_point ≡ t.pen_point
  pub same_pen_taken : u.pen_taken ≡ t.pen_taken

pub record Outcome (sp : ServerParam) (m n : Match) : Type 0 where
  pub left_books : SameBooks m.team_left n.team_left
  pub right_books : SameBooks m.team_right n.team_right
  pub same_nr : n.penalty.pen_nr_taken ≡ m.penalty.pen_nr_taken
  pub same_taker : n.penalty.cur_pen_taker ≡ m.penalty.cur_pen_taker
  pub same_first : n.penalty.first_time ≡ m.penalty.first_time
  pub ending :
      (n.playmode ≡ Mode.time_over)
      ⊎ ((n.playmode ≡ m.playmode)
          × ((n.penalty.timeover ≡ true) ⊎ (m.penalty.pen_nr_taken ≤ kick_limit sp)))

finish_kicks-Outcome :
    (sp : ServerParam) (coin : Bool) (m : Match) → Outcome sp m (finish_kicks sp coin m)
finish_kicks-Outcome sp coin m = ground arith

check_extra_kicks-Outcome :
    (sp : ServerParam) (m : Match)
    → m.penalty.pen_nr_taken ≤ kick_limit sp
    → Outcome sp m (check_extra_kicks m)
check_extra_kicks-Outcome sp m h = ground arith

check_normal_kicks-Outcome :
    (sp : ServerParam) (m : Match)
    → m.penalty.pen_nr_taken ≤ kick_limit sp
    → Outcome sp m (check_normal_kicks sp m)
check_normal_kicks-Outcome sp m h =
    by_tests (ltb (max_extra sp left l m) r) (ltb (max_extra sp right r m) l)
  where
    l : ℕ
    l = m.team_left.pen_point

    r : ℕ
    r = m.team_right.pen_point

    by_tests :
        (a b : Bool)
        → Outcome sp m (
            if a
            then change_play_mode sp Mode.time_over (announce_winner right m)
            else if b
            then set_timeover (announce_winner left m)
            else m)
    by_tests a b =
        ground (arith, change_play_mode-Changed sp Mode.time_over (announce_winner right m))

pub penalty_check_score-Outcome :
    (sp : ServerParam) (coin : Bool) (m : Match) → Outcome sp m (penalty_check_score sp coin m)
unfolding penalty_check_score
penalty_check_score-Outcome sp coin m = elim (Bool-cases (ltb (kick_limit sp) n)) [
  | inl e ↦ rw e (finish_kicks-Outcome sp coin m)
  | inr e ↦
      let h : n ≤ kick_limit sp = ground arith in
      elim (Bool-cases (ltb (2 * sp.pen_nr_kicks) n)) [
        | inl d ↦ rw (e, d) (check_extra_kicks-Outcome sp m h)
        | inr d ↦ rw (e, d) (check_normal_kicks-Outcome sp m h)
      ]
]
  where
    n : ℕ
    n = m.penalty.pen_nr_taken

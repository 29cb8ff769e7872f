-- ===== src/Shootout/Verdict.antt =====
-- Whether `PenaltyRef::penalty_check_score` (src/referee.cpp) judges a shoot-out rightly: during the
-- normal kicks, against all ways in which the kicks that are left can go.
use rcssserver.Base.{
  ℕ, ◌+◌, ◌-◌, ◌*◌, ◌%◌, ◌≤◌, ◌<◌, ◌≡◌, ◌≢◌, ◌↔◌, Bool, true, false, ltb, arith, if◌then◌else◌,
}
use rcssserver.Mode
use rcssserver.Mode.{Side, left, neutral, right, PlayMode, phase, opposite}
use rcssserver.Match.State.{ServerParam, Team, Match}
use rcssserver.Match.ModeChange.{change_play_mode}
use rcssserver.Match.Frame.{Changed, change_play_mode-Changed}
use rcssserver.Shootout.Scoring.{
  penalty_check_score, max_extra, announce_winner, set_timeover, check_normal_kicks,
  check_extra_kicks,
}
use rcssserver.Shootout.Outcome.{kick_limit}
use rcssserver.Shootout.Tally.{Judged}

-- The kicks of a team that are left before the extra kicks.
abbrev kicks_left : ServerParam → Team → ℕ
kicks_left sp t = sp.pen_nr_kicks - t.pen_taken

-- However the kicks that are left go, the first team ends with fewer points than the second.
abbrev pub SureLoss : ServerParam → Team → Team → Type 0
SureLoss sp t u =
    (a b : ℕ) → a ≤ kicks_left sp t → b ≤ kicks_left sp u → t.pen_point + a < u.pen_point + b

-- The code's bound is the points of the team and all its kicks that are left.
max_extra_left :
    (sp : ServerParam) (s : Side) (m : Match)
    → Judged sp s m
    → m.penalty.pen_nr_taken ≤ 2 * sp.pen_nr_kicks
    → max_extra sp left m.team_left.pen_point m ≡ m.team_left.pen_point + kicks_left sp m.team_left
max_extra_left sp left m j h = ground arith
max_extra_left sp neutral m j h = absurd j.ahead
max_extra_left sp right m j h = ground arith

max_extra_right :
    (sp : ServerParam) (s : Side) (m : Match)
    → Judged sp s m
    → m.penalty.pen_nr_taken ≤ 2 * sp.pen_nr_kicks
    → max_extra sp right m.team_right.pen_point m
      ≡ m.team_right.pen_point + kicks_left sp m.team_right
max_extra_right sp left m j h = ground arith
max_extra_right sp neutral m j h = absurd j.ahead
max_extra_right sp right m j h = ground arith

SureLoss-iff :
    (sp : ServerParam) (t u : Team)
    → (t.pen_point + kicks_left sp t < u.pen_point) ↔ SureLoss sp t u
SureLoss-iff sp t u = (
  (λ h a b ha hb. omega arith),
  (λ h. let k = h (kicks_left sp t) 0 (omega arith) (omega arith) in omega arith),
)

normal_kicks-eq :
    (sp : ServerParam) (coin : Bool) (m : Match)
    → m.penalty.pen_nr_taken ≤ 2 * sp.pen_nr_kicks
    → penalty_check_score sp coin m ≡ check_normal_kicks sp m
unfolding penalty_check_score
normal_kicks-eq sp coin m h = ground arith

Judged-mode :
    (sp : ServerParam) (s : Side) (m : Match) → Judged sp s m → m.playmode ≢ Mode.time_over
Judged-mode sp s m j = ground arith

-- `check_normal_kicks` over two bounds, in place of the ones that it computes.
abbrev judge_normal : ServerParam → ℕ → ℕ → Match → Match
judge_normal sp a b m =
    if ltb a m.team_right.pen_point
    then change_play_mode sp Mode.time_over (announce_winner right m)
    else if ltb b m.team_left.pen_point
    then set_timeover (announce_winner left m)
    else m

tests_decide :
    (sp : ServerParam) (a b : ℕ) (m : Match)
    → m.playmode ≢ Mode.time_over
    → m.penalty.timeover ≡ false
    → m.team_left.pen_point ≤ a
    → m.team_right.pen_point ≤ b
    → (((judge_normal sp a b m).playmode ≡ Mode.time_over) ↔ (a < m.team_right.pen_point))
      × (((judge_normal sp a b m).penalty.timeover ≡ true) ↔ (b < m.team_left.pen_point))
tests_decide sp a b m h o la rb = (
  ((λ e. ground (arith, c)), (λ lt. ground (arith, c))),
  ((λ e. ground (arith, c)), (λ lt. ground (arith, c))),
)
  where
    c :
        Changed sp Mode.time_over
          (announce_winner right m)
          (change_play_mode sp Mode.time_over (announce_winner right m))
    c = change_play_mode-Changed sp Mode.time_over (announce_winner right m)

iff_trans {ℓ κ μ} : {A : Type ℓ} {B : Type κ} {C : Type μ} → A ↔ B → B ↔ C → A ↔ C
iff_trans f g = ((λ a. g.0 (f.0 a)), (λ c. f.1 (g.1 c)))

-- During the normal kicks the check is exact: it ends the match for the right team when, and only
-- when, the left team loses however the kicks that are left go, and it marks the shoot-out as over
-- when, and only when, the right team does. The kick just booked is the one of the side in turn, at
-- most 2 * pen_nr_kicks kicks are booked, and the shoot-out was not over before.
pub normal_verdict :
    (sp : ServerParam) (coin : Bool) (s : Side) (m : Match)
    → Judged sp s m
    → m.penalty.pen_nr_taken ≤ 2 * sp.pen_nr_kicks
    → m.penalty.timeover ≡ false
    → let n = penalty_check_score sp coin m in
      ((n.playmode ≡ Mode.time_over) ↔ SureLoss sp m.team_left m.team_right)
      × ((n.penalty.timeover ≡ true) ↔ SureLoss sp m.team_right m.team_left)
normal_verdict sp coin s m j h o = rw (normal_kicks-eq sp coin m h) (
  (iff_trans d.0 (iff_trans (lt_iff el) (SureLoss-iff sp l r))),
  (iff_trans d.1 (iff_trans (lt_iff er) (SureLoss-iff sp r l))),
)
  where
    open m use {team_left as l, team_right as r}

    a : ℕ
    a = max_extra sp left l.pen_point m

    b : ℕ
    b = max_extra sp right r.pen_point m

    el : a ≡ l.pen_point + kicks_left sp l
    el = max_extra_left sp s m j h

    er : b ≡ r.pen_point + kicks_left sp r
    er = max_extra_right sp s m j h

    d :
        (((judge_normal sp a b m).playmode ≡ Mode.time_over) ↔ (a < r.pen_point))
        × (((judge_normal sp a b m).penalty.timeover ≡ true) ↔ (b < l.pen_point))
    d = tests_decide sp a b m (Judged-mode sp s m j) o (omega (arith, el)) (omega (arith, er))

    lt_iff : {x y k : ℕ} → x ≡ y → (x < k) ↔ (y < k)
    lt_iff e = ((λ p. omega arith), (λ p. omega arith))

extra_kicks-eq :
    (sp : ServerParam) (coin : Bool) (m : Match)
    → 2 * sp.pen_nr_kicks < m.penalty.pen_nr_taken
    → m.penalty.pen_nr_taken ≤ kick_limit sp
    → penalty_check_score sp coin m ≡ check_extra_kicks m
unfolding penalty_check_score
extra_kicks-eq sp coin m lo hi = ground arith

-- The number of kicks is even when both teams have kicked as often.
even_iff :
    (sp : ServerParam) (s : Side) (m : Match)
    → Judged sp s m
    → (m.penalty.pen_nr_taken % 2 ≡ 0) ↔ (m.team_left.pen_taken ≡ m.team_right.pen_taken)
even_iff sp left m j = ((λ e. ground arith), (λ e. omega arith))
even_iff sp neutral m j = absurd j.ahead
even_iff sp right m j = ((λ e. ground arith), (λ e. omega arith))

extra_tests :
    (m : Match)
    → m.penalty.timeover ≡ false
    → ((check_extra_kicks m).penalty.timeover ≡ true)
      ↔ ((m.penalty.pen_nr_taken % 2 ≡ 0) × (m.team_left.pen_point ≢ m.team_right.pen_point))
extra_tests m o = ((λ e. (ground arith, (λ d. ground arith))), (λ d. ground arith))

extra_mode : (m : Match) → (check_extra_kicks m).playmode ≡ m.playmode
extra_mode m = ground arith

-- In the extra kicks the check marks the shoot-out as over when, and only when, both teams have
-- taken as many kicks and one has more points; it never ends the match at once. More than
-- 2 * pen_nr_kicks kicks are booked, no more than the limit, and the shoot-out was not over before.
pub extra_verdict :
    (sp : ServerParam) (coin : Bool) (s : Side) (m : Match)
    → Judged sp s m
    → 2 * sp.pen_nr_kicks < m.penalty.pen_nr_taken
    → m.penalty.pen_nr_taken ≤ kick_limit sp
    → m.penalty.timeover ≡ false
    → let n = penalty_check_score sp coin m in
      (n.playmode ≡ m.playmode)
      × ((n.penalty.timeover ≡ true) ↔ (
          (m.team_left.pen_taken ≡ m.team_right.pen_taken)
          × (m.team_left.pen_point ≢ m.team_right.pen_point)))
extra_verdict sp coin s m j lo hi o =
    let t = extra_tests m o in
    let p = even_iff sp s m j in
    rw (extra_kicks-eq sp coin m lo hi)
      (extra_mode m, ((λ e. let q = t.0 e in (p.0 q.0, q.1)), (λ d. t.1 (p.1 d.0, d.1))))

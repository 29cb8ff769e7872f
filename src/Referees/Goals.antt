-- ===== src/Referees/Goals.antt =====
-- What `TouchRef` (src/referee.cpp) does to the score in its `analyse`.
use rcssserver.Base.{
  ◌≡◌, refl, ◌⊎◌, inl, inr, true, Bool, false, Option, none, some, arith, if◌then◌else◌,
}
use rcssserver.Mode
use rcssserver.Mode.{Side, left, neutral, right, PlayMode}
use rcssserver.Match.State.{ServerParam, Match}
use rcssserver.Match.ModeChange.{is_penalty_shoot_out}
use rcssserver.Match.Frame.{Steady, Steady-refl, Steady-trans, change-Steady}
use rcssserver.Referees.View.{View}
use rcssserver.Referees.Ball.{
  inc_point, give_goal, watch_lines, watch_ball, check_goal, touch_by_mode, touch_analyse,
}
use rcssserver.Referees.KicksSteady.{watch_lines-Steady, wait_goal-Steady}

-- A goal for the named side: one point for it, if it plays, and nothing else.
abbrev Goal : Side → Match → Match → Type 0
Goal left m n =
    (n.time ≡ m.time)
    × (n.half_time_count ≡ m.half_time_count)
    × (n.team_left.point ≡ (inc_point m.team_left).point)
    × (n.team_right.point ≡ m.team_right.point)
Goal neutral m n = ⊥
Goal right m n =
    (n.time ≡ m.time)
    × (n.half_time_count ≡ m.half_time_count)
    × (n.team_left.point ≡ m.team_left.point)
    × (n.team_right.point ≡ (inc_point m.team_right).point)

-- No goal, or one for a side, with the ball over the other side's goal line.
abbrev pub Scored : View → Match → Match → Type 0
Scored v m n =
    Steady m n
    ⊎ ((v.beyond_goal_line ≡ true)
        × (((v.cross_right ≡ true) × Goal left m n) ⊎ ((v.cross_left ≡ true) × Goal right m n)))

pub Steady-Scored : (v : View) (l m n : Match) → Steady l m → Scored v m n → Scored v l n
Steady-Scored v l m n p (inl q) = inl (Steady-trans p q)
Steady-Scored v l m n p (inr (b, inl (c, g))) = inr (b, inl (c, ground arith))
Steady-Scored v l m n p (inr (b, inr (c, g))) = inr (b, inr (c, ground arith))

pub Scored-Steady : (v : View) (l m n : Match) → Scored v l m → Steady m n → Scored v l n
Scored-Steady v l m n (inl p) q = inl (Steady-trans p q)
Scored-Steady v l m n (inr (b, inl (c, g))) q = inr (b, inl (c, ground arith))
Scored-Steady v l m n (inr (b, inr (c, g))) q = inr (b, inr (c, ground arith))

give_goal-left : (sp : ServerParam) (m : Match) → Goal left m (give_goal sp left m)
unfolding give_goal
give_goal-left sp m =
    let p = change-Steady sp _ _ in (p.same_time, p.same_count, p.same_left, p.same_right)

give_goal-right : (sp : ServerParam) (m : Match) → Goal right m (give_goal sp right m)
unfolding give_goal
give_goal-right sp m =
    let p = change-Steady sp _ _ in (p.same_time, p.same_count, p.same_left, p.same_right)

-- The side that scores, and the goal line that the ball has crossed.
check_goal_lem :
    (v : View) (m : Match) (s : Side)
    → check_goal v m ≡ some s
    → (v.beyond_goal_line ≡ true)
      × (((s ≡ left) × (v.cross_right ≡ true)) ⊎ ((s ≡ right) × (v.cross_left ≡ true)))
check_goal_lem v m s e = ground arith

watch_ball-Scored : (sp : ServerParam) (v : View) (m : Match) → Scored v m (watch_ball sp v m)
watch_ball-Scored sp v m = by_goal (check_goal v m) refl
  where
    by_goal :
        (o : Option Side)
        → check_goal v m ≡ o
        → Scored v m (elim o [ none ↦ watch_lines sp v m | some s ↦ give_goal sp s m ])
    by_goal none e = inl (watch_lines-Steady sp v m)
    by_goal (some left) e = inr (
      (check_goal_lem v m left e).0,
      inl (ground (arith, check_goal_lem v m left e), give_goal-left sp m),
    )
    by_goal (some neutral) e = absurd (ground (arith, check_goal_lem v m neutral e))
    by_goal (some right) e = inr (
      (check_goal_lem v m right e).0,
      inr (ground (arith, check_goal_lem v m right e), give_goal-right sp m),
    )

touch_by_mode-Scored :
    (sp : ServerParam) (v : View) (pm : PlayMode) (m : Match) → Scored v m (touch_by_mode sp v pm m)
touch_by_mode-Scored sp v Mode.after_goal_left m =
    inl (wait_goal-Steady sp right Mode.kick_off_right m)
touch_by_mode-Scored sp v Mode.after_goal_right m =
    inl (wait_goal-Steady sp left Mode.kick_off_left m)
touch_by_mode-Scored sp v Mode.time_over m = inl (Steady-refl m)
touch_by_mode-Scored sp v _ m = watch_ball-Scored sp v m

pub touch_analyse-Scored :
    (sp : ServerParam) (v : View) (m : Match) → Scored v m (touch_analyse sp v m)
unfolding touch_analyse
touch_analyse-Scored sp v m = by_shootout (is_penalty_shoot_out m.playmode)
  where
    by_shootout : (b : Bool) → Scored v m (if b then m else touch_by_mode sp v m.playmode m)
    by_shootout true = inl (Steady-refl m)
    by_shootout false = touch_by_mode-Scored sp v m.playmode m

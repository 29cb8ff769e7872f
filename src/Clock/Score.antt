-- ===== src/Clock/Score.antt =====
-- The score in a cycle of `Stadium::step` (src/stadium.cpp).
use rcssserver.Base.{none, ite, suc, ◌≡◌, refl, ◌⊎◌, inl, inr, true, arith}
use rcssserver.Mode
use rcssserver.Mode.{Side, left, right, PlayMode, PlayMode-discrete}
use rcssserver.Match.State.{
  ServerParam, Match, Announcement, audio, time_up, time_up_without_a_team, time_extended,
  half_time_over, emit,
}
use rcssserver.Match.Frame.{change_play_mode-Changed}
use rcssserver.Referees.View.{View}
use rcssserver.Referees.Ball.{inc_point}
use rcssserver.Referees.Goals.{Scored}
use rcssserver.Shootout.Analyse.{Sight}
use rcssserver.Clock.Halves.{half_side, end_match, next_half, analyse_overtime, analyse}
use rcssserver.Clock.Bounds.{call_half_time_fields}
use rcssserver.Clock.Step.{
  Flow, waiting, stopped, over, running, flow, resume_clock, others_analyse, step,
}
use rcssserver.Clock.Others.{others_analyse-Scored}

abbrev SameTeams : Match → Match → Type 0
SameTeams m n = (n.team_left ≡ m.team_left) × (n.team_right ≡ m.team_right)

end_match-SameTeams :
    (sp : ServerParam) (a : Announcement) (m : Match) → SameTeams m (end_match sp a m)
end_match-SameTeams sp a m =
    ground (arith, change_play_mode-Changed sp Mode.time_over (emit (audio a) m))

next_half-SameTeams :
    (sp : ServerParam) (a : Announcement) (m : Match) → SameTeams m (next_half sp a m)
next_half-SameTeams sp a m =
    let count = suc m.half_time_count in
    let f =
      call_half_time_fields sp (half_side count) count
        (emit (audio a) (record m { half_time_count = count })) in
    (f.3, f.4)

overtime-SameTeams : (sp : ServerParam) (m : Match) → SameTeams m (analyse_overtime sp m)
unfolding analyse_overtime
overtime-SameTeams sp m = ground (
  arith,
  end_match-SameTeams sp time_up_without_a_team m,
  end_match-SameTeams sp time_up m,
  next_half-SameTeams sp time_extended m,
)

time_analyse-SameTeams : (sp : ServerParam) (m : Match) → SameTeams m (analyse sp m)
unfolding analyse
time_analyse-SameTeams sp m = ground (
  arith,
  end_match-SameTeams sp time_up m,
  overtime-SameTeams sp m,
  next_half-SameTeams sp half_time_over m,
)

-- No goal, or one for a team that plays, with the ball over the other side's goal line.
abbrev pub ScoreStep : View → Match → Match → Type 0
ScoreStep v m n =
    ((n.team_left.point ≡ m.team_left.point) × (n.team_right.point ≡ m.team_right.point))
    ⊎ ((v.beyond_goal_line ≡ true)
        × (((v.cross_right ≡ true)
              × (n.team_left.point ≡ (inc_point m.team_left).point)
              × (n.team_right.point ≡ m.team_right.point))
            ⊎ ((v.cross_left ≡ true)
                × (n.team_left.point ≡ m.team_left.point)
                × (n.team_right.point ≡ (inc_point m.team_right).point))))

Scored-ScoreStep : (v : View) (m k n : Match) → SameTeams m k → Scored v k n → ScoreStep v m n
Scored-ScoreStep v m k n t (inl p) = inl (ground arith)
Scored-ScoreStep v m k n t (inr (b, inl (c, g))) = inr (b, inl (c, ground arith, ground arith))
Scored-ScoreStep v m k n t (inr (b, inr (c, g))) = inr (b, inr (c, ground arith, ground arith))

referees-ScoreStep :
    (sp : ServerParam) (v : View) (s : Sight) (m : Match)
    → ScoreStep v m (others_analyse sp v s (analyse sp m))
referees-ScoreStep sp v s m =
    Scored-ScoreStep v m (analyse sp m) (others_analyse sp v s (analyse sp m))
      (time_analyse-SameTeams sp m) (others_analyse-Scored sp v s (analyse sp m))

resume-ScoreStep :
    (v : View) (pm : PlayMode) (m n : Match) → ScoreStep v m n → ScoreStep v m (resume_clock pm n)
resume-ScoreStep v pm m n p = by_mode (PlayMode-discrete pm n.playmode)
  where
    by_mode :
        (d : Dec (pm ≡ n.playmode))
        → ScoreStep v m (ite d n (record n { time = suc n.time; stoppage_time = 0 }))
    by_mode (yes e) = p
    by_mode (no e) = p

-- In a cycle at most one goal is scored: the score stays, or one team has a point more, if it plays,
-- and then the ball has crossed the goal line of the other side.
pub step-ScoreStep :
    (sp : ServerParam) (v : View) (s : Sight) (m : Match) → ScoreStep v m (step sp v s m)
unfolding step
step-ScoreStep sp v s m = by_flow (flow m.playmode)
  where
    by_flow :
        (f : Flow)
        → ScoreStep v m (elim f [
          | waiting ↦
              others_analyse sp v s (analyse sp (record m { stoppage_time = suc m.stoppage_time }))
          | stopped ↦ resume_clock m.playmode (
              others_analyse sp v s (
                analyse sp (record m { ball_catcher = none; stoppage_time = suc m.stoppage_time })))
          | over ↦ record m { stoppage_time = suc m.stoppage_time }
          | running ↦
              others_analyse sp v s (analyse sp (record m { time = suc m.time; stoppage_time = 0 }))
        ])
    by_flow waiting = referees-ScoreStep sp v s (record m { stoppage_time = suc m.stoppage_time })
    by_flow stopped = resume-ScoreStep v m.playmode m _ (
        referees-ScoreStep sp v s
          (record m { ball_catcher = none; stoppage_time = suc m.stoppage_time }))
    by_flow over = inl (refl, refl)
    by_flow running = referees-ScoreStep sp v s (record m { time = suc m.time; stoppage_time = 0 })

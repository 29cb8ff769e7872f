-- ===== src/Referees/Steady.antt =====
-- The awards and the waits of the referees (src/referee.cpp) do not set the clock or the score.
use rcssserver.Base.{if◌then◌else◌, refl, Bool, true, false, ◌&&◌, ◌||◌, ℕ, arith}
use rcssserver.Mode
use rcssserver.Mode.{Side, left, neutral, right, PlayMode, opposite}
use rcssserver.Match.State.{ServerParam, Match, Spot, award_spot, emit, place_players_in_field}
use rcssserver.Match.ModeChange.{
  change_play_mode, is_penalty_shoot_out, is_play_on, is_drop_ball, place_ball, place_ball_mode,
  clear_ball_catcher,
}
use rcssserver.Match.Frame.{counted-Steady, Steady, Steady-refl, Steady-trans, change-Steady}
use rcssserver.Referees.View.{View}
use rcssserver.Referees.Awards.{
  award, award_free_kick, award_goal_kick, award_drop_ball, award_kick_in, award_corner_kick,
}
use rcssserver.Referees.Faults.{wait_fault, resume_after, clear_after}
use rcssserver.Referees.Ball.{ball_stuck_analyse}

pub place-Steady :
    (sp : ServerParam) (pm : PlayMode) (s : Side) (spot : Spot) (m : Match)
    → Steady m (place_ball_mode sp pm s spot m)
unfolding place_ball_mode
place-Steady sp pm s spot m =
    by_test (is_penalty_shoot_out m.playmode && (is_play_on pm || is_drop_ball pm))
  where
    by_test :
        (b : Bool)
        → Steady m (if b then place_ball s spot m else change_play_mode sp pm (place_ball s spot m))
    by_test true = counted-Steady m _ _ refl refl refl refl (Steady-refl (place_ball s spot m))
    by_test false =
        counted-Steady m _ _ refl refl refl refl (change-Steady sp pm (place_ball s spot m))

award-Steady :
    (sp : ServerParam) (pm : PlayMode) (s : Side) (m : Match) → Steady m (award sp pm s m)
unfolding award
award-Steady sp pm s m = place-Steady sp pm s (award_spot pm) m

pub award_free_kick-Steady :
    (sp : ServerParam) (s : Side) (m : Match) → Steady m (award_free_kick sp s m)
unfolding award_free_kick
award_free_kick-Steady sp left m = award-Steady sp Mode.free_kick_left left m
award_free_kick-Steady sp neutral m = Steady-refl m
award_free_kick-Steady sp right m = award-Steady sp Mode.free_kick_right right m

caught-Steady : (m : Match) → Steady m (clear_ball_catcher m)
caught-Steady m = ground arith

-- The awards that end a catch first.
pub cleared_award-Steady :
    (sp : ServerParam) (pm : PlayMode) (s : Side) (m : Match)
    → Steady m (award sp pm s (clear_ball_catcher m))
cleared_award-Steady sp pm s m =
    Steady-trans (caught-Steady m) (award-Steady sp pm s (clear_ball_catcher m))

pub award_goal_kick-Steady :
    (sp : ServerParam) (s : Side) (m : Match) → Steady m (award_goal_kick sp s m)
unfolding award_goal_kick
award_goal_kick-Steady sp left m = cleared_award-Steady sp _ _ m
award_goal_kick-Steady sp neutral m = cleared_award-Steady sp _ _ m
award_goal_kick-Steady sp right m = cleared_award-Steady sp _ _ m

pub award_kick_in-Steady :
    (sp : ServerParam) (s : Side) (m : Match) → Steady m (award_kick_in sp s m)
unfolding award_kick_in
award_kick_in-Steady sp left m = cleared_award-Steady sp _ _ m
award_kick_in-Steady sp neutral m = cleared_award-Steady sp _ _ m
award_kick_in-Steady sp right m = cleared_award-Steady sp _ _ m

pub award_corner_kick-Steady :
    (sp : ServerParam) (s : Side) (m : Match) → Steady m (award_corner_kick sp s m)
unfolding award_corner_kick
award_corner_kick-Steady sp left m = cleared_award-Steady sp _ _ m
award_corner_kick-Steady sp neutral m = cleared_award-Steady sp _ _ m
award_corner_kick-Steady sp right m = cleared_award-Steady sp _ _ m

pub award_drop_ball-Steady : (sp : ServerParam) (m : Match) → Steady m (award_drop_ball sp m)
unfolding award_drop_ball
award_drop_ball-Steady sp m =
    let dropped =
      emit place_players_in_field (award sp Mode.drop_ball neutral (clear_ball_catcher m)) in
    let p = cleared_award-Steady sp Mode.drop_ball neutral m in
    ground (arith, change-Steady sp Mode.play_on dropped)

pub resume-Steady :
    (sp : ServerParam) (t : ℕ) (pm : PlayMode) (m : Match) → Steady m (resume_after sp t pm m)
resume-Steady sp t pm m = ground (arith, change-Steady sp pm m)

pub clear-Steady : (t : ℕ) (s : Side) (m : Match) → Steady m (clear_after t s m)
clear-Steady t s m = ground arith

pub wait_fault-Steady :
    (sp : ServerParam) (t : ℕ) (s : Side) (pm : PlayMode) (m : Match)
    → Steady m (wait_fault sp t s pm m)
wait_fault-Steady sp t s pm m =
    Steady-trans (clear-Steady t s m) (resume-Steady sp t pm (clear_after t s m))

pub ball_stuck_analyse-Steady :
    (sp : ServerParam) (v : View) (m : Match) → Steady m (ball_stuck_analyse sp v m)
unfolding ball_stuck_analyse
ball_stuck_analyse-Steady sp v m =
    ground (arith, award_drop_ball-Steady sp (record m { ball_stuck_counter = 0 }))

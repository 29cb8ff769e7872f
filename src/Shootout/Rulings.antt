-- ===== src/Shootout/Rulings.antt =====
-- The rulings in a cycle of the shoot-out (PenaltyRef of src/referee.cpp) keep its books: a kick that
-- is scored or missed, a foul, and the end of a phase.
use rcssserver.Base.{◌≡◌, refl, ap, subst, ◌∙◌, Bool, true, false, arith, if◌then◌else◌}
use rcssserver.Mode
use rcssserver.Mode.{
  Side, left, neutral, right, PlayMode, Phase, setup, ready, taken, miss, score, no_phase, phase,
  opposite, same_side,
}
use rcssserver.Match.State.{ServerParam, Match}
use rcssserver.Match.ModeChange.{change_play_mode}
use rcssserver.Match.Frame.{change_play_mode-Changed}
use rcssserver.Shootout.Scoring.{penalty_score, penalty_miss, penalty_foul, penalty_init}
use rcssserver.Shootout.Events.{freeze_ball}
use rcssserver.Shootout.Analyse.{place_both, misplaced_foul, time_elapsed, goal_scored, kick_missed}
use rcssserver.Shootout.Tally.{
  Pending, Inv, mode_side, penalty_score-Inv, penalty_miss-Inv, penalty_init-Inv,
}
use rcssserver.Shootout.Invariant.{is_open, open-Pending, foul-Inv, freeze_ball-Inv}

pub place_both-Inv :
    (sp : ServerParam) (a b : Bool) (m : Match) → Inv sp m → Inv sp (place_both a b m)
place_both-Inv sp a b m i = ground arith

place_both-penalty : (a b : Bool) (m : Match) → (place_both a b m).penalty ≡ m.penalty
place_both-penalty a b m = ground arith

place_both-playmode : (a b : Bool) (m : Match) → (place_both a b m).playmode ≡ m.playmode
place_both-playmode a b m = ground arith

pub misplaced_foul-Inv :
    (sp : ServerParam) (coin a b : Bool) (m : Match)
    → Inv sp m
    → is_open (phase m.playmode) ≡ true
    → Inv sp (misplaced_foul sp coin a b m)
unfolding misplaced_foul
misplaced_foul-Inv sp coin a b m i h = ruled m.penalty.cur_pen_taker
  where
    ruled :
        (s : Side)
        → Inv sp (elim s [
          | left ↦ penalty_foul sp coin (if a then right else left) m
          | neutral ↦ m
          | right ↦ penalty_foul sp coin (if b then left else right) m
        ])
    ruled left = foul-Inv sp coin m i (if a then right else left) h (λ e. ground arith)
    ruled neutral = i
    ruled right = foul-Inv sp coin m i (if b then left else right) h (λ e. ground arith)

mode_miss-Inv :
    (sp : ServerParam) (coin : Bool) (s : Side) (m : Match)
    → Inv sp m
    → is_open (phase m.playmode) ≡ true
    → m.penalty.cur_pen_taker ≡ s
    → Inv sp (penalty_miss sp coin s m)
mode_miss-Inv sp coin s m i h e =
    penalty_miss-Inv sp coin s m i.tally (subst (λ t. Pending sp t m) e (open-Pending sp m i h))

-- A mode that names the side in turn.
miss_of-Inv :
    (sp : ServerParam) (coin : Bool) (s : Side) (pm : PlayMode) (m : Match)
    → Inv sp m
    → m.playmode ≡ pm
    → is_open (phase pm) ≡ true
    → mode_side pm ≡ s
    → Inv sp (penalty_miss sp coin s m)
miss_of-Inv sp coin s pm m i e h side =
    mode_miss-Inv sp coin s m i (ap (λ q. is_open (phase q)) e ∙ h) (ground arith)

score_of-Inv :
    (sp : ServerParam) (coin : Bool) (s : Side) (pm : PlayMode) (m : Match)
    → Inv sp m
    → m.playmode ≡ pm
    → is_open (phase pm) ≡ true
    → mode_side pm ≡ s
    → Inv sp (penalty_score sp coin s m)
score_of-Inv sp coin s pm m i e h side = penalty_score-Inv sp coin s m i.tally (
    subst (λ t. Pending sp t m) (ground arith)
      (open-Pending sp m i (ap (λ q. is_open (phase q)) e ∙ h)))

unfoldable pub is_booked : Phase → Bool
is_booked miss = true
is_booked score = true
is_booked _ = false

pub init_of-Inv :
    (sp : ServerParam) (m : Match)
    → Inv sp m
    → m.penalty.timeover ≡ false
    → is_booked (phase m.playmode) ≡ true
    → Inv sp (penalty_init sp m)
unfolding is_booked
init_of-Inv sp m i o h = penalty_init-Inv sp m.penalty.cur_pen_taker m i.tally (ground arith) o

pub time_elapsed-Inv :
    (sp : ServerParam) (coin : Bool) (m : Match) → Inv sp m → Inv sp (time_elapsed sp coin m)
unfolding time_elapsed
time_elapsed-Inv sp coin m i = ruled m.playmode refl
  where
    ruled :
        (pm : PlayMode)
        → m.playmode ≡ pm
        → Inv sp (elim pm [
          | Mode.penalty_setup_left ↦ change_play_mode sp Mode.penalty_ready_left m
          | Mode.penalty_setup_right ↦ change_play_mode sp Mode.penalty_ready_right m
          | Mode.penalty_taken_left ↦ penalty_miss sp coin left m
          | Mode.penalty_ready_left ↦ penalty_miss sp coin left m
          | Mode.penalty_taken_right ↦ penalty_miss sp coin right m
          | Mode.penalty_ready_right ↦ penalty_miss sp coin right m
          | _ ↦ m
        ])
    ruled Mode.penalty_setup_left e =
        ground (arith, change_play_mode-Changed sp Mode.penalty_ready_left m)
    ruled Mode.penalty_setup_right e =
        ground (arith, change_play_mode-Changed sp Mode.penalty_ready_right m)
    ruled Mode.penalty_taken_left e = miss_of-Inv sp coin left _ m i e refl refl
    ruled Mode.penalty_ready_left e = miss_of-Inv sp coin left _ m i e refl refl
    ruled Mode.penalty_taken_right e = miss_of-Inv sp coin right _ m i e refl refl
    ruled Mode.penalty_ready_right e = miss_of-Inv sp coin right _ m i e refl refl
    ruled _ e = i

pub goal_scored-Inv :
    (sp : ServerParam) (coin : Bool) (m : Match) → Inv sp m → Inv sp (goal_scored sp coin m)
unfolding goal_scored
goal_scored-Inv sp coin m i = let booked = ruled m.playmode refl in freeze_ball-Inv sp _ _ booked
  where
    ruled :
        (pm : PlayMode)
        → m.playmode ≡ pm
        → Inv sp (elim pm [
          | Mode.penalty_taken_left ↦ penalty_score sp coin left m
          | Mode.penalty_taken_right ↦ penalty_score sp coin right m
          | _ ↦ m
        ])
    ruled Mode.penalty_taken_left e = score_of-Inv sp coin left _ m i e refl refl
    ruled Mode.penalty_taken_right e = score_of-Inv sp coin right _ m i e refl refl
    ruled _ e = i

pub kick_missed-Inv :
    (sp : ServerParam) (coin : Bool) (m : Match) → Inv sp m → Inv sp (kick_missed sp coin m)
unfolding kick_missed
kick_missed-Inv sp coin m i = ruled m.playmode refl
  where
    frozen : Match
    frozen = freeze_ball m.penalty.pen_side m

    kept : Inv sp frozen
    kept = freeze_ball-Inv sp m.penalty.pen_side m i

    ruled :
        (pm : PlayMode)
        → m.playmode ≡ pm
        → Inv sp (elim pm [
          | Mode.penalty_taken_left ↦ penalty_miss sp coin left frozen
          | Mode.penalty_taken_right ↦ penalty_miss sp coin right frozen
          | _ ↦ frozen
        ])
    ruled Mode.penalty_taken_left e = miss_of-Inv sp coin left _ frozen kept e refl refl
    ruled Mode.penalty_taken_right e = miss_of-Inv sp coin right _ frozen kept e refl refl
    ruled _ e = kept

-- ===== src/Match/Frame.antt =====
-- What a change of play mode (src/stadium.cpp and src/referee.cpp) leaves alone.
use rcssserver.Base.{ℕ, ◌≡◌, inl, inr, arith, Bool-cases, if◌then◌else◌}
use rcssserver.Mode.{Side, PlayMode, phase}
use rcssserver.Match.State.{ServerParam, Match, PenaltyRef}
use rcssserver.Match.ModeChange.{
  clear_for_kick, free_kick_change, offside_change, illegal_defense_change, touch_change,
  catch_change, foul_change, reset_field, keepaway_change, penalty_change, announce_mode,
  change_play_mode, phase_timer, phase_taker, is_penalty_shoot_out,
}

-- The part of the match that the score, the clock and the shoot-out live in.
pub record Same (m n : Match) : Type 0 where
  pub same_mode : n.playmode ≡ m.playmode
  pub same_time : n.time ≡ m.time
  pub same_left : n.team_left ≡ m.team_left
  pub same_right : n.team_right ≡ m.team_right
  pub same_count : n.half_time_count ≡ m.half_time_count
  pub same_penalty : n.penalty ≡ m.penalty

Same-refl : (m : Match) → Same m m
Same-refl m = ground arith

Same-trans : {l m n : Match} → Same l m → Same m n → Same l n
Same-trans p q = ground arith

offside_change-Same : (pm : PlayMode) (m : Match) → Same m (offside_change pm m)
unfolding offside_change
offside_change-Same pm m = ground arith

illegal_defense_change-Same : (pm : PlayMode) (m : Match) → Same m (illegal_defense_change pm m)
unfolding illegal_defense_change
illegal_defense_change-Same pm m = ground arith

clear_for_kick-Same : (pm : PlayMode) (m : Match) → Same m (clear_for_kick pm m)
clear_for_kick-Same pm m = ground arith

free_kick_change-Same :
    (sp : ServerParam) (pm : PlayMode) (m : Match) → Same m (free_kick_change sp pm m)
unfolding free_kick_change
free_kick_change-Same sp pm m = ground (arith, clear_for_kick-Same pm m)

touch_change-Same : (pm : PlayMode) (m : Match) → Same m (touch_change pm m)
unfolding touch_change
touch_change-Same pm m = ground arith

catch_change-Same : (pm : PlayMode) (m : Match) → Same m (catch_change pm m)
unfolding catch_change
catch_change-Same pm m = ground arith

foul_change-Same : (pm : PlayMode) (m : Match) → Same m (foul_change pm m)
unfolding foul_change
foul_change-Same pm m = ground arith

keepaway_change-Same :
    (sp : ServerParam) (pm : PlayMode) (m : Match) → Same m (keepaway_change sp pm m)
unfolding keepaway_change reset_field
keepaway_change-Same sp pm m = ground arith

-- What the shoot-out keeps when the mode becomes `pm`.
abbrev after_change : ServerParam → PlayMode → PenaltyRef → PenaltyRef
after_change sp pm r =
    if is_penalty_shoot_out pm
    then record r {
      timer = phase_timer sp (phase pm) r.timer;
      last_taker = phase_taker (phase pm) r.last_taker;
    }
    else r

pub record Changed (sp : ServerParam) (pm : PlayMode) (m n : Match) : Type 0 where
  pub new_mode : n.playmode ≡ pm
  pub kept_time : n.time ≡ m.time
  pub kept_left : n.team_left ≡ m.team_left
  pub kept_right : n.team_right ≡ m.team_right
  pub kept_count : n.half_time_count ≡ m.half_time_count
  pub new_penalty : n.penalty ≡ after_change sp pm m.penalty

penalty_change-Changed :
    (sp : ServerParam) (pm : PlayMode) (m n : Match)
    → Same (record m { playmode = pm }) n
    → Changed sp pm m (penalty_change sp pm n)
unfolding penalty_change
penalty_change-Changed sp pm m n s =
    let e : n.playmode ≡ pm = s.same_mode in
    let p : n.penalty ≡ m.penalty = s.same_penalty in
    elim (Bool-cases (is_penalty_shoot_out pm)) [ inl b ↦ ground arith | inr b ↦ ground arith ]

announce_mode-Changed :
    (sp : ServerParam) (pm : PlayMode) (m n : Match) (s : Side) (t : ℕ)
    → Changed sp pm m n
    → Changed sp pm m (announce_mode pm (record n { kick_off_side = s; last_playon_start = t }))
announce_mode-Changed sp pm m n s t c = ground arith

referees-Same :
    (sp : ServerParam) (pm : PlayMode) (m : Match)
    → Same m (
        keepaway_change sp pm (
          illegal_defense_change pm (
            foul_change pm
              (catch_change pm (touch_change pm (free_kick_change sp pm (offside_change pm m)))))))
referees-Same sp pm m = Same-trans (offside_change-Same pm m) (
    Same-trans (free_kick_change-Same sp pm _) (
      Same-trans (touch_change-Same pm _) (
        Same-trans (catch_change-Same pm _) (
          Same-trans (foul_change-Same pm _)
            (Same-trans (illegal_defense_change-Same pm _) (keepaway_change-Same sp pm _))))))

pub change_play_mode-Changed :
    (sp : ServerParam) (pm : PlayMode) (m : Match) → Changed sp pm m (change_play_mode sp pm m)
unfolding change_play_mode
change_play_mode-Changed sp pm m =
    announce_mode-Changed sp pm m _ _ _
      (penalty_change-Changed sp pm m _ (referees-Same sp pm (record m { playmode = pm })))

-- The clock, the count of halves and the score are left alone.
pub record Steady (m n : Match) : Type 0 where
  pub same_time : n.time ≡ m.time
  pub same_count : n.half_time_count ≡ m.half_time_count
  pub same_left : n.team_left.point ≡ m.team_left.point
  pub same_right : n.team_right.point ≡ m.team_right.point
  pub left_plays : n.team_left.enabled ≡ m.team_left.enabled
  pub right_plays : n.team_right.enabled ≡ m.team_right.enabled

pub Steady-refl : (m : Match) → Steady m m
Steady-refl m = ground arith

pub Steady-trans : {l m n : Match} → Steady l m → Steady m n → Steady l n
Steady-trans p q = ground arith

pub change-Steady :
    (sp : ServerParam) (pm : PlayMode) (m : Match) → Steady m (change_play_mode sp pm m)
change-Steady sp pm m = ground (arith, change_play_mode-Changed sp pm m)

-- A change of other fields first.
pub counted-Steady :
    (m k n : Match)
    → n.time ≡ m.time
    → n.half_time_count ≡ m.half_time_count
    → n.team_left ≡ m.team_left
    → n.team_right ≡ m.team_right
    → Steady n k
    → Steady m k
counted-Steady m k n t c l r p = ground arith

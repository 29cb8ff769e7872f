-- ===== src/Shootout/Invariant.antt =====
-- Every event of a shoot-out keeps its books (PenaltyRef of src/referee.cpp).
use rcssserver.Base.{
  ◌≡◌, ◌≢◌, refl, ap, Bool, true, false, not, ◌&&◌, ◌||◌, is_some, arith, if◌then◌else◌, if_elim,
}
use rcssserver.Mode
use rcssserver.Mode.{
  Side, left, neutral, right, PlayMode, Phase, setup, ready, taken, miss, score, no_phase, phase,
  opposite, same_side,
}
use rcssserver.Match.State.{ServerParam, Player, Match}
use rcssserver.Match.ModeChange.{is_penalty_shoot_out}
use rcssserver.Match.Frame.{change_play_mode-Changed}
use rcssserver.Shootout.Scoring.{penalty_miss, penalty_foul}
use rcssserver.Shootout.Events.{
  freeze_ball, is_phase, ball_caught, has_kicked, other_kicker, set_last_taker, judge_kick,
  judge_open_kick, catch_of_kick, note_left_kicker, note_right_kicker, start_kick, kick_taken,
  tackle_taken,
}
use rcssserver.Shootout.Tally.{Pending, Inv, penalty_miss-Inv, penalty_foul-Inv}

-- The modes in which a kick is still to be booked.
abbrev pub is_open : Phase → Bool
is_open setup = true
is_open ready = true
is_open taken = true
is_open _ = false

pub open-Pending :
    (sp : ServerParam) (m : Match)
    → Inv sp m
    → is_open (phase m.playmode) ≡ true
    → Pending sp m.penalty.cur_pen_taker m
open-Pending sp m i h = ground arith

Pending-ne-neutral : (sp : ServerParam) (s : Side) (m : Match) → Pending sp s m → s ≢ neutral
Pending-ne-neutral sp neutral m p e = p.2
Pending-ne-neutral sp _ m p e = cc

-- In an open mode, a foul of a side that plays and a miss of the side in turn keep the books.
module _ (sp : ServerParam) (coin : Bool) (m : Match) (i : Inv sp m) where
  pub foul-Inv :
      (s : Side)
      → is_open (phase m.playmode) ≡ true
      → s ≢ neutral
      → Inv sp (penalty_foul sp coin s m)
  foul-Inv s h n = penalty_foul-Inv sp coin s _ m n i.tally (open-Pending sp m i h)

  taker_foul-Inv :
      is_open (phase m.playmode) ≡ true → Inv sp (penalty_foul sp coin m.penalty.cur_pen_taker m)
  taker_foul-Inv h = foul-Inv _ h (Pending-ne-neutral sp _ m (open-Pending sp m i h))

  opponent_foul-Inv :
      is_open (phase m.playmode) ≡ true
      → Inv sp (penalty_foul sp coin (opposite m.penalty.cur_pen_taker) m)
  opponent_foul-Inv h =
      let p = Pending-ne-neutral sp _ m (open-Pending sp m i h) in foul-Inv _ h (λ e. ground arith)

  taker_miss-Inv :
      is_open (phase m.playmode) ≡ true → Inv sp (penalty_miss sp coin m.penalty.cur_pen_taker m)
  taker_miss-Inv h = penalty_miss-Inv sp coin _ m i.tally (open-Pending sp m i h)

pub freeze_ball-Inv :
    (sp : ServerParam) (s : Side) (m : Match) → Inv sp m → Inv sp (freeze_ball s m)
freeze_ball-Inv sp s m i = ground arith

set_last_taker-Inv :
    (sp : ServerParam) (p : Player) (m : Match) → Inv sp m → Inv sp (set_last_taker p m)
set_last_taker-Inv sp p m i = ground arith

judge_open_kick-Inv :
    (sp : ServerParam) (coin : Bool) (kicker : Player) (m : Match)
    → Inv sp m
    → is_open (phase m.playmode) ≡ true
    → Inv sp (judge_open_kick sp coin kicker m)
unfolding judge_open_kick
judge_open_kick-Inv sp coin kicker m i h =
    let taker = m.penalty.cur_pen_taker in
    let again =
      is_phase (phase m.playmode) ready && (same_side kicker.side taker && has_kicked kicker m) in
    if_elim (Inv sp) again (λ _. taker_foul-Inv sp coin m i h)
      λ _.
        if_elim (Inv sp) (other_kicker kicker taker m.penalty.last_taker)
          (λ _. taker_foul-Inv sp coin m i h)
          λ _.
            if_elim (Inv sp) (not (same_side kicker.side taker) && not kicker.goalie)
              (λ _. opponent_foul-Inv sp coin m i h) λ _. set_last_taker-Inv sp kicker m i

is_open_setup : (p : Phase) → is_phase p setup ≡ true → is_open p ≡ true
is_open_setup p h = ground arith

is_open_taken : (p : Phase) (a b : Bool) → a && (is_phase p taken && b) ≡ true → is_open p ≡ true
is_open_taken p a b h = ground arith

is_open_rest : (p : Phase) → (is_phase p ready || is_phase p taken) ≡ true → is_open p ≡ true
is_open_rest p h = ground arith

judge_kick-Inv :
    (sp : ServerParam) (coin : Bool) (kicker : Player) (m : Match)
    → kicker.side ≢ neutral
    → Inv sp m
    → Inv sp (judge_kick sp coin kicker m)
unfolding judge_kick
judge_kick-Inv sp coin kicker m n i =
    let ph = phase m.playmode in
    let own = same_side kicker.side m.penalty.cur_pen_taker in
    let single = not sp.pen_allow_mult_kicks in
    if_elim (Inv sp) (is_some m.ball_catcher) (λ _. i)
      λ _.
        if_elim (Inv sp) (is_phase ph setup)
          (λ h. foul-Inv sp coin m i kicker.side (is_open_setup ph h) n)
          λ _.
            if_elim (Inv sp) (single && (is_phase ph taken && own))
              (λ h. taker_foul-Inv sp coin m i (is_open_taken ph single own h))
              λ _.
                if_elim (Inv sp) (is_phase ph ready || is_phase ph taken)
                  (λ h. judge_open_kick-Inv sp coin kicker m i (is_open_rest ph h)) λ _. i

-- A kick in a ready mode begins it; in any other mode nothing of the books changes.
start_kick-Inv :
    (sp : ServerParam) (kicker : Player) (m : Match) → Inv sp m → Inv sp (start_kick sp kicker m)
unfolding start_kick
start_kick-Inv sp kicker m i = ground (
  arith,
  change_play_mode-Changed sp Mode.penalty_taken_left (note_left_kicker kicker m),
  change_play_mode-Changed sp Mode.penalty_taken_right (note_right_kicker kicker m),
)

pub kick_taken-Inv :
    (sp : ServerParam) (coin : Bool) (kicker : Player) (m : Match)
    → kicker.side ≢ neutral
    → Inv sp m
    → Inv sp (kick_taken sp coin kicker m)
unfolding kick_taken
kick_taken-Inv sp coin kicker m n i =
    if_elim (Inv sp) (is_penalty_shoot_out m.playmode)
      (λ _. start_kick-Inv sp kicker _ (judge_kick-Inv sp coin kicker m n i)) λ _. i

catch_of_kick-Inv :
    (sp : ServerParam) (coin in_area : Bool) (catcher : Player) (m : Match)
    → Inv sp m
    → is_open (phase m.playmode) ≡ true
    → Inv sp (catch_of_kick sp coin in_area catcher m)
unfolding catch_of_kick
catch_of_kick-Inv sp coin in_area catcher m i h =
    if_elim (Inv sp) (same_side catcher.side m.penalty.cur_pen_taker)
      (λ _. taker_foul-Inv sp coin m i h)
      λ _.
        if_elim (Inv sp) (not in_area) (λ _. opponent_foul-Inv sp coin m i h)
          λ _. taker_miss-Inv sp coin m i h

pub ball_caught-Inv :
    (sp : ServerParam) (coin in_area : Bool) (catcher : Player) (m : Match)
    → catcher.side ≢ neutral
    → Inv sp m
    → Inv sp (ball_caught sp coin in_area catcher m)
unfolding ball_caught
ball_caught-Inv sp coin in_area catcher m n i =
    if_elim (Inv sp) (is_penalty_shoot_out m.playmode)
      (λ _. freeze_ball-Inv sp neutral _ (ruled (phase m.playmode) refl)) λ _. i
  where
    ruled :
        (ph : Phase)
        → phase m.playmode ≡ ph
        → Inv sp (elim ph [
          | taken ↦ catch_of_kick sp coin in_area catcher m
          | ready ↦ penalty_foul sp coin catcher.side m
          | _ ↦ m
        ])
    ruled taken e = catch_of_kick-Inv sp coin in_area catcher m i (ap is_open e)
    ruled ready e = foul-Inv sp coin m i catcher.side (ap is_open e) n
    ruled _ e = i

pub tackle_taken-Inv :
    (sp : ServerParam) (coin detected : Bool) (tackler : Player) (m : Match)
    → tackler.side ≢ neutral
    → Inv sp m
    → Inv sp (tackle_taken sp coin detected tackler m)
unfolding tackle_taken
tackle_taken-Inv sp coin detected tackler m n i = by_cases (phase m.playmode) refl
  where
    open m use {penalty as r}

    after : Match
    after =
        if detected
        then (if same_side tackler.side r.cur_pen_taker
            then penalty_foul sp coin r.cur_pen_taker m
            else penalty_foul sp coin (opposite r.cur_pen_taker) m)
        else kick_taken sp coin tackler m

    tackled : is_open (phase m.playmode) ≡ true → Inv sp after
    tackled h =
        if_elim (Inv sp) detected
          (λ _.
            if_elim (Inv sp) (same_side tackler.side r.cur_pen_taker)
              (λ _. taker_foul-Inv sp coin m i h) λ _. opponent_foul-Inv sp coin m i h)
          λ _. kick_taken-Inv sp coin tackler m n i

    by_cases :
        (ph : Phase)
        → phase m.playmode ≡ ph
        → Inv sp (elim ph [ no_phase ↦ m | miss ↦ m | score ↦ m | _ ↦ after ])
    by_cases no_phase e = i
    by_cases miss e = i
    by_cases score e = i
    by_cases _ e = tackled (ap is_open e)

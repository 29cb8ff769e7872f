-- ===== src/Shootout/Cycle.antt =====
-- A cycle of `PenaltyRef::analyse` (src/referee.cpp) keeps the books of the shoot-out.
use rcssserver.Base.{
  ℕ, zero, suc, ◌≡◌, refl, ap, ◌∙◌, Bool, true, false, ◌&&◌, ◌||◌, ℤ, pos, negsuc, arith,
  if◌then◌else◌, if_elim,
}
use rcssserver.Mode
use rcssserver.Mode.{
  Side, left, neutral, right, PlayMode, Phase, setup, ready, taken, miss, score, no_phase, phase,
  opposite, same_side,
}
use rcssserver.Match.State.{ServerParam, Match}
use rcssserver.Match.ModeChange.{change_play_mode, is_penalty_shoot_out}
use rcssserver.Match.Frame.{change_play_mode-Changed}
use rcssserver.Shootout.Scoring.{penalty_init}
use rcssserver.Shootout.Events.{freeze_ball}
use rcssserver.Shootout.Analyse.{
  Sight, set_timer, misplaced_foul, time_elapsed, handle_timeout, watch, coach_places,
  coach_in_setup, handle_timer, by_timer, is_ready_or_taken, analyse_impl, shootout_due, draw_sides,
  clear_first_time, start_penalty_shootout, analyse,
}
use rcssserver.Shootout.Tally.{Tally, Outside, Inv, penalty_init-Changed}
use rcssserver.Shootout.Invariant.{is_open, freeze_ball-Inv}
use rcssserver.Shootout.Rulings.{
  place_both-Inv, misplaced_foul-Inv, is_booked, init_of-Inv, time_elapsed-Inv, goal_scored-Inv,
  kick_missed-Inv,
}

set_timer-Inv : (sp : ServerParam) (t : ℤ) (m : Match) → Inv sp m → Inv sp (set_timer t m)
set_timer-Inv sp t m i = ground arith

ready_or_taken-is_open : (p : Phase) → is_ready_or_taken p ≡ true → is_open p ≡ true
ready_or_taken-is_open p h = ground arith

watch-Inv :
    (sp : ServerParam) (s : Sight) (a b : Bool) (m : Match) → Inv sp m → Inv sp (watch sp s a b m)
unfolding watch
watch-Inv sp s a b m i =
    if_elim (Inv sp) (a && b)
      (λ _.
        if_elim (Inv sp) s.crossed (λ _. goal_scored-Inv sp s.coin m i)
          λ _. if_elim (Inv sp) s.out_of_pitch (λ _. kick_missed-Inv sp s.coin m i) λ _. i)
      λ _.
        if_elim (Inv sp) (is_ready_or_taken (phase m.playmode))
          (λ h.
            if_elim (Inv sp) sp.pen_coach_moves_players (λ _. place_both-Inv sp a b m i)
              λ _.
                misplaced_foul-Inv sp s.coin a b m i (ready_or_taken-is_open (phase m.playmode) h))
          λ _. i

handle_timer-Inv :
    (sp : ServerParam) (s : Sight) (a b : Bool) (t : ℕ) (m : Match)
    → Inv sp m
    → Inv sp (handle_timer sp s a b t m)
unfolding handle_timer
handle_timer-Inv sp s a b t m0 i0 = ruled (phase m.playmode)
  where
    m : Match
    m = set_timer (pos t) m0

    i : Inv sp m
    i = set_timer-Inv sp (pos t) m0 i0

    ruled :
        (ph : Phase)
        → Inv sp (elim ph [
          | score ↦ freeze_ball m.penalty.cur_pen_taker m
          | miss ↦ freeze_ball m.penalty.cur_pen_taker m
          | _ ↦ watch sp s a b m
        ])
    ruled score = freeze_ball-Inv sp _ m i
    ruled miss = freeze_ball-Inv sp _ m i
    ruled _ = watch-Inv sp s a b m i

coach_places-Inv :
    (sp : ServerParam) (c a b : Bool) (m : Match) → Inv sp m → Inv sp (coach_places c a b m)
coach_places-Inv sp true a b m i = place_both-Inv sp a b m i
coach_places-Inv sp false a b m i = i

handle_timeout-Inv :
    (sp : ServerParam) (coin a b : Bool) (m : Match)
    → Inv sp m
    → m.penalty.timeover ≡ false
    → is_penalty_shoot_out m.playmode ≡ true
    → Inv sp (handle_timeout sp coin a b m)
unfolding handle_timeout is_booked
handle_timeout-Inv sp coin a b m i o shoot_out = ruled (phase m.playmode) refl
  where
    c : Bool
    c = coach_in_setup sp m

    placed : Match
    placed = coach_places c a b m

    kept : Inv sp placed
    kept = coach_places-Inv sp c a b m i

    over : placed.penalty.timeover ≡ false
    over = ground arith

    mode : placed.playmode ≡ m.playmode
    mode = ground arith

    ruled :
        (ph : Phase)
        → phase m.playmode ≡ ph
        → Inv sp (elim ph [
          | miss ↦ penalty_init sp placed
          | score ↦ penalty_init sp placed
          | _ ↦
              if c || (a && b)
              then time_elapsed sp coin placed
              else misplaced_foul sp coin a b placed
        ])
    ruled miss e = init_of-Inv sp placed kept over (ap is_booked (ap phase mode ∙ e))
    ruled score e = init_of-Inv sp placed kept over (ap is_booked (ap phase mode ∙ e))
    ruled no_phase e = absurd (ground arith)
    ruled _ e =
        if_elim (Inv sp) (c || (a && b)) (λ _. time_elapsed-Inv sp coin placed kept)
          λ _. misplaced_foul-Inv sp coin a b placed kept (ap is_open (ap phase mode ∙ e))

by_timer-Inv :
    (sp : ServerParam) (s : Sight) (a b : Bool) (t : ℤ) (m : Match)
    → Inv sp m
    → m.penalty.timeover ≡ false
    → is_penalty_shoot_out m.playmode ≡ true
    → Inv sp (by_timer sp s a b t m)
unfolding by_timer
by_timer-Inv sp s a b (negsuc n) m i o h = i
by_timer-Inv sp s a b (pos zero) m i o h = handle_timeout-Inv sp s.coin a b m i o h
by_timer-Inv sp s a b (pos (suc t)) m i o h = handle_timer-Inv sp s a b t m i

over-Inv :
    (sp : ServerParam) (m : Match)
    → Inv sp m
    → is_penalty_shoot_out m.playmode ≡ true
    → Inv sp (change_play_mode sp Mode.time_over m)
over-Inv sp m i h = ground (arith, change_play_mode-Changed sp Mode.time_over m)

analyse_impl-Inv :
    (sp : ServerParam) (s : Sight) (m : Match) → Inv sp m → Inv sp (analyse_impl sp s m)
unfolding analyse_impl
analyse_impl-Inv sp s m i =
    if_elim (Inv sp) (is_penalty_shoot_out m.playmode)
      (λ h.
        if_elim (Inv sp) m.penalty.timeover (λ _. over-Inv sp m i h)
          λ o.
            by_timer-Inv sp s (c || s.left_ok) (c || s.right_ok) m.penalty.timer
              (coach_places c s.left_ok s.right_ok m) (coach_places-Inv sp c _ _ m i) (ground arith)
              (ground arith))
      λ _. i
  where
    c : Bool
    c = sp.pen_coach_moves_players && is_ready_or_taken (phase m.playmode)

-- The first turn, where nothing is booked yet.
begin-Inv :
    (sp : ServerParam) (s : Sight) (m : Match)
    → Tally m
    → m.penalty.pen_nr_taken ≡ 0
    → m.penalty.timeover ≡ false
    → Inv sp (clear_first_time (penalty_init sp (draw_sides s m)))
begin-Inv sp s m t n o = by_coin s.taker_coin refl
  where
    by_coin :
        (b : Bool) → s.taker_coin ≡ b → Inv sp (clear_first_time (penalty_init sp (draw_sides s m)))
    by_coin true e = ground (arith, penalty_init-Changed sp (draw_sides s m))
    by_coin false e = ground (arith, penalty_init-Changed sp (draw_sides s m))

first-Outside :
    (sp : ServerParam) (m : Match) → Inv sp m → m.penalty.first_time ≡ true → Outside sp m
first-Outside sp m i h = ground arith

start_penalty_shootout-Inv :
    (sp : ServerParam) (s : Sight) (m : Match) → Inv sp m → Inv sp (start_penalty_shootout sp s m)
unfolding start_penalty_shootout
start_penalty_shootout-Inv sp s m i =
    if_elim (Inv sp) (shootout_due sp m)
      (λ h.
        let first : m.penalty.first_time ≡ true = ground arith in
        let fresh = (first-Outside sp m i first).0 first in
        begin-Inv sp s m i.tally fresh.0 fresh.1)
      λ _. i

pub analyse-Inv : (sp : ServerParam) (s : Sight) (m : Match) → Inv sp m → Inv sp (analyse sp s m)
unfolding analyse
analyse-Inv sp s m i = analyse_impl-Inv sp s _ (start_penalty_shootout-Inv sp s m i)

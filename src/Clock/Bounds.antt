-- ===== src/Clock/Bounds.antt =====
-- The clock stays in the half that `TimeRef` (src/referee.cpp) counts.
use rcssserver.Base.{
  ℕ, suc, ◌+◌, ◌-◌, ◌*◌, ◌≤◌, ◌<◌, ◌≡◌, ap, ◌⊎◌, inl, inr, Bool, true, false, not, ◌&&◌, ◌||◌, leb,
  ◌==◌, is_positive, arith, if_elim,
}
use mathlib.Core.Option
use rcssserver.Base.{mul_mono, mul-sub}
use rcssserver.Mode
use rcssserver.Mode.{Side, PlayMode}
use rcssserver.Match.State.{
  ServerParam, Match, Announcement, centre, audio, time_up, time_up_without_a_team, time_extended,
  half_time_over, emit,
}
use rcssserver.Match.ModeChange.{place_ball}
use rcssserver.Match.Frame.{change_play_mode-Changed}
use rcssserver.Clock.Halves.{
  half_length, normal_time, maximum_time, half_start, call_half_time, is_clock_stopped, half_side,
  end_match, next_half, is_tied, analyse_overtime, analyse,
}

half_start_mono : (sp : ServerParam) (c : ℕ) → half_start sp c ≤ half_start sp (suc c)
half_start_mono sp c = ground (
  arith,
  mul_mono (half_length sp) c sp.nr_normal_halfs,
  mul_mono (half_length sp) c (suc c),
  mul_mono sp.extra_half_time (c - sp.nr_normal_halfs) (suc c - sp.nr_normal_halfs),
)

-- The match is over, or regular and extra time are, or the time is in the half that is counted.
abbrev pub InHalf : ServerParam → Match → Type 0
InHalf sp m =
    (m.playmode ≡ Mode.time_over)
    ⊎ ((maximum_time sp ≤ m.time)
        ⊎ ((half_start sp m.half_time_count ≤ m.time)
            × (m.time ≤ half_start sp (suc m.half_time_count))))

end_match-InHalf : (sp : ServerParam) (a : Announcement) (m : Match) → InHalf sp (end_match sp a m)
end_match-InHalf sp a m = inl (change_play_mode-Changed sp Mode.time_over _).new_mode

pub call_half_time_fields :
    (sp : ServerParam) (s : Side) (c : ℕ) (m : Match)
    → let n = call_half_time sp s c m in
      (n.playmode ≡ Mode.before_kick_off)
      × (n.time ≡ half_start sp c)
      × (n.half_time_count ≡ m.half_time_count)
      × (n.team_left ≡ m.team_left)
      × (n.team_right ≡ m.team_right)
      × (n.penalty ≡ m.penalty)
unfolding call_half_time
call_half_time_fields sp s c m = ground (
  arith,
  change_play_mode-Changed sp Mode.before_kick_off
      (place_ball s centre (record m { ball_catcher = Option.none })),
)

pub next_half_fields :
    (sp : ServerParam) (a : Announcement) (m : Match)
    → let n = next_half sp a m in
      (n.playmode ≡ Mode.before_kick_off)
      × (n.half_time_count ≡ suc m.half_time_count)
      × (n.time ≡ half_start sp (suc m.half_time_count))
next_half_fields sp a m =
    let count = suc m.half_time_count in
    let f =
      call_half_time_fields sp (half_side count) count
        (emit (audio a) (record m { half_time_count = count })) in
    (f.0, f.2, f.1)

at_start-InHalf :
    (sp : ServerParam) (c : ℕ) (n : Match)
    → n.half_time_count ≡ c
    → n.time ≡ half_start sp c
    → InHalf sp n
at_start-InHalf sp c n e t =
    let here = ap (half_start sp) e in
    let next = ap (λ k. half_start sp (suc k)) e in
    inr (inr (omega (arith, here), omega (arith, next, half_start_mono sp c)))

next_half-InHalf : (sp : ServerParam) (a : Announcement) (m : Match) → InHalf sp (next_half sp a m)
next_half-InHalf sp a m =
    let f = next_half_fields sp a m in
    at_start-InHalf sp (suc m.half_time_count) (next_half sp a m) f.1 f.2

-- Extra time goes on, and the half that is counted ends later.
overtime_left :
    (sp : ServerParam) (m : Match)
    → normal_time sp ≤ m.time
    → m.time + sp.extra_half_time * sp.nr_normal_halfs
      < normal_time sp + sp.extra_half_time * suc m.half_time_count
    → m.time ≤ half_start sp (suc m.half_time_count)
overtime_left sp m lo hi = ground (
  arith,
  mul-sub sp.extra_half_time (suc m.half_time_count) sp.nr_normal_halfs,
  mul_mono sp.extra_half_time (suc m.half_time_count) sp.nr_normal_halfs,
)

analyse_overtime-InHalf :
    (sp : ServerParam) (m : Match)
    → normal_time sp ≤ m.time
    → half_start sp m.half_time_count ≤ m.time
    → InHalf sp (analyse_overtime sp m)
unfolding analyse_overtime
analyse_overtime-InHalf sp m lo start =
    if_elim (InHalf sp) (not m.team_left.enabled || not m.team_right.enabled)
      (λ _. end_match-InHalf sp time_up_without_a_team m)
      λ _.
        if_elim (InHalf sp) (sp.golden_goal && not (is_tied m)) (λ _. end_match-InHalf sp time_up m)
          λ _.
            if_elim (InHalf sp) due
              (λ _.
                if_elim (InHalf sp) (last && not (is_tied m)) (λ _. end_match-InHalf sp time_up m)
                  λ _. next_half-InHalf sp time_extended m)
              λ e. inr (inr (start, overtime_left sp m lo (ground arith)))
  where
    due : Bool
    due =
        leb (normal_time sp + sp.extra_half_time * suc m.half_time_count)
          (m.time + sp.extra_half_time * sp.nr_normal_halfs)

    last : Bool
    last = suc m.half_time_count == sp.nr_normal_halfs

-- Regular time goes on, and the half that is counted ends later.
normal_left :
    (sp : ServerParam) (m : Match)
    → m.time < normal_time sp
    → m.time < half_length sp * suc m.half_time_count
    → m.time ≤ half_start sp (suc m.half_time_count)
normal_left sp m a b = ground arith

pub analyse-InHalf :
    (sp : ServerParam) (m : Match)
    → is_positive sp.half_time ≡ true
    → is_clock_stopped m.playmode ≡ false
    → (maximum_time sp ≤ m.time) ⊎ (half_start sp m.half_time_count ≤ m.time)
    → InHalf sp (analyse sp m)
unfolding analyse
analyse-InHalf sp m p c start =
    if_elim (InHalf sp) (is_clock_stopped m.playmode) (λ e. cc)
      λ _.
        if_elim (InHalf sp) (is_positive sp.half_time)
          (λ _.
            if_elim (InHalf sp) (leb (maximum_time sp) m.time)
              (λ h.
                if_elim (InHalf sp) (sp.penalty_shoot_outs && is_tied m)
                  (λ _. inr (inl (ground arith))) λ _. end_match-InHalf sp time_up m)
              λ a.
                if_elim (InHalf sp) (leb (normal_time sp) m.time)
                  (λ h. analyse_overtime-InHalf sp m (ground arith) (ground arith))
                  λ b.
                    if_elim (InHalf sp) (leb (half_length sp * suc m.half_time_count) m.time)
                      (λ _. next_half-InHalf sp half_time_over m)
                      λ e. inr (inr (ground arith, normal_left sp m (ground arith) (ground arith))))
          λ e. cc

-- ===== src/Clock/KickOff.antt =====
-- Who kicks off: `Stadium::kickOff` (src/stadium.cpp) works it out from the time, and
-- `TimeRef::analyse` (src/referee.cpp) from the number of the half.
use rcssserver.Base.{
  ℕ, suc, ◌-◌, ◌%◌, ◌<◌, ◌≡◌, ap, ◌∙◌, Bool, true, false, is_positive, arith, if◌then◌else◌, leb,
  ◌==◌, ◌||◌,
}
use rcssserver.Base.{mul_mono, div-mul, mod-mul}
use rcssserver.Mode
use rcssserver.Mode.{Side, left, right, PlayMode, opposite}
use rcssserver.Match.State.{ServerParam, Match, Announcement}
use rcssserver.Match.Frame.{change_play_mode-Changed}
use rcssserver.Clock.Halves.{
  half_length, half_start, half_side, kick_off_due, left_kicks_off, left_placed, right_placed,
  kick_off, next_half,
}
use rcssserver.Clock.Bounds.{next_half_fields}

abbrev pub kick_off_mode : Side → PlayMode
kick_off_mode right = Mode.kick_off_right
kick_off_mode _ = Mode.kick_off_left

-- The branch that two tests leave.
chosen :
    (a b c : Bool) (w x y z : Match)
    → x.playmode ≡ Mode.kick_off_left
    → y.playmode ≡ Mode.kick_off_right
    → a ≡ false
    → b ≡ true
    → (if a then w else if b then (if c then x else y) else z).playmode
      ≡ kick_off_mode (if c then left else right)
chosen true b c w x y z p q k d = cc
chosen false false c w x y z p q k d = cc
chosen false true true w x y z p q k d = p
chosen false true false w x y z p q k d = q

-- The kick-off of the side that the time gives it to.
kick_off-due :
    (sp : ServerParam) (m : Match)
    → sp.keep_away_mode ≡ false
    → kick_off_due sp m.time ≡ true
    → (kick_off sp m).playmode ≡ kick_off_mode (if left_kicks_off sp m.time then left else right)
unfolding kick_off
kick_off-due sp m k d =
    chosen sp.keep_away_mode (kick_off_due sp m.time) (left_kicks_off sp m.time) _ _ _ _
      (change_play_mode-Changed sp Mode.kick_off_left (left_placed sp m)).new_mode
      (change_play_mode-Changed sp Mode.kick_off_right (right_placed sp m)).new_mode k d

-- At the start of a half the kick-off is due.
start-due :
    (sp : ServerParam) (c : ℕ)
    → is_positive sp.half_time ≡ true
    → 0 < sp.extra_half_time
    → kick_off_due sp (half_start sp c) ≡ true
start-due sp c p x = ground (
  arith,
  mod-mul (half_length sp) c,
  mod-mul (half_length sp) sp.nr_normal_halfs,
  mod-mul sp.extra_half_time (c - sp.nr_normal_halfs),
  mul_mono (half_length sp) c sp.nr_normal_halfs,
)

-- The half that the kick-off counts: in extra time it starts from 0 again.
abbrev counted_half : ServerParam → ℕ → ℕ
counted_half sp c = if leb c sp.nr_normal_halfs then c else c - sp.nr_normal_halfs

start-left :
    (sp : ServerParam) (c : ℕ)
    → is_positive sp.half_time ≡ true
    → 0 < sp.extra_half_time
    → left_kicks_off sp (half_start sp c) ≡ (counted_half sp c % 2 == 0)
start-left sp c p x = ground (
  arith,
  div-mul (half_length sp) c,
  div-mul sp.extra_half_time (c - sp.nr_normal_halfs),
  mul_mono (half_length sp) c sp.nr_normal_halfs,
)

start-kick_off :
    (sp : ServerParam) (c : ℕ) (m : Match)
    → sp.keep_away_mode ≡ false
    → is_positive sp.half_time ≡ true
    → 0 < sp.extra_half_time
    → m.time ≡ half_start sp c
    → (kick_off sp m).playmode ≡ kick_off_mode (if counted_half sp c % 2 == 0 then left else right)
start-kick_off sp c m k p x t =
    kick_off-due sp m k (ap (kick_off_due sp) t ∙ start-due sp c p x)
    ∙ ap (λ b. kick_off_mode (if b then left else right))
        (ap (left_kicks_off sp) t ∙ start-left sp c p x)

-- Whether `kickOff` counts the halves as `TimeRef` does: in regular time, and with an even number of regular
-- halves in extra time.
abbrev counts_alike : ServerParam → ℕ → Bool
counts_alike sp c = leb c sp.nr_normal_halfs || (sp.nr_normal_halfs % 2 == 0)

counted_side :
    (sp : ServerParam) (c : ℕ)
    → (if counted_half sp c % 2 == 0 then left else right)
      ≡ (if counts_alike sp c then half_side c else opposite (half_side c))
counted_side sp c = ground arith

-- The kick-off after a half-time break goes to the side that TimeRef gave it to in regular time, and in extra
-- time if the number of regular halves is even; if that number is odd, the kick-off of each half of
-- extra time goes to the opposite side. Here half_time and extra_half_time are positive, and the mode is
-- not keepaway.
pub kick_off-next_half :
    (sp : ServerParam) (a : Announcement) (m : Match)
    → sp.keep_away_mode ≡ false
    → is_positive sp.half_time ≡ true
    → 0 < sp.extra_half_time
    → (kick_off sp (next_half sp a m)).playmode
      ≡ kick_off_mode (
          let side = half_side (suc m.half_time_count) in
          if counts_alike sp (suc m.half_time_count) then side else opposite side)
kick_off-next_half sp a m k p x =
    start-kick_off sp (suc m.half_time_count) (next_half sp a m) k p x (next_half_fields sp a m).2
    ∙ ap kick_off_mode (counted_side sp (suc m.half_time_count))

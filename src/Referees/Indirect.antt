-- ===== src/Referees/Indirect.antt =====
-- Shots at the goal from an indirect free kick (src/referee.cpp, `TouchRef`).
use rcssserver.Base.{
  ◌≡◌, refl, ℕ, suc, Bool, true, false, not, ◌&&◌, ◌||◌, Option, none, some, List, [], ◌∷◌, All,
  if_elim, arith,
}
use rcssserver.Mode
use rcssserver.Mode.{Side, left, neutral, right, PlayMode}
use rcssserver.Match.State.{ServerParam, Player, same_player, Match, TouchRef}
use rcssserver.Match.ModeChange.{is_play_on, change_play_mode, touch_change, indirect_free_kick}
use rcssserver.Referees.View.{View}
use rcssserver.Referees.Ball.{check_goal}
use rcssserver.Referees.Touching.{
  is_other, end_indirect, note_indirect, note_touch, touch_kick_taken, touch_ball_touched,
}
use rcssserver.Referees.TouchFrame.{change_play_mode-touch}

-- What may happen from an indirect free kick on.
pub data Play : Type 0 where
  kicked : View → Player → ℕ → Play
  touched : View → Player → Play
  played_on dropped cycle_over : Play

unfoldable pub play : ServerParam → Play → Match → Match
unfolding touch_kick_taken touch_ball_touched
play sp (kicked v p a) m = touch_kick_taken v p a m
play sp (touched v p) m = touch_ball_touched v p m
play sp played_on m = change_play_mode sp Mode.play_on m
play sp dropped m = change_play_mode sp Mode.drop_ball m
play sp cycle_over m = record m { time = suc m.time }

unfoldable pub plays : ServerParam → List Play → Match → Match
plays sp [] m = m
plays sp (e ∷ es) m = plays sp es (play sp e m)

-- Nobody but the player is at the ball.
abbrev pub By : Player → Play → Type 0
By p (kicked v q a) = same_player q p ≡ true
By p (touched v q) = same_player q p ≡ true
By p _ = Unit

abbrev pub has_kicker : Option Player → Bool
has_kicker none = false
has_kicker (some p) = true

-- The free kick is still indirect, with nobody but the player at the ball; `begun`: the player was.
pub record Held (p : Player) (begun : Bool) (t : TouchRef) : Type 0 where
  pub indirect : t.indirect_mode ≡ true
  pub alone : is_other p t.last_indirect_kicker ≡ false
  pub noted : (not begun || has_kicker t.last_indirect_kicker) ≡ true

note_touch-Held :
    (p q : Player) (b : Bool) (a time : ℕ) (t : TouchRef)
    → Held p b t
    → Held p b (note_touch q a time t)
note_touch-Held p q b a time t h = ground (arith, h)

note_indirect-Held :
    (p q : Player) (b : Bool) (t : TouchRef)
    → same_player q p ≡ true
    → Held p b t
    → Held p true (note_indirect q t)
note_indirect-Held p q b t same h = ground (arith, same, h.indirect)

other_same :
    (p q : Player) (o : Option Player)
    → same_player q p ≡ true
    → is_other p o ≡ false
    → is_other q o ≡ false
other_same p q none same h = refl
other_same p q (some x) same h = ground arith

end_indirect-same :
    (pm : PlayMode) (p q : Player) (t : TouchRef)
    → same_player q p ≡ true
    → is_other p t.last_indirect_kicker ≡ false
    → end_indirect pm q t ≡ t
end_indirect-same pm p q t same h =
    if_elim (λ (r : TouchRef). r ≡ t) (is_play_on pm && is_other q t.last_indirect_kicker)
      (λ e. ground (arith, other_same p q t.last_indirect_kicker same h, e)) (λ _. refl)

-- The two handlers, but for the strength of the kick.
pub touches-Held :
    (pm : PlayMode) (p q : Player) (b : Bool) (a time : ℕ) (t : TouchRef)
    → same_player q p ≡ true
    → Held p b t
    → Held p true (note_touch q a time (note_indirect q (end_indirect pm q t)))
touches-Held pm p q b a time t same h =
    note_touch-Held p q true a time (note_indirect q (end_indirect pm q t)) (
      note_indirect-Held p q b (end_indirect pm q t) same
        (rw (end_indirect-same pm p q t same h.alone) h))

weaken : (p : Player) (b : Bool) (t : TouchRef) → Held p true t → Held p b t
weaken p b t h = ground (arith, h)

carry :
    (p : Player) (b : Bool) (o : Option Player) (t : TouchRef)
    → Held p b t
    → Held p b (record t { last_touched = o })
carry p b o t h = record { indirect = h.indirect; alone = h.alone; noted = h.noted }

play-Held :
    (sp : ServerParam) (p : Player) (b : Bool) (e : Play) (m : Match)
    → By p e
    → Held p b m.touch
    → Held p b (play sp e m).touch
unfolding play touch_kick_taken touch_ball_touched touch_change
play-Held sp p b (kicked v q a) m by h =
    if_elim (λ (n : Match). Held p b n.touch) (not v.beyond_goal_line)
      (λ _. weaken p b _ (touches-Held m.playmode p q b a m.time m.touch by h)) (λ _. h)
play-Held sp p b (touched v q) m by h =
    if_elim (λ (n : Match). Held p b n.touch) (not v.beyond_goal_line)
      (λ _. weaken p b _ (touches-Held m.playmode p q b 0 m.time m.touch by h)) (λ _. h)
play-Held sp p b played_on m by h =
    rw (change_play_mode-touch sp Mode.play_on m) (carry p b m.touch.last_touched m.touch h)
play-Held sp p b dropped m by h =
    rw (change_play_mode-touch sp Mode.drop_ball m) (carry p b none m.touch h)
play-Held sp p b cycle_over m by h = h

pub plays-Held :
    (sp : ServerParam) (p : Player) (b : Bool) (es : List Play) (m : Match)
    → All (By p) es
    → Held p b m.touch
    → Held p b (plays sp es m).touch
unfolding plays
plays-Held sp p b [] m by h = h
plays-Held sp p b (e ∷ es) m by h =
    plays-Held sp p b es (play sp e m) by.1 (play-Held sp p b e m by.0 h)

pub awarded-Held :
    (sp : ServerParam) (pm : PlayMode) (p : Player) (m : Match)
    → indirect_free_kick pm ≡ true
    → Held p false (change_play_mode sp pm m).touch
unfolding touch_change
awarded-Held sp pm p m ind =
    rw (change_play_mode-touch sp pm m, ind)
      (record { indirect = refl; alone = refl; noted = refl })

-- From the award of an indirect free kick on, as long as at most one player is at the ball, no goal is
-- given, wherever the ball goes, however often the player kicks and touches it, and whether or not the
-- play goes on, with or without a drop ball.
pub plays-no_goal :
    (sp : ServerParam) (pm : PlayMode) (p : Player) (es : List Play) (m : Match) (v : View)
    → indirect_free_kick pm ≡ true
    → All (By p) es
    → check_goal v (plays sp es (change_play_mode sp pm m)) ≡ none
plays-no_goal sp pm p es m v ind by =
    let h = plays-Held sp p false es (change_play_mode sp pm m) by (awarded-Held sp pm p m ind) in
    rw (h.indirect) refl

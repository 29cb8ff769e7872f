-- ===== src/Referees/SecondKick.antt =====
-- How an indirect free kick ends with a second player's kick (src/referee.cpp, `TouchRef`).
use rcssserver.Base.{◌≡◌, refl, ℕ, Bool, true, false, Option, none, some, List, ◌∷◌, All, arith}
use rcssserver.Mode
use rcssserver.Mode.{Side, left, neutral, right, PlayMode}
use rcssserver.Match.State.{ServerParam, Player, same_player, Match, TouchRef}
use rcssserver.Match.ModeChange.{is_play_on, change_play_mode, indirect_free_kick}
use rcssserver.Referees.View.{View}
use rcssserver.Referees.Ball.{check_goal}
use rcssserver.Referees.Touching.{
  is_other, end_indirect, note_indirect, note_touch, touch_kick_taken,
}
use rcssserver.Referees.Indirect.{
  Held, By, Play, kicked, play, plays, has_kicker, touches-Held, awarded-Held, plays-Held,
}

note_touch-indirect :
    (q : Player) (a time : ℕ) (t : TouchRef)
    → (note_touch q a time t).indirect_mode ≡ t.indirect_mode
note_touch-indirect q a time t = ground arith

other_kicks :
    (p q : Player) (o : Option Player)
    → is_other p o ≡ false
    → has_kicker o ≡ true
    → same_player p q ≡ false
    → is_other q o ≡ true
other_kicks p q none h some_kicker other = ground (arith, some_kicker)
other_kicks p q (some x) h some_kicker other = ground arith

lifted :
    (pm : PlayMode) (p q : Player) (t : TouchRef)
    → is_play_on pm ≡ true
    → same_player p q ≡ false
    → Held p true t
    → (note_indirect q (end_indirect pm q t)).indirect_mode ≡ false
lifted pm p q t on other h =
    rw (on, other_kicks p q t.last_indirect_kicker h.alone h.noted other) refl

same_self : (p : Player) → same_player p p ≡ true
same_self p = ground arith

-- Another player that kicks a ball that is not past the goal line while the play is on.
shot-goal :
    (p q : Player) (b : ℕ) (n : Match) (w x : View)
    → n.playmode ≡ Mode.play_on
    → Held p true n.touch
    → same_player p q ≡ false
    → w.beyond_goal_line ≡ false
    → n.ball_catcher ≡ none
    → x.beyond_goal_line ≡ true
    → x.cross_left ≡ true
    → check_goal x (touch_kick_taken w q b n) ≡ some right
unfolding touch_kick_taken
shot-goal p q b n w x on h other inside free over crossed =
    let playing : is_play_on n.playmode ≡ true = rw (on) refl in
    rw
      (
        inside,
        note_touch-indirect,
        lifted n.playmode p q n.touch playing other h,
        free,
        over,
        crossed,
      )
      refl

kick-Held :
    (sp : ServerParam) (v : View) (p : Player) (b : Bool) (a : ℕ) (m : Match)
    → v.beyond_goal_line ≡ false
    → Held p b m.touch
    → Held p true (play sp (kicked v p a) m).touch
unfolding play touch_kick_taken
kick-Held sp v p b a m near h =
    rw (near) (touches-Held m.playmode p p b a m.time m.touch (same_self p) h)

-- After the award of an indirect free kick a player kicks the ball, and goes on alone as above. When the
-- play is on and another player kicks, both kicks before the ball is past the goal line, then a ball that
-- crosses the left goal afterwards and is in nobody's hands is a goal for the right side.
pub plays-goal :
    (sp : ServerParam) (pm : PlayMode) (p q : Player) (a b : ℕ) (es : List Play) (m : Match)
    (v w x : View)
    → indirect_free_kick pm ≡ true
    → v.beyond_goal_line ≡ false
    → All (By p) es
    → (plays sp (kicked v p a ∷ es) (change_play_mode sp pm m)).playmode ≡ Mode.play_on
    → same_player p q ≡ false
    → w.beyond_goal_line ≡ false
    → (plays sp (kicked v p a ∷ es) (change_play_mode sp pm m)).ball_catcher ≡ none
    → x.beyond_goal_line ≡ true
    → x.cross_left ≡ true
    → check_goal x
        (touch_kick_taken w q b (plays sp (kicked v p a ∷ es) (change_play_mode sp pm m)))
      ≡ some right
unfolding plays
plays-goal sp pm p q a b es m v w x ind near by on other inside free over crossed =
    let start = change_play_mode sp pm m in
    let first = kick-Held sp v p false a start near (awarded-Held sp pm p m ind) in
    shot-goal p q b (plays sp (kicked v p a ∷ es) start) w x on
      (plays-Held sp p true es (play sp (kicked v p a) start) by first) other inside free over
      crossed

-- ===== src/Referees/BackPass.antt =====
-- When a catch is a back pass (src/referee.cpp, `CatchRef`).
use rcssserver.Base.{
  ◌≡◌, refl, ℕ, true, false, not, ◌&&◌, ◌||◌, ◌==◌, Option, none, some, if_elim, arith,
}
use rcssserver.Mode
use rcssserver.Mode.{Side, left, neutral, right, PlayMode, same_side}
use rcssserver.Match.State.{ServerParam, Player, same_player, Match, CatchRef}
use rcssserver.Match.ModeChange.{is_penalty_shoot_out, place_ball_mode, is_play_on, is_drop_ball}
use rcssserver.Match.Frame.{change_play_mode-Changed}
use rcssserver.Referees.View.{View}
use rcssserver.Referees.Awards.{award, award_free_kick}
use rcssserver.Referees.Catching.{
  note_side, after_kick, note_passer, is_player, is_excused, is_after_goal_or_over,
  is_handling_fault, catch_kick_taken, catch_ball_caught, judge_catch, call_back_pass, back_pass_of,
}

pub award-mode :
    (sp : ServerParam) (pm : PlayMode) (s : Side) (m : Match)
    → (is_play_on pm || is_drop_ball pm) ≡ false
    → (award sp pm s m).playmode ≡ pm
unfolding award place_ball_mode
award-mode sp pm s m h =
    if_elim (λ (n : Match). n.playmode ≡ pm)
      (is_penalty_shoot_out m.playmode && (is_play_on pm || is_drop_ball pm))
      (λ e. ground (arith, h, e)) (λ _. (change_play_mode-Changed sp pm _).new_mode)

-- The free kick of a side; no side gets none.
abbrev free_kick_of : Side → PlayMode → PlayMode
free_kick_of left pm = Mode.free_kick_left
free_kick_of neutral pm = pm
free_kick_of right pm = Mode.free_kick_right

award_free_kick-mode :
    (sp : ServerParam) (s : Side) (m : Match)
    → (award_free_kick sp s m).playmode ≡ free_kick_of s m.playmode
unfolding award_free_kick
award_free_kick-mode sp left m = award-mode sp Mode.free_kick_left left m refl
award_free_kick-mode sp neutral m = refl
award_free_kick-mode sp right m = award-mode sp Mode.free_kick_right right m refl

pub call_back_pass-mode :
    (sp : ServerParam) (s : Side) (m : Match) → (call_back_pass sp s m).playmode ≡ back_pass_of s
unfolding call_back_pass
call_back_pass-mode sp left m = award-mode sp Mode.back_pass_left right _ refl
call_back_pass-mode sp neutral m = award-mode sp Mode.back_pass_right left _ refl
call_back_pass-mode sp right m = award-mode sp Mode.back_pass_right left _ refl

-- The last passer, if any, is no team mate of the catcher.
abbrev IsForeign : Player → Option Player → Type 0
IsForeign c none = Unit
IsForeign c (some p) = same_side p.side c.side ≡ false

foreign_kicker :
    (c q x : Player)
    → same_player q x ≡ true
    → same_side q.side c.side ≡ false
    → same_side x.side c.side ≡ false
foreign_kicker c q x same h = ground arith

after_kick-IsForeign :
    (c q : Player) (time : ℕ) (k : CatchRef)
    → same_side q.side c.side ≡ false
    → IsForeign c (after_kick q time k).last_back_passer
after_kick-IsForeign c q time k h =
    if_elim (λ (r : CatchRef). IsForeign c r.last_back_passer)
      (k.team_l_touched && k.team_r_touched) (λ _. tt)
      (λ _.
        if_elim (λ (r : CatchRef). IsForeign c r.last_back_passer)
          (not (is_player q k.last_back_passer)) (λ _. h) (λ again. kept k.last_back_passer again))
  where
    kept : (o : Option Player) → not (is_player q o) ≡ false → IsForeign c o
    kept none again = tt
    kept (some x) again = foreign_kicker c q x (ground (arith, again)) h

judge_catch-foreign :
    (sp : ServerParam) (c : Player) (o : Option Player) (m : Match)
    → IsForeign c o
    → (judge_catch sp c o m).playmode ≡ free_kick_of c.side m.playmode
judge_catch-foreign sp c none m h = award_free_kick-mode sp c.side _
judge_catch-foreign sp c (some p) m h =
    if_elim (λ (n : Match). n.playmode ≡ free_kick_of c.side m.playmode)
      ((sp.back_passes && not (is_after_goal_or_over m.playmode))
        && (same_side p.side c.side && not (is_excused c p m)))
      (λ e. ground (arith, h, e)) (λ _. award_free_kick-mode sp c.side _)

-- When the last to kick was no team mate of the goalie, a catch outside the shoot-out that is no handling
-- fault gives the goalie's side a free kick, at the time of the kick or at any other, whatever was kicked and
-- touched before that kick: it is not called a back pass.
pub catch_after_opponent :
    (sp : ServerParam) (v : View) (catcher q : Player) (m : Match) (time : ℕ)
    → is_penalty_shoot_out m.playmode ≡ false
    → is_handling_fault v catcher m ≡ false
    → same_side q.side catcher.side ≡ false
    → (catch_ball_caught sp v catcher (record (catch_kick_taken q m) { time = time })).playmode
      ≡ free_kick_of catcher.side m.playmode
unfolding catch_ball_caught catch_kick_taken
catch_after_opponent sp v catcher q m time running legal h =
    rw (running, legal)
      (judge_catch-foreign sp catcher
        (after_kick q m.time (note_side q.side m.catch)).last_back_passer
        (record (catch_kick_taken q m) { time = time })
        (after_kick-IsForeign catcher q m.time (note_side q.side m.catch) h))

-- The last passer is a team mate of the catcher, and another player.
abbrev IsMate : Player → Option Player → Type 0
IsMate c none = true ≡ false
IsMate c (some p) = (same_side p.side c.side ≡ true) × (same_player p c ≡ false)

mate_kicker :
    (c q x : Player)
    → same_player q x ≡ true
    → same_side q.side c.side ≡ true
    → same_player q c ≡ false
    → (same_side x.side c.side ≡ true) × (same_player x c ≡ false)
mate_kicker c q x same h other = (ground arith, ground arith)

note_passer-IsMate :
    (c q : Player) (time : ℕ) (k : CatchRef)
    → same_side q.side c.side ≡ true
    → same_player q c ≡ false
    → IsMate c (note_passer q time k).last_back_passer
note_passer-IsMate c q time k h other =
    if_elim (λ (r : CatchRef). IsMate c r.last_back_passer) (not (is_player q k.last_back_passer))
      (λ _. (h, other)) (λ again. kept k.last_back_passer again)
  where
    kept : (o : Option Player) → not (is_player q o) ≡ false → IsMate c o
    kept none again = ground (arith, again)
    kept (some x) again = mate_kicker c q x (ground (arith, again)) h other

note_passer-time :
    (q : Player) (time : ℕ) (k : CatchRef) → (note_passer q time k).last_back_passer_time ≡ time
note_passer-time q time k =
    if_elim (λ (r : CatchRef). r.last_back_passer_time ≡ time)
      (not (is_player q k.last_back_passer)) (λ _. refl) (λ _. refl)

judge_catch-mate :
    (sp : ServerParam) (c : Player) (o : Option Player) (m : Match)
    → IsMate c o
    → sp.back_passes ≡ true
    → is_after_goal_or_over m.playmode ≡ false
    → (m.time == m.catch.last_back_passer_time) ≡ false
    → (judge_catch sp c o m).playmode ≡ back_pass_of c.side
judge_catch-mate sp c none m h on alive later = ground (arith, h)
judge_catch-mate sp c (some p) m h on alive later =
    if_elim (λ (n : Match). n.playmode ≡ back_pass_of c.side)
      ((sp.back_passes && not (is_after_goal_or_over m.playmode))
        && (same_side p.side c.side && not (is_excused c p m)))
      (λ _. call_back_pass-mode sp c.side _) (λ e. ground (arith, h.0, h.1, on, alive, later, e))

-- A team mate of the goalie, not the goalie itself, kicks the ball, with no touch of the other side noted
-- at the kick. The goalie that catches it at another time, outside the shoot-out, with no handling fault
-- and with the match neither over nor stopped after a goal, is called for a back pass if
-- `ServerParam::backPasses()` is on, whoever had kicked before the team mate.
pub catch_of_pass :
    (sp : ServerParam) (v : View) (catcher q : Player) (m : Match) (time : ℕ)
    → is_penalty_shoot_out m.playmode ≡ false
    → is_handling_fault v catcher m ≡ false
    → is_after_goal_or_over m.playmode ≡ false
    → sp.back_passes ≡ true
    → same_side q.side catcher.side ≡ true
    → same_player q catcher ≡ false
    → ((note_side q.side m.catch).team_l_touched && (note_side q.side m.catch).team_r_touched)
      ≡ false
    → (time == m.time) ≡ false
    → (catch_ball_caught sp v catcher (record (catch_kick_taken q m) { time = time })).playmode
      ≡ back_pass_of catcher.side
unfolding catch_ball_caught catch_kick_taken
catch_of_pass sp v catcher q m time running legal alive on h other one later =
    rw (running, legal, one)
      (judge_catch-mate sp catcher
        (note_passer q m.time (note_side q.side m.catch)).last_back_passer _
        (note_passer-IsMate catcher q m.time (note_side q.side m.catch) h other) on alive
        (rw (note_passer-time q m.time (note_side q.side m.catch)) later))

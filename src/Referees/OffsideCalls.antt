-- ===== src/Referees/OffsideCalls.antt =====
-- When `OffsideRef` (src/referee.cpp) calls offside, and against which side.
use rcssserver.Base.{◌≡◌, refl, ap, ◌∙◌, ℕ, true, false, ◌==◌, ltb, arith}
use rcssserver.Mode
use rcssserver.Mode.{Side, left, neutral, right, PlayMode, opposite, same_side}
use rcssserver.Match.State.{ServerParam, Player, Match}
use rcssserver.Match.ModeChange.{is_penalty_shoot_out}
use rcssserver.Referees.BackPass.{award-mode}
use rcssserver.Referees.Offside.{
  Field, is_candidate, call_offside, is_at, note_kick, set_offside_mark, candidates_of,
  no_offside_mode, set_candidates,
}

-- The mode in which a side is offside.
abbrev pub offside_mode : Side → PlayMode → PlayMode
offside_mode left pm = Mode.off_side_left
offside_mode neutral pm = pm
offside_mode right pm = Mode.off_side_right

call_offside-mode :
    (sp : ServerParam) (m : Match) (s : Side)
    → is_penalty_shoot_out m.playmode ≡ false
    → m.offside.last_kicker_side ≡ s
    → (call_offside sp m).playmode ≡ offside_mode s m.playmode
unfolding call_offside
call_offside-mode sp m left running e =
    rw (running, e) (award-mode sp Mode.off_side_left right m refl)
call_offside-mode sp m neutral running e = rw (running, e) refl
call_offside-mode sp m right running e =
    rw (running, e) (award-mode sp Mode.off_side_right left m refl)

-- A candidate at the ball in a later cycle.
candidate_called :
    (sp : ServerParam) (f : Field) (p : Player) (a : ℕ) (m : Match)
    → sp.use_offside ≡ true
    → is_at m.offside.last_kick_time m.time ≡ false
    → is_candidate p m.offside.candidates ≡ true
    → set_offside_mark sp f p a m ≡ call_offside sp (note_kick p a m)
unfolding set_offside_mark
candidate_called sp f p a m on later cand = simp (on, later, cand)

pub kick-mode :
    (sp : ServerParam) (f : Field) (p : Player) (a : ℕ) (m : Match)
    → sp.use_offside ≡ true
    → is_penalty_shoot_out m.playmode ≡ false
    → is_at m.offside.last_kick_time m.time ≡ false
    → is_candidate p m.offside.candidates ≡ true
    → ltb 0 a ≡ true
    → (set_offside_mark sp f p a m).playmode ≡ offside_mode p.side m.playmode
kick-mode sp f p a m on running later cand strong =
    ap (λ (n : Match). n.playmode) (candidate_called sp f p a m on later cand)
    ∙ call_offside-mode sp (note_kick p a m) p.side running (simp (later, strong))

-- A touch by no candidate in a later cycle makes new candidates, and keeps the side that is blamed.
touch_marks :
    (sp : ServerParam) (f : Field) (q : Player) (m : Match)
    → sp.use_offside ≡ true
    → is_at m.offside.last_kick_time m.time ≡ false
    → is_candidate q m.offside.candidates ≡ false
    → no_offside_mode m.playmode ≡ false
    → set_offside_mark sp f q 0 m ≡ set_candidates (candidates_of f q) (note_kick q 0 m)
unfolding set_offside_mark
touch_marks sp f q m on later other open_play = simp (on, later, other, open_play)

-- A touch is no stronger than what came before.
unblamed :
    (q : Player) (m : Match)
    → (note_kick q 0 m).offside.last_kicker_side ≡ m.offside.last_kicker_side
unblamed q m = ground arith

touch-mode_of_last :
    (sp : ServerParam) (g : Field) (r : Player) (n : Match)
    → sp.use_offside ≡ true
    → is_penalty_shoot_out n.playmode ≡ false
    → is_at n.offside.last_kick_time n.time ≡ false
    → is_candidate r n.offside.candidates ≡ true
    → (set_offside_mark sp g r 0 n).playmode ≡ offside_mode n.offside.last_kicker_side n.playmode
touch-mode_of_last sp g r n on running later cand =
    ap (λ (k : Match). k.playmode) (candidate_called sp g r 0 n on later cand)
    ∙ call_offside-mode sp (note_kick r 0 n) n.offside.last_kicker_side running (unblamed r n)

-- With offside in use and in a mode with offside and outside the shoot-out, the ball touches a player that is no
-- candidate, later than the last kick, and still later it touches a candidate that this touch has made.
-- The offside is called against the side of the last kick, whichever side the two players are of.
pub touches-blame :
    (sp : ServerParam) (f g : Field) (q r : Player) (m : Match) (time : ℕ)
    → sp.use_offside ≡ true
    → is_penalty_shoot_out m.playmode ≡ false
    → no_offside_mode m.playmode ≡ false
    → is_at m.offside.last_kick_time m.time ≡ false
    → is_candidate q m.offside.candidates ≡ false
    → (m.time == time) ≡ false
    → is_candidate r (candidates_of f q) ≡ true
    → (set_offside_mark sp g r 0 (record (set_offside_mark sp f q 0 m) { time = time })).playmode
      ≡ offside_mode m.offside.last_kicker_side m.playmode
touches-blame sp f g q r m time on running open_play later other next cand =
    let marked = set_candidates (candidates_of f q) (note_kick q 0 m) in
    ap (λ (k : Match). (set_offside_mark sp g r 0 (record k { time = time })).playmode)
      (touch_marks sp f q m on later other open_play)
    ∙ touch-mode_of_last sp g r (record marked { time = time }) on running next cand
    ∙ ap (λ (s : Side). offside_mode s m.playmode) (unblamed q m)

-- ===== src/Referees/Strongest.antt =====
-- Who was the last to touch the ball, when several players kick it in a cycle (src/referee.cpp,
-- `TouchRef`).
use rcssserver.Base.{
  ◌≡◌, refl, ap, ℕ, true, false, not, ltb, leb, some, List, [], ◌∷◌, All, if_elim, arith,
  if◌then◌else◌, ◌⊎◌, inl, inr, Bool-cases,
}
use rcssserver.Mode.{PlayMode}
use rcssserver.Match.State.{Player, Match, TouchRef}
use rcssserver.Referees.View.{View}
use rcssserver.Referees.Touching.{end_indirect, note_indirect, note_touch, touch_kick_taken}

-- The kicks of a cycle, in the order in which the players are served.
unfoldable pub kicks : View → List (Player × ℕ) → Match → Match
kicks v [] m = m
kicks v (k ∷ ks) m = kicks v ks (touch_kick_taken v k.0 k.1 m)

-- The kick is in the list, none before it is stronger, and all after it are weaker.
abbrev Wins : Player × ℕ → List (Player × ℕ) → Type 0
Wins w [] = ⊥
Wins w (k ∷ ks) = ((k ≡ w) × All (λ x. ltb x.1 w.1 ≡ true) ks) ⊎ ((leb k.1 w.1 ≡ true) × Wins w ks)

-- The kick is the one noted at the time.
record Leads (w : Player × ℕ) (time : ℕ) (t : TouchRef) : Type 0 where
  pub player : t.last_touched ≡ some w.0
  pub at_time : t.last_touched_time ≡ time
  pub strength : t.last_touched_accel_r ≡ w.1

note_first :
    (p : Player) (a time : ℕ) (t : TouchRef)
    → ltb t.last_touched_time time ≡ true
    → Leads (p, a) time (note_touch p a time t)
note_first p a time t h = ground arith

note_stronger :
    (w : Player × ℕ) (p : Player) (a time : ℕ) (t : TouchRef)
    → leb w.1 a ≡ true
    → Leads w time t
    → Leads (p, a) time (note_touch p a time t)
note_stronger w p a time t h l = ground (arith, h, l.at_time, l.strength)

note_weaker :
    (w : Player × ℕ) (p : Player) (a time : ℕ) (t : TouchRef)
    → leb w.1 a ≡ false
    → Leads w time t
    → Leads w time (note_touch p a time t)
note_weaker w p a time t h l = ground (arith, h, l.player, l.at_time, l.strength)

kept_last :
    (w : Player × ℕ) (pm : PlayMode) (p : Player) (time : ℕ) (t : TouchRef)
    → Leads w time t
    → Leads w time (note_indirect p (end_indirect pm p t))
kept_last w pm p time t l = ground (arith, l)

kept_time :
    (pm : PlayMode) (p : Player) (t : TouchRef)
    → (note_indirect p (end_indirect pm p t)).last_touched_time ≡ t.last_touched_time
kept_time pm p t = ground arith

insert-Wins :
    (w c k : Player × ℕ) (ks : List (Player × ℕ))
    → leb c.1 k.1 ≡ false
    → leb c.1 w.1 ≡ true
    → Wins w (c ∷ ks)
    → Wins w (c ∷ k ∷ ks)
insert-Wins w c k ks weaker over (inl (e, after)) =
    let strength : c.1 ≡ w.1 = ap (λ x. x.1) e in inl (e, (ground arith, after))
insert-Wins w c k ks weaker over (inr (before, rest)) = inr (over, inr (ground arith, rest))

-- A later kick of the cycle, after the kick `c` was noted.
kick-Leads :
    (v : View) (c k : Player × ℕ) (m : Match)
    → v.beyond_goal_line ≡ false
    → Leads c m.time m.touch
    → Leads (if leb c.1 k.1 then k else c) m.time (touch_kick_taken v k.0 k.1 m).touch
unfolding touch_kick_taken
kick-Leads v c k m near l = rw (near) (
    if_elim
      (λ (w : Player × ℕ).
        Leads w m.time
          (note_touch k.0 k.1 m.time (note_indirect k.0 (end_indirect m.playmode k.0 m.touch))))
      (leb c.1 k.1)
      (λ h. note_stronger c k.0 k.1 m.time _ h (kept_last c m.playmode k.0 m.time m.touch l))
      (λ h. note_weaker c k.0 k.1 m.time _ h (kept_last c m.playmode k.0 m.time m.touch l)))

first_kick :
    (v : View) (k : Player × ℕ) (m : Match)
    → v.beyond_goal_line ≡ false
    → ltb m.touch.last_touched_time m.time ≡ true
    → Leads k m.time (touch_kick_taken v k.0 k.1 m).touch
unfolding touch_kick_taken
first_kick v k m near new = rw (near) (
    note_first k.0 k.1 m.time (note_indirect k.0 (end_indirect m.playmode k.0 m.touch))
      (rw (kept_time m.playmode k.0 m.touch) new))

kick-time : (v : View) (p : Player) (a : ℕ) (m : Match) → (touch_kick_taken v p a m).time ≡ m.time
unfolding touch_kick_taken
kick-time v p a m =
    if_elim (λ (n : Match). n.time ≡ m.time) (not v.beyond_goal_line) (λ _. refl) (λ _. refl)

-- The kick that is noted in the end, if `c` was the one before.
abbrev Winner : View → Player × ℕ → List (Player × ℕ) → Match → Type 0
Winner v c ks m =
    (w : Player × ℕ) × ((kicks v ks m).touch.last_touched ≡ some w.0)
    × (leb c.1 w.1 ≡ true)
    × Wins w (c ∷ ks)

kicks-Leads :
    (v : View) (c : Player × ℕ) (ks : List (Player × ℕ)) (m : Match)
    → v.beyond_goal_line ≡ false
    → Leads c m.time m.touch
    → Winner v c ks m
unfolding kicks
kicks-Leads v c [] m near l = (c, l.player, ground arith, inl (refl, tt))
kicks-Leads v c (k ∷ ks) m near l =
    let n = touch_kick_taken v k.0 k.1 m in
    let next : Leads (if leb c.1 k.1 then k else c) n.time n.touch =
      rw (kick-time v k.0 k.1 m) (kick-Leads v c k m near l) in
    elim (Bool-cases (leb c.1 k.1)) [
      | inl h ↦ by_stronger h (kicks-Leads v k ks n near (rw (h) at next))
      | inr h ↦ by_weaker h (kicks-Leads v c ks n near (rw (h) at next))
    ]
  where
    by_stronger :
        leb c.1 k.1 ≡ true → Winner v k ks (touch_kick_taken v k.0 k.1 m) → Winner v c (k ∷ ks) m
    by_stronger h (w, e, over, wins) = (w, e, ground arith, inr (ground arith, wins))

    by_weaker :
        leb c.1 k.1 ≡ false → Winner v c ks (touch_kick_taken v k.0 k.1 m) → Winner v c (k ∷ ks) m
    by_weaker h (w, e, over, wins) = (w, e, over, insert-Wins w c k ks h over wins)

-- After the kicks, the last player to have touched the ball has made a kick that wins.
abbrev pub NotedStrongest : View → List (Player × ℕ) → Match → Type 0
NotedStrongest v ks m =
    (w : Player × ℕ) × ((kicks v ks m).touch.last_touched ≡ some w.0) × Wins w ks

-- Within a cycle after that of the last touch noted, any players kick the ball in any order, with the ball
-- not past the goal line: the last player to have touched the ball is the one who kicked the strongest,
-- the latest of those who kicked equally strong.
pub kicks-strongest :
    (v : View) (k : Player × ℕ) (ks : List (Player × ℕ)) (m : Match)
    → v.beyond_goal_line ≡ false
    → ltb m.touch.last_touched_time m.time ≡ true
    → NotedStrongest v (k ∷ ks) m
unfolding kicks
kicks-strongest v k ks m near new =
    let n = touch_kick_taken v k.0 k.1 m in
    let first : Leads k n.time n.touch = rw (kick-time v k.0 k.1 m) (first_kick v k m near new) in
    let (w, e, over, wins) = kicks-Leads v k ks n near first in (w, e, wins)

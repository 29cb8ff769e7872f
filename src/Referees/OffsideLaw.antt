-- ===== src/Referees/OffsideLaw.antt =====
-- The candidates for offside of `OffsideRef` (src/referee.cpp) against the law of the game.
use rcssserver.Base.{
  ◌≡◌, refl, ap, sym, ◌∙◌, ℕ, ◌+◌, Bool, true, false, not, ◌&&◌, ◌==◌, ltb, List, [], ◌∷◌, arith,
  if◌then◌else◌,
}
use rcssserver.Mode.{Side, left, neutral, right, opposite}
use rcssserver.Match.State.{Player}
use rcssserver.Referees.Offside.{
  Placed, Field, ahead, plays_for, push, last_two, offside_line, beyond_line, candidates_of,
}

-- The opponents of the side that are level with the place or nearer to their goal.
abbrev opponents_from : Side → ℕ → List Placed → ℕ
opponents_from s x [] = 0
opponents_from s x (p ∷ ps) =
    (if plays_for (opposite s) p.player && not (ahead s x p.x) then 1 else 0)
    + opponents_from s x ps

-- The law: in the half of the opponents, ahead of the ball, and with fewer than two opponents level or
-- nearer to their goal.
abbrev is_offside_place : Side → Field → ℕ → Bool
is_offside_place s f x =
    (ahead s x f.centre && ahead s x f.ball_x) && ltb (opponents_from s x f.placed) 2

-- The players that the law makes offside when the player kicks.
abbrev pub offside_players : Field → Player → List Placed → List Player
offside_players f kicker [] = []
offside_players f kicker (p ∷ ps) =
    let rest = offside_players f kicker ps in
    if plays_for kicker.side p.player
      && (is_offside_place kicker.side f p.x && not (p.player.unum == kicker.unum))
    then p.player ∷ rest
    else rest

abbrev level : Side → ℕ → ℕ → ℕ
level s x y = if ahead s x y then 0 else 1

-- The order of the two is kept.
abbrev Ordered : Side → ℕ × ℕ → Type 0
Ordered s two = ahead s two.1 two.0 ≡ false

push-Ordered : (s : Side) (y a b : ℕ) → Ordered s (a, b) → Ordered s (push s y (a, b))
push-Ordered left y a b h = ground arith
push-Ordered neutral y a b h = refl
push-Ordered right y a b h = ground arith

-- Pushing an opponent counts it.
push_counts :
    (s : Side) (x y a b n : ℕ)
    → Ordered s (a, b)
    → (ahead s x (push s y (a, b)).1 && ltb (level s x (push s y (a, b)).0 + n) 2)
      ≡ (ahead s x b && ltb (level s x a + ((if not (ahead s x y) then 1 else 0) + n)) 2)
push_counts left x y a b n h = ground arith
push_counts neutral x y a b n h = refl
push_counts right x y a b n h = ground arith

-- A place beyond the second of the two has at most one opponent that is level or ahead.
last_two_lem :
    (s : Side) (x a b : ℕ) (ps : List Placed)
    → Ordered s (a, b)
    → ahead s x (last_two s ps (a, b)).1
      ≡ (ahead s x b && ltb (level s x a + opponents_from s x ps) 2)
unfolding last_two
last_two_lem left x a b [] h = ground arith
last_two_lem neutral x a b [] h = refl
last_two_lem right x a b [] h = ground arith
last_two_lem s x a b (p ∷ ps) h =
    by_player (λ c d k. last_two_lem s x c d ps k) (plays_for (opposite s) p.player)
  where
    by_player :
        ((c d : ℕ)
          → Ordered s (c, d)
          → ahead s x (last_two s ps (c, d)).1
            ≡ (ahead s x d && ltb (level s x c + opponents_from s x ps) 2))
        → (c : Bool)
        → ahead s x (last_two s ps (if c then push s p.x (a, b) else (a, b))).1 ≡ (
            ahead s x b
            && ltb
                (level s x a
                  + ((if c && not (ahead s x p.x) then 1 else 0) + opponents_from s x ps))
                2)
    by_player rest true =
        let two = push s p.x (a, b) in
        rest two.0 two.1 (push-Ordered s p.x a b h)
        ∙ push_counts s x p.x a b (opponents_from s x ps) h
    by_player rest false =
        let none_more : opponents_from s x ps ≡ 0 + opponents_from s x ps = omega arith in
        rest a b h ∙ ap (λ n. ahead s x b && ltb (level s x a + n) 2) none_more

-- A place is beyond the further ahead of two others when it is beyond both.
further :
    (s : Side) (x a b : ℕ) → ahead s x (if ahead s a b then a else b) ≡ (ahead s x a && ahead s x b)
further left x a b = ground arith
further neutral x a b = refl
further right x a b = ground arith

counted :
    (s : Side) (x c b n : ℕ)
    → ((ahead s x c && ltb (level s x c + n) 2) && ahead s x b)
      ≡ ((ahead s x c && ahead s x b) && ltb n 2)
counted left x c b n = ground arith
counted neutral x c b n = refl
counted right x c b n = ground arith

same-Ordered : (s : Side) (c : ℕ) → Ordered s (c, c)
same-Ordered left c = ground arith
same-Ordered neutral c = refl
same-Ordered right c = ground arith

line_lem : (s : Side) (f : Field) (x : ℕ) → ahead s x (offside_line s f) ≡ is_offside_place s f x
unfolding offside_line
line_lem s f x =
    further s x _ f.ball_x
    ∙ ap (λ c. c && ahead s x f.ball_x)
        (last_two_lem s x f.centre f.centre f.placed (same-Ordered s f.centre))
    ∙ counted s x f.centre f.ball_x (opponents_from s x f.placed)

beyond_line_lem :
    (f : Field) (kicker : Player) (ps : List Placed)
    → beyond_line kicker (offside_line kicker.side f) ps ≡ offside_players f kicker ps
unfolding beyond_line
beyond_line_lem f kicker [] = refl
beyond_line_lem f kicker (p ∷ ps) =
    rw (line_lem kicker.side f p.x, beyond_line_lem f kicker ps) refl

no_side :
    (f : Field) (kicker : Player) (ps : List Placed)
    → kicker.side ≡ neutral
    → offside_players f kicker ps ≡ []
no_side f kicker [] e = refl
no_side f kicker (p ∷ ps) e = ground (arith, e, no_side f kicker ps e)

-- The candidates for offside after a kick are the team mates that the law makes offside: enabled players
-- of the kicker's side with another number, in the half of the opponents, ahead of the ball, and with
-- fewer than two enabled opponents level or nearer to their goal.
pub candidates_of_lem :
    (f : Field) (kicker : Player) → candidates_of f kicker ≡ offside_players f kicker f.placed
unfolding candidates_of
candidates_of_lem f kicker = by_side kicker.side refl
  where
    by_side :
        (s : Side)
        → kicker.side ≡ s
        → (elim s [
          | left ↦ beyond_line kicker (offside_line left f) f.placed
          | neutral ↦ []
          | right ↦ beyond_line kicker (offside_line right f) f.placed
        ])
          ≡ offside_players f kicker f.placed
    by_side left e =
        ap (λ t. beyond_line kicker (offside_line t f) f.placed) (sym e)
        ∙ beyond_line_lem f kicker f.placed
    by_side neutral e = sym (no_side f kicker f.placed e)
    by_side right e =
        ap (λ t. beyond_line kicker (offside_line t f) f.placed) (sym e)
        ∙ beyond_line_lem f kicker f.placed

-- ===== src/Players/Held.antt =====
-- A player whom a tackle or a foul holds (src/player.cpp): no command is carried out but the dash of one leg,
-- which does not ask `M_command_done`.
use rcssserver.Base.{
  ◌≡◌, subst, ◌∙◌, ℕ, ◌+◌, Bool, true, false, ◌&&◌, ◌||◌, ltb, List, [], ◌∷◌, if◌then◌else◌, arith,
}
use rcssserver.Match.State.{ServerParam, Match}
use rcssserver.Players.Body.{
  CommandParam, low, high, leg_none, PlayerBody, is_dash, leg_done, apply_legs_effect,
  reset_command_flags, reset_state, set_foul_charged, update_catch_ban,
}
use rcssserver.Players.Commands.{
  Playing, kick, goalie_catch, move, turn_body, turn_neck, dash, dash_left_leg, dash_right_leg,
}
use rcssserver.Players.Tackles.{tackle}
use rcssserver.Players.Views.{change_view, change_view_width, set_synch_see}
use rcssserver.Players.Runs.{
  PlayerEvent, kick_com, catch_com, move_com, tackle_com, turn_com, turn_neck_com, dash_com,
  dash_left_com, dash_right_com, done_com, synch_see_com, change_view_com, change_view_width_com,
  step_begun, step_ended, state_reset, foul_charged, others, befall, befall_all,
}

-- The steps that begin.
abbrev pub begins : PlayerEvent → ℕ
begins step_begun = 1
begins e = 0

abbrev pub steps_begun : List PlayerEvent → ℕ
steps_begun [] = 0
steps_begun (e ∷ es) = begins e + steps_begun es

-- The match as the others leave it last.
abbrev left_by : PlayerEvent → Match → Match
left_by (others n) m = n
left_by e m = m

abbrev left_by_others : List PlayerEvent → Match → Match
left_by_others [] m = m
left_by_others (e ∷ es) m = left_by_others es (left_by e m)

-- Whether a dash of one leg waits for the step to begin, and the dashes that have begun so.
abbrev pub waits : PlayerEvent → Bool → Bool
waits dash_left_com w = true
waits dash_right_com w = true
waits step_begun w = false
waits e w = w

abbrev begun_dash : PlayerEvent → Bool → ℕ
begun_dash step_begun w = if w then 1 else 0
begun_dash e w = 0

abbrev pub leg_dashes : List PlayerEvent → Bool → ℕ
leg_dashes [] w = 0
leg_dashes (e ∷ es) w = begun_dash e w + leg_dashes es (waits e w)

-- Held while so many steps begin: by its own tackle, or by a foul at it, which another foul may renew.
abbrev pub is_held : CommandParam → ℕ → PlayerBody → Bool
is_held pp n b = ltb n b.tackle_cycles || (ltb n b.foul_cycles && ltb n pp.foul_cycles)

pub record Held (pp : CommandParam) (n : ℕ) (w : Bool) (b : PlayerBody) : Type 0 where
  pub blocked : b.command_done ≡ true
  pub held : is_held pp n b ≡ true
  pub left_free : leg_done b.left_leg ≡ is_dash b.left_leg
  pub right_free : leg_done b.right_leg ≡ is_dash b.right_leg
  pub waiting : (is_dash b.left_leg || is_dash b.right_leg) ≡ w

-- What becomes of a player that does nothing but so many dashes, while the match becomes `m`.
pub record Idle (b : PlayerBody) (more : ℕ) (m : Match) (s : Playing) : Type 0 where
  pub kicks : s.body.kick_count ≡ b.kick_count
  pub catches : s.body.catch_count ≡ b.catch_count
  pub moves : s.body.move_count ≡ b.move_count
  pub tackles : s.body.tackle_count ≡ b.tackle_count
  pub turns : s.body.turn_count ≡ b.turn_count
  pub place : s.body.place ≡ b.place
  pub dashes : s.body.dash_count ≡ b.dash_count + more
  pub game : s.game ≡ m

pub record HeldStep (pp : CommandParam) (n : ℕ) (w : Bool) (e : PlayerEvent) (s t : Playing)
    : Type 0 where
  pub still : Held pp n (waits e w) t.body
  pub idle : Idle s.body (begun_dash e w) (left_by e s.game) t

pub befall-Held :
    (sp : ServerParam) (pp : CommandParam) (n : ℕ) (w : Bool) (e : PlayerEvent) (s : Playing)
    → Held pp (begins e + n) w s.body
    → HeldStep pp n w e s (befall sp pp e s)
unfolding befall kick goalie_catch move tackle turn_body turn_neck dash dash_left_leg dash_right_leg
    change_view change_view_width set_synch_see reset_state set_foul_charged update_catch_ban
    apply_legs_effect reset_command_flags
befall-Held sp pp n w (kick_com k) s h = ground (arith, h)
befall-Held sp pp n w (catch_com c) s h = ground (arith, h)
befall-Held sp pp n w (move_com v) s h = ground (arith, h)
befall-Held sp pp n w (tackle_com t) s h = ground (arith, h)
befall-Held sp pp n w (change_view_com x low) s h = ground (arith, h)
befall-Held sp pp n w (change_view_com x high) s h = ground (arith, h)
befall-Held sp pp n w (change_view_width_com x) s h = ground (arith, h)
befall-Held sp pp n w turn_com s h = ground (arith, h)
befall-Held sp pp n w turn_neck_com s h = ground (arith, h)
befall-Held sp pp n w dash_com s h = ground (arith, h)
befall-Held sp pp n w dash_left_com s h = ground (arith, h)
befall-Held sp pp n w dash_right_com s h = ground (arith, h)
befall-Held sp pp n w done_com s h = ground (arith, h)
befall-Held sp pp n w synch_see_com s h = ground (arith, h)
befall-Held sp pp n w step_begun s h = ground (arith, h)
befall-Held sp pp n w step_ended s h = ground (arith, h)
befall-Held sp pp n w state_reset s h = ground (arith, h)
befall-Held sp pp n w foul_charged s h = ground (arith, h)
befall-Held sp pp n w (others m) s h = ground (arith, h)

Idle-trans :
    (b : PlayerBody) (k l : ℕ) (m n : Match) (s t : Playing)
    → Idle b k m s
    → Idle s.body l n t
    → Idle b (k + l) n t
Idle-trans b k l m n s t h i = record {
  kicks = i.kicks ∙ h.kicks;
  catches = i.catches ∙ h.catches;
  moves = i.moves ∙ h.moves;
  tackles = i.tackles ∙ h.tackles;
  turns = i.turns ∙ h.turns;
  place = i.place ∙ h.place;
  dashes = omega (arith, i.dashes, h.dashes);
  game = i.game;
}

befall_all-Idle :
    (sp : ServerParam) (pp : CommandParam) (n : ℕ) (w : Bool) (es : List PlayerEvent) (s : Playing)
    → Held pp (steps_begun es + n) w s.body
    → Idle s.body (leg_dashes es w) (left_by_others es s.game) (befall_all sp pp es s)
unfolding befall_all
befall_all-Idle sp pp n w [] s h = ground arith
befall_all-Idle sp pp n w (e ∷ es) s h =
    let rest = steps_begun es + n in
    let first = befall-Held sp pp rest w e s (subst (λ k. Held pp k w s.body) (omega arith) h) in
    let after = befall_all-Idle sp pp n (waits e w) es (befall sp pp e s) first.still in
    Idle-trans s.body _ _ _ _ _ _ first.idle (
      subst
        (λ m.
          Idle (befall sp pp e s).body (leg_dashes es (waits e w)) (left_by_others es m)
            (befall_all sp pp es (befall sp pp e s)))
        first.idle.game after)

-- A player who has done its command and is held by its own tackle, or by a foul at it, for more steps than
-- begin, its legs free, does nothing in the meantime, whatever it commands and however it is fouled: it
-- does not kick, catch, move, tackle or turn, and the match is as the others leave it. It dashes,
-- though, in every step that begins after a command to dash with one leg.
pub held-Idle :
    (sp : ServerParam) (pp : CommandParam) (es : List PlayerEvent) (s : Playing)
    → s.body.command_done ≡ true
    → is_held pp (steps_begun es) s.body ≡ true
    → s.body.left_leg ≡ leg_none
    → s.body.right_leg ≡ leg_none
    → Idle s.body (leg_dashes es false) (left_by_others es s.game) (befall_all sp pp es s)
held-Idle sp pp es s done held l r =
    let start : Held pp (steps_begun es) false s.body = ground (arith, done, held, l, r) in
    befall_all-Idle sp pp 0 false es s (subst (λ k. Held pp k false s.body) (omega arith) start)

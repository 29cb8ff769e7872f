-- ===== src/Referees/Offside.antt =====
-- The offside line, the candidates for offside, and the calls of `OffsideRef` (src/referee.cpp).
use rcssserver.Base.{
  ℕ, Bool, true, false, not, ◌&&◌, ◌||◌, ◌==◌, ltb, Option, none, some, List, [], ◌∷◌,
  if◌then◌else◌,
}
use rcssserver.Mode
use rcssserver.Mode.{Side, left, neutral, right, PlayMode, opposite, same_side}
use rcssserver.Match.State.{ServerParam, Player, Match, same_player, place_players_in_field, emit}
use rcssserver.Match.ModeChange.{is_penalty_shoot_out, goal_kick, clear_ball_catcher}
use rcssserver.Referees.Awards.{award}

-- A player and the `x` of its position. Positions are only compared, with each other, with the ball and
-- with the centre line.
pub record Placed : Type 0 where
  pub player : Player
  pub x : ℕ

pub record Field : Type 0 where
  pub centre : ℕ
  pub ball_x : ℕ
  pub placed : List Placed

-- `a` is nearer than `b` to the goal that the side attacks: `>` for LEFT, `<` for RIGHT.
abbrev pub ahead : Side → ℕ → ℕ → Bool
ahead left a b = ltb b a
ahead neutral a b = false
ahead right a b = ltb a b

abbrev pub plays_for : Side → Player → Bool
plays_for s p = p.enabled && same_side p.side s

-- `first` and `second`: the two opponents that are furthest ahead.
abbrev pub push : Side → ℕ → ℕ × ℕ → ℕ × ℕ
push s x (first, second) =
    if ahead s x second
    then (if ahead s x first then (x, first) else (first, x))
    else (first, second)

-- The first loop of `setOffsideMark`, over the opponents of the side.
unfoldable pub last_two : Side → List Placed → ℕ × ℕ → ℕ × ℕ
last_two s [] two = two
last_two s (p ∷ ps) two =
    last_two s ps (if plays_for (opposite s) p.player then push s p.x two else two)

-- The second last opponent, or the ball if it is further ahead.
unfoldable pub offside_line : Side → Field → ℕ
unfolding last_two
offside_line s f =
    let second = (last_two s f.placed (f.centre, f.centre)).1 in
    if ahead s second f.ball_x then second else f.ball_x

-- The second loop: the team mates beyond the line.
unfoldable pub beyond_line : Player → ℕ → List Placed → List Player
beyond_line kicker line [] = []
beyond_line kicker line (p ∷ ps) =
    let rest = beyond_line kicker line ps in
    if plays_for kicker.side p.player
      && (ahead kicker.side p.x line && not (p.player.unum == kicker.unum))
    then p.player ∷ rest
    else rest

unfoldable pub candidates_of : Field → Player → List Player
unfolding offside_line beyond_line
candidates_of f kicker = elim kicker.side [
  | left ↦ beyond_line kicker (offside_line left f) f.placed
  | neutral ↦ []
  | right ↦ beyond_line kicker (offside_line right f) f.placed
]

abbrev pub is_candidate : Player → List Player → Bool
is_candidate p [] = false
is_candidate p (q ∷ qs) = same_player q p || is_candidate p qs

-- `placeBall`, `clearBallCatcher`, `placePlayersInField`.
abbrev stop_offside : ServerParam → PlayMode → Side → Match → Match
stop_offside sp pm s m =
    let n = clear_ball_catcher (award sp pm s m) in
    let o = n.offside in
    emit place_players_in_field
      (record n { offside = record o { candidates = []; after_offside_time = 0 } })

-- `OffsideRef::callOffside`.
unfoldable pub call_offside : ServerParam → Match → Match
call_offside sp m = if is_penalty_shoot_out m.playmode then m else elim m.offside.last_kicker_side [
  | left ↦ stop_offside sp Mode.off_side_left right m
  | neutral ↦ m
  | right ↦ stop_offside sp Mode.off_side_right left m
]

abbrev pub is_at : Option ℕ → ℕ → Bool
is_at none t = false
is_at (some u) t = u == t

-- A second kick in the cycle: nobody is offside.
abbrev forget_kick : Match → Match
forget_kick m =
    let o = m.offside in
    record m { offside = record o { last_kicker_side = neutral; candidates = [] } }

-- The time of the kick, and who has kicked the strongest at this time.
abbrev pub note_kick : Player → ℕ → Match → Match
note_kick kicker accel_r m =
    let o = m.offside in
    let strength = if is_at o.last_kick_time m.time then o.last_kick_accel_r else 0 in
    record m {
      offside = record o {
        last_kick_time = some m.time;
        last_kick_stoppage_time = some m.stoppage_time;
        last_kicker_side = if ltb strength accel_r then kicker.side else o.last_kicker_side;
        last_kick_accel_r = if ltb strength accel_r then accel_r else strength;
      };
    }

-- From these nobody is offside.
abbrev pub no_offside_mode : PlayMode → Bool
no_offside_mode Mode.kick_in_left = true
no_offside_mode Mode.kick_in_right = true
no_offside_mode Mode.corner_kick_left = true
no_offside_mode Mode.corner_kick_right = true
no_offside_mode pm = goal_kick pm

abbrev pub set_candidates : List Player → Match → Match
set_candidates ps m = let o = m.offside in record m { offside = record o { candidates = ps } }

-- The rest of `setOffsideMark`: a candidate at the ball is offside, and else there are new candidates.
abbrev judge_offside : ServerParam → Field → Player → Match → Match
judge_offside sp f kicker m =
    if is_candidate kicker m.offside.candidates
    then call_offside sp m
    else set_candidates (if no_offside_mode m.playmode then [] else candidates_of f kicker) m

-- `OffsideRef::setOffsideMark`, for `kickTaken` and `tackleTaken`, and with no acceleration for
-- `ballTouched`.
unfoldable pub set_offside_mark : ServerParam → Field → Player → ℕ → Match → Match
set_offside_mark sp f kicker accel_r m =
    if not sp.use_offside
    then m
    else if is_at m.offside.last_kick_time m.time
        && is_at m.offside.last_kick_stoppage_time m.stoppage_time
    then forget_kick m
    else judge_offside sp f kicker (note_kick kicker accel_r m)

-- `OffsideRef::checkIntentionalAction`, for `failedKickTaken` and `failedTackleTaken`: a candidate within
-- `offsideActiveArea()` of the ball. There is one entry of a player, so that there is at most one call.
unfoldable pub check_intentional_action : ServerParam → Bool → Player → Match → Match
check_intentional_action sp near kicker m =
    if sp.use_offside && (is_candidate kicker m.offside.candidates && near)
    then call_offside sp m
    else m

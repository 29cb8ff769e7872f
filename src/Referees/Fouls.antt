-- ===== src/Referees/Fouls.antt =====
-- The detection of fouls (`Referee::checkFoul`) and the calls of `FoulRef` (src/referee.cpp), and what
-- `IllegalDefenseRef` notes of kicks.
use rcssserver.Base.{Bool, true, false, not, ◌&&◌, ◌||◌, ◌==◌, List, [], ◌∷◌, if◌then◌else◌}
use rcssserver.Mode
use rcssserver.Mode.{Side, left, neutral, right, PlayMode, same_side}
use rcssserver.Match.State.{
  ServerParam, Player, Match, foul_charged, punish_foul_play, yellow_card, red_card, emit,
}
use rcssserver.Match.ModeChange.{is_penalty_shoot_out, clear_ball_catcher}
use rcssserver.Referees.Awards.{award}

-- What `checkFoul` asks of a player, and the two draws that it may make for it.
pub record Seen : Type 0 where
  pub player : Player
  -- `ballKickable()` and `dashed()`
  pub kickable : Bool
  pub dashed : Bool
  -- no further than the ball, in front of the tackler, on its way, and turned to the ball
  pub in_the_way : Bool
  -- the draws with the probabilities of the detection and of the red card
  pub detected : Bool
  pub red_draw : Bool

pub record Verdict : Type 0 where
  pub charge : Bool
  pub yellow : Bool
  pub red : Bool

abbrev pub no_foul : Verdict
no_foul = record { charge = false; yellow = false; red = false }

-- An enabled opponent of the tackler that can kick the ball.
abbrev is_victim : Player → Seen → Bool
is_victim tackler p = p.player.enabled && (not (same_side p.player.side tackler.side) && p.kickable)

abbrev is_hit : Seen → Bool
is_hit p = p.dashed && p.in_the_way

-- A tackle with the intention to foul.
abbrev intended : Seen → Verdict → Verdict
intended p v =
    if not p.detected
    then v
    else if not (is_hit p)
    then record v { charge = true }
    else record v { charge = true; yellow = not p.red_draw; red = v.red || p.red_draw }

-- A tackle at the ball.
abbrev clumsy : Seen → Verdict → Verdict
clumsy p v =
    if is_hit p && p.detected
    then record v { charge = true; yellow = v.yellow || p.red_draw }
    else v

-- The loop of `checkFoul`.
unfoldable pub check_foul : Player → Bool → List Seen → Verdict → Verdict
check_foul tackler foul [] v = v
check_foul tackler foul (p ∷ ps) v =
    check_foul tackler foul ps
      (if not (is_victim tackler p) then v else if foul then intended p v else clumsy p v)

-- An intentional foul charges all victims.
unfoldable pub charge_victims : Player → Bool → List Seen → Match → Match
charge_victims tackler foul [] m = m
charge_victims tackler foul (p ∷ ps) m =
    charge_victims tackler foul ps
      (if foul && is_victim tackler p then emit (foul_charged p.player.side p.player.unum) m else m)

abbrev foul_award : ServerParam → Side → Match → Match
foul_award sp left m = award sp Mode.foul_charge_left right m
foul_award sp neutral m = m
foul_award sp right m = award sp Mode.foul_charge_right left m

-- `FoulRef::callFoul`.
unfoldable pub call_foul : ServerParam → Player → Match → Match
call_foul sp tackler m =
    let called = foul_award sp tackler.side (clear_ball_catcher m) in
    record (emit (punish_foul_play tackler.side tackler.unum) called) { after_foul_time = 0 }

-- `callRedCard`, `callYellowCard` or `callFoul`.
abbrev punish : ServerParam → Verdict → Player → Match → Match
punish sp v tackler m =
    if v.red
    then emit (red_card tackler.side tackler.unum) (call_foul sp tackler m)
    else if v.yellow
    then emit (yellow_card tackler.side tackler.unum) (call_foul sp tackler m)
    else if v.charge
    then call_foul sp tackler m
    else m

-- `FoulRef::tackleTaken`.
unfoldable pub foul_tackle_taken : ServerParam → List Seen → Bool → Player → Match → Match
unfolding check_foul charge_victims
foul_tackle_taken sp seen foul tackler m =
    if is_penalty_shoot_out m.playmode || sp.keep_away_mode
    then m
    else punish sp (check_foul tackler foul seen no_foul) tackler
        (charge_victims tackler foul seen m)

-- A second kick in the cycle, by the other side or after such a one: nobody has kicked.
unfoldable pub illegal_kick_taken : ServerParam → Player → Match → Match
illegal_kick_taken sp kicker m =
    let d = m.illegal_defense in
    if sp.illegal_defense_number == 0
    then m
    else if (d.last_kick_time == m.time)
        && (not (same_side kicker.side d.last_kicker_side) || same_side d.last_kicker_side neutral)
    then record m { illegal_defense = record d { last_kicker_side = neutral } }
    else record m {
      illegal_defense = record d { last_kicker_side = kicker.side; last_kick_time = m.time };
    }

-- ===== src/Players/Tackles.antt =====
-- `Player::tackle` (src/player.cpp), with what it does to the match.
use rcssserver.Base.{ℕ, ◌+◌, Bool, true, false, not, ◌&&◌, ◌||◌, List, [], ◌∷◌, if◌then◌else◌}
use rcssserver.Mode.{same_side}
use rcssserver.Match.State.{ServerParam, Player}
use rcssserver.Referees.Fouls.{Seen}
use rcssserver.Stadium.Actions.{BallAction, stadium_tackle_taken, failed_action}
use rcssserver.Players.Body.{CommandParam, leg_tackle, PlayerBody, mark, both_legs}
use rcssserver.Players.Commands.{Playing, of_player, is_void_for_tackle}

-- What a tackle comes to: with a tackle distance of 0 on the side of the ball, with a failure probability of
-- 1 or more, or with a draw.
pub data Aim : Type 0 where
  no_distance out_of_range : Aim
  drawn : Bool → Aim

pub record Tackle : Type 0 where
  -- the option `foul`
  pub foul : Bool
  pub aim : Aim
  -- whether the ball is within `offsideActiveArea()`
  pub near : Bool
  -- what the referees see of the players
  pub seen : List Seen
  pub action : BallAction
  pub accel_r : ℕ

-- An enabled opponent has the ball kickable.
abbrev has_victim : Player → List Seen → Bool
has_victim p [] = false
has_victim p (q ∷ qs) =
    (q.player.enabled && (not (same_side q.player.side p.side) && q.kickable)) || has_victim p qs

abbrev tackle_begun : CommandParam → PlayerBody → PlayerBody
tackle_begun pp b = record (both_legs leg_tackle b) {
  command_done = true;
  tackle_cycles = pp.tackle_cycles;
  tackle_count = b.tackle_count + 1;
}

abbrev tackle_failed : PlayerBody → PlayerBody
tackle_failed b = mark (record b.state { tackle_fault_bit = true }) b

abbrev tackle_shown : PlayerBody → PlayerBody
tackle_shown b = mark (record b.state { tackle_bit = true }) b

abbrev tackle_missed : ServerParam → Tackle → Playing → Playing
tackle_missed sp t s = record {
  game = failed_action sp t.near s.body.who s.game;
  body = tackle_failed s.body;
}

-- The tackle that has met the ball. A foul does not hold the player itself.
abbrev tackle_hit : ServerParam → Tackle → Playing → Playing
tackle_hit sp t s =
    let b = tackle_shown s.body in
    let foul = t.foul && has_victim b.who t.seen in
    if is_void_for_tackle s.game.playmode then record s { body = b } else record {
      game = stadium_tackle_taken sp (of_player b t.action) t.seen foul t.accel_r s.game;
      body = if foul then record b { tackle_cycles = 0 } else b;
    }

abbrev pub try_tackle : ServerParam → Tackle → Aim → Playing → Playing
try_tackle sp t no_distance s = record s { body = tackle_failed s.body }
try_tackle sp t out_of_range s = tackle_missed sp t s
try_tackle sp t (drawn true) s = tackle_hit sp t s
try_tackle sp t (drawn false) s =
    let missed = tackle_missed sp t s in record missed { body = tackle_shown missed.body }

-- `Player::tackle`.
unfoldable pub tackle : ServerParam → CommandParam → Tackle → Playing → Playing
tackle sp pp t s =
    if s.body.command_done
    then s
    else try_tackle sp t t.aim (record s { body = tackle_begun pp s.body })

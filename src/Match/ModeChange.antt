-- ===== src/Match/ModeChange.antt =====
-- `Stadium::changePlayMode` (src/stadium.cpp) and what each referee does at a change of mode
-- (the `playModeChange` methods of src/referee.cpp), in the order in which they are registered.
use rcssserver.Base.{
  ℕ, ◌+◌, suc, Bool, true, false, not, ◌&&◌, ◌||◌, Option, none, List, [], ◌∷◌, ℤ, pos, negsuc,
  increment, ◌==◌, if◌then◌else◌,
}
use rcssserver.Mode
use rcssserver.Mode.{
  Side, left, neutral, right, PlayMode, play_on, drop_ball, Phase, setup, ready, taken, miss, score,
  no_phase, phase, same_side,
}
use rcssserver.Match.State.{
  ServerParam, Player, Spot, Match, clear_players_from_ball, recovery_players, keepaway_field_reset,
  keepaway_corner, audio, mode_text, emit,
}

-- `FreeKickRef::goalKick`.
abbrev pub goal_kick : PlayMode → Bool
goal_kick Mode.goal_kick_right = true
goal_kick Mode.goal_kick_left = true
goal_kick _ = false

-- The modes in which the named side takes the kick, as both `FreeKickRef::playModeChange` and
-- `freeKick` list them, without the goal kicks.
abbrev kicker_side : PlayMode → Side
kicker_side Mode.kick_off_left = left
kicker_side Mode.kick_in_left = left
kicker_side Mode.free_kick_left = left
kicker_side Mode.ind_free_kick_left = left
kicker_side Mode.corner_kick_left = left
kicker_side Mode.kick_off_right = right
kicker_side Mode.kick_in_right = right
kicker_side Mode.free_kick_right = right
kicker_side Mode.ind_free_kick_right = right
kicker_side Mode.corner_kick_right = right
kicker_side _ = neutral

-- `FreeKickRef::freeKick`.
abbrev pub is_free_kick : PlayMode → Bool
is_free_kick pm = elim (kicker_side pm) [ left ↦ true | neutral ↦ false | right ↦ true ]

abbrev pub is_play_on : PlayMode → Bool
is_play_on play_on = true
is_play_on _ = false

abbrev pub is_drop_ball : PlayMode → Bool
is_drop_ball drop_ball = true
is_drop_ball _ = false

-- `Referee::isPenaltyShootOut` at its default argument `NEUTRAL`.
abbrev pub is_penalty_shoot_out : PlayMode → Bool
is_penalty_shoot_out pm = elim (phase pm) [ no_phase ↦ false | _ ↦ true ]

-- `clearBallCatcher`.
abbrev pub clear_ball_catcher : Match → Match
clear_ball_catcher m = record m { ball_catcher = none }

-- `OffsideRef::playModeChange`.
unfoldable pub offside_change : PlayMode → Match → Match
offside_change pm m =
    let o = m.offside in
    if is_play_on pm then m else record m { offside = record o { candidates = [] } }

abbrev is_illegal_defense : PlayMode → Bool
is_illegal_defense Mode.illegal_defense_left = true
is_illegal_defense Mode.illegal_defense_right = true
is_illegal_defense _ = false

-- `IllegalDefenseRef::playModeChange`.
unfoldable pub illegal_defense_change : PlayMode → Match → Match
illegal_defense_change pm m =
    let d = m.illegal_defense in
    if is_illegal_defense pm
    then record m { illegal_defense = record d { after_illegal_defense_time = 0 } }
    else m

-- The first chain of tests of `FreeKickRef::playModeChange`.
abbrev pub clear_for_kick : PlayMode → Match → Match
clear_for_kick Mode.goal_kick_left m = emit (clear_players_from_ball right) m
clear_for_kick Mode.goal_kick_right m = emit (clear_players_from_ball left) m
clear_for_kick drop_ball m = emit (clear_players_from_ball neutral) m
clear_for_kick pm m = elim (kicker_side pm) [
  | left ↦ emit (clear_players_from_ball right) m
  | neutral ↦ m
  | right ↦ emit (clear_players_from_ball left) m
]

abbrev is_free_kick_fault : PlayMode → Bool
is_free_kick_fault Mode.free_kick_fault_left = true
is_free_kick_fault Mode.free_kick_fault_right = true
is_free_kick_fault _ = false

-- The count that `FreeKickRef::playModeChange` leaves; `current` is `M_stadium.playmode()`, which
-- is the new mode already.
abbrev goal_kick_count_after : PlayMode → PlayMode → ℤ → ℤ
goal_kick_count_after pm current count =
    if goal_kick pm then (if goal_kick current then increment count else pos 0) else pos 0

-- `FreeKickRef::playModeChange`.
unfoldable pub free_kick_change : ServerParam → PlayMode → Match → Match
free_kick_change sp pm m =
    let r = m.free_kick in
    let waiting = goal_kick pm || is_free_kick pm in
    let fault = is_free_kick_fault pm in
    record (clear_for_kick pm m) {
      ball_catcher = if fault then none else m.ball_catcher;
      free_kick = record r {
        kick_taken = if is_play_on pm then r.kick_taken else false;
        goal_kick_count = goal_kick_count_after pm m.playmode r.goal_kick_count;
        timer = if waiting then pos sp.drop_time else negsuc 0;
        after_free_kick_fault_time = if fault then 0 else r.after_free_kick_fault_time;
      };
    }

-- `TouchRef::indirectFreeKick`.
abbrev pub indirect_free_kick : PlayMode → Bool
indirect_free_kick Mode.ind_free_kick_right = true
indirect_free_kick Mode.ind_free_kick_left = true
indirect_free_kick _ = false

-- `TouchRef::playModeChange`.
unfoldable pub touch_change : PlayMode → Match → Match
touch_change pm m =
    let t = m.touch in
    let last = if is_play_on pm then t.last_touched else none in
    record m {
      touch =
          if indirect_free_kick pm
          then record t { last_touched = last; last_indirect_kicker = none; indirect_mode = true }
          else if not (is_play_on pm) && not (is_drop_ball pm)
          then record t { last_touched = last; last_indirect_kicker = none; indirect_mode = false }
          else record t { last_touched = last };
    }

abbrev back_pass_case : PlayMode → Bool
back_pass_case Mode.back_pass_left = true
back_pass_case _ = false

abbrev catch_fault_case : PlayMode → Bool
catch_fault_case Mode.catch_fault_left = true
catch_fault_case _ = false

-- `CatchRef::playModeChange`. Both tests name the left side twice, and the right side not at all.
unfoldable pub catch_change : PlayMode → Match → Match
catch_change pm m =
    let c = m.catch in
    record m {
      ball_catcher = if back_pass_case pm || catch_fault_case pm then none else m.ball_catcher;
      catch = record c {
        last_back_passer = if is_play_on pm then c.last_back_passer else none;
        before_last_back_passer = if is_play_on pm then c.before_last_back_passer else none;
        after_back_pass_time = if back_pass_case pm then 0 else c.after_back_pass_time;
        after_catch_fault_time = if catch_fault_case pm then 0 else c.after_catch_fault_time;
      };
    }

abbrev is_foul_mode : PlayMode → Bool
is_foul_mode Mode.foul_charge_left = true
is_foul_mode Mode.foul_charge_right = true
is_foul_mode Mode.foul_push_left = true
is_foul_mode Mode.foul_push_right = true
is_foul_mode _ = false

-- `FoulRef::playModeChange`.
unfoldable pub foul_change : PlayMode → Match → Match
foul_change pm m = record m { after_foul_time = if is_foul_mode pm then 0 else m.after_foul_time }

-- The enabled players of a side.
count_enabled : Side → List Player → ℕ
count_enabled s [] = 0
count_enabled s (p ∷ ps) =
    if p.enabled && same_side p.side s then suc (count_enabled s ps) else count_enabled s ps

-- `Stadium::placeBall( kick_off_side, pos )`.
abbrev pub place_ball : Side → Spot → Match → Match
place_ball s spot m = record m { ball = spot; kick_off_side = s }

-- `KeepawayRef::resetField`. Where the players are put is drawn at random, and is one effect.
unfoldable pub reset_field : Match → Match
reset_field m =
    let placed = place_ball neutral keepaway_corner (emit keepaway_field_reset m) in
    let recovered = emit recovery_players placed in
    let k = m.keepaway in record recovered { keepaway = record k { take_time = 0 } }

-- `KeepawayRef::playModeChange`, without the header that it logs.
unfoldable pub keepaway_change : ServerParam → PlayMode → Match → Match
unfolding count_enabled reset_field
keepaway_change sp pm m =
    let k = m.keepaway in
    if sp.keep_away_mode && (is_play_on pm && (k.episode == 0))
    then reset_field (record m {
      keepaway = record k {
        episode = 1;
        keepers = k.keepers + count_enabled left m.players;
        takers = k.takers + count_enabled right m.players;
      };
    })
    else m

-- The time that `PenaltyRef::playModeChange` gives a mode, and what becomes of the last taker.
abbrev pub phase_timer : ServerParam → Phase → ℤ → ℤ
phase_timer sp setup t = pos sp.pen_setup_wait
phase_timer sp ready t = pos sp.pen_ready_wait
phase_timer sp taken t = pos sp.pen_taken_wait
phase_timer sp miss t = pos sp.pen_before_setup_wait
phase_timer sp score t = pos sp.pen_before_setup_wait
phase_timer sp no_phase t = t

abbrev pub phase_taker : Phase → Option Player → Option Player
phase_taker taken p = p
phase_taker _ p = none

-- `PenaltyRef::playModeChange`.
unfoldable pub penalty_change : ServerParam → PlayMode → Match → Match
penalty_change sp pm m =
    let r = m.penalty in
    if is_penalty_shoot_out m.playmode
    then record m {
      penalty = record r {
        timer = phase_timer sp (phase pm) r.timer;
        last_taker = phase_taker (phase pm) r.last_taker;
      };
    }
    else m

abbrev mode_kick_off_side : PlayMode → Side → Side
mode_kick_off_side Mode.goal_kick_left s = left
mode_kick_off_side Mode.illegal_defense_right s = left
mode_kick_off_side Mode.goal_kick_right s = right
mode_kick_off_side Mode.illegal_defense_left s = right
mode_kick_off_side drop_ball s = neutral
mode_kick_off_side pm s = elim (kicker_side pm) [ left ↦ left | neutral ↦ s | right ↦ right ]

abbrev pub announce_mode : PlayMode → Match → Match
announce_mode Mode.after_goal_left m = m
announce_mode Mode.after_goal_right m = m
announce_mode pm m = emit (audio (mode_text pm)) m

-- What the referees do at a change of mode. `TimeRef` and `BallStuckRef` do nothing.
unfoldable referees_change : ServerParam → PlayMode → Match → Match
referees_change sp pm m = penalty_change sp pm (
    keepaway_change sp pm (
      illegal_defense_change pm (
        foul_change pm
          (catch_change pm (touch_change pm (free_kick_change sp pm (offside_change pm m)))))))

-- `Stadium::changePlayMode`.
unfoldable pub change_play_mode : ServerParam → PlayMode → Match → Match
unfolding referees_change
change_play_mode sp pm m =
    let n = referees_change sp pm (record m { playmode = pm }) in
    announce_mode pm (record n {
      kick_off_side = mode_kick_off_side pm n.kick_off_side;
      last_playon_start = if is_play_on pm then n.time else n.last_playon_start;
    })

-- `Stadium::placeBall( pm, kick_off_side, pos )`.
unfoldable pub place_ball_mode : ServerParam → PlayMode → Side → Spot → Match → Match
place_ball_mode sp pm s spot m =
    let placed = place_ball s spot m in
    if is_penalty_shoot_out m.playmode && (is_play_on pm || is_drop_ball pm)
    then placed
    else change_play_mode sp pm placed

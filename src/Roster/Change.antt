-- ===== src/Roster/Change.antt =====
-- `OnlineCoach::change_player_type` and `change_player_type_goalie` (src/coach.cpp).
use rcssserver.Base.{
  ℕ, suc, ◌+◌, ◌*◌, Bool, true, false, not, ◌&&◌, ◌==◌, ltb, leb, if◌then◌else◌, Option, none, some,
  List, [], ◌∷◌, ℤ, pos, negsuc,
}
use rcssserver.Mode
use rcssserver.Mode.{PlayMode}
use rcssserver.Match.State.{ServerParam}
use rcssserver.Roster.State.{PlayerParam, RosterPlayer, Roster}
use rcssserver.Roster.Team.{has_enabled_goalie, substitute, change_player_to_goalie}

-- What the coach is told.
pub data Answer : Type 0 where
  cannot_sub_while_playon cannot_sub_while_penalty_shootouts no_subs_left : Answer
  out_of_range_player_type no_left_of_that_type no_such_player max_of_that_type_on_field : Answer
  cannot_change_goalie_while_playon cannot_change_goalie_while_penalty_taken : Answer
  goalie_already_exists : Answer
  ok_change_player_type : ℕ → ℕ → Answer
  ok_change_goalie : ℕ → Answer

-- The time of all halves is over; a negative `halfTime()` has no end.
abbrev pub is_time_elapsed : ServerParam → ℕ → Bool
is_time_elapsed sp time = elim sp.half_time [
  | pos half_time ↦
      leb (half_time * sp.nr_normal_halfs + sp.extra_half_time * sp.nr_extra_halfs) time
  | negsuc n ↦ false
]

-- A player found in the rest of a list stands one position further.
abbrev pub one_further : Option (ℕ × RosterPlayer) → Option (ℕ × RosterPlayer)
one_further none = none
one_further (some (i, pl)) = some (suc i, pl)

-- The first player of the list with the number, and its position.
abbrev pub find_player : ℕ → List RosterPlayer → Option (ℕ × RosterPlayer)
find_player unum [] = none
find_player unum (pl ∷ pls) =
    let rest = find_player unum pls in if pl.unum == unum then some (0, pl) else one_further rest

abbrev pub is_free_default : PlayerParam → ℕ → Bool
is_free_default p type = (type == 0) && p.allow_mult_default_type

-- Players of the type were used, and no more may be.
abbrev pub is_used_up : PlayerParam → ℕ → Roster → Bool
is_used_up p type team =
    let used = team.ptype_used_count (some type) in
    ltb 0 used && (not (is_free_default p type) && leb p.pt_max used)

-- The field has as many of the type as it may, and the player is none of them.
abbrev pub is_too_many : PlayerParam → ℕ → RosterPlayer → Roster → Bool
is_too_many p type pl team =
    not (is_free_default p type)
    && (leb p.pt_max (team.ptype_count (some type))
        && not (pl.substituted && (type == pl.player_type_id)))

-- `Stadium::substitute`: the clients are told in any case.
abbrev pub stadium_substitute : PlayerParam → ℕ → ℕ → RosterPlayer → ℕ → Roster → Roster
stadium_substitute p time i pl type team =
    let team' = substitute p time i pl type team in
    record team' { broadcasts = (pl.unum, type) ∷ team'.broadcasts }

-- The tests on the player and the substitution.
abbrev pub change_found : PlayerParam → ℕ → ℕ → Option (ℕ × RosterPlayer) → Roster → Answer × Roster
change_found p time type none team = (no_such_player, team)
change_found p time type (some (i, pl)) team =
    if is_too_many p type pl team
    then (max_of_that_type_on_field, team)
    else (ok_change_player_type pl.unum type, stadium_substitute p time i pl type team)

abbrev pub trainer_change_found :
    PlayerParam → ℕ → ℕ → Option (ℕ × RosterPlayer) → Roster → Answer × Roster
trainer_change_found p time type none team = (no_such_player, team)
trainer_change_found p time type (some (i, pl)) team =
    (ok_change_player_type pl.unum type, stadium_substitute p time i pl type team)

-- The tests on the type; a negative one is refused like one that is too large.
abbrev pub change_to : PlayerParam → ℕ → ℕ → ℤ → Roster → Answer × Roster
change_to p time unum (negsuc n) team = (out_of_range_player_type, team)
change_to p time unum (pos type) team =
    if leb p.player_types type
    then (out_of_range_player_type, team)
    else if is_used_up p type team
    then (no_left_of_that_type, team)
    else change_found p time type (find_player unum team.players) team

abbrev pub is_play_on : PlayMode → Bool
is_play_on Mode.play_on = true
is_play_on mode = false

-- `OnlineCoach::change_player_type`.
unfoldable pub change_player_type :
    PlayerParam → ServerParam → PlayMode → ℕ → ℕ → ℤ → Roster → Answer × Roster
change_player_type p sp mode time unum type team =
    if is_play_on mode
    then (cannot_sub_while_playon, team)
    else if is_time_elapsed sp time
    then (cannot_sub_while_penalty_shootouts, team)
    else if leb p.subs_max team.subs_count
    then (no_subs_left, team)
    else change_to p time unum type team

-- `Coach::change_player_type`, of the trainer, for a team that it named.
unfoldable pub trainer_change_player_type : PlayerParam → ℕ → ℕ → ℤ → Roster → Answer × Roster
trainer_change_player_type p time unum (negsuc n) team = (out_of_range_player_type, team)
trainer_change_player_type p time unum (pos type) team =
    if leb p.player_types type
    then (out_of_range_player_type, team)
    else trainer_change_found p time type (find_player unum team.players) team

-- The loop of `Coach::change_player_type_goalie_impl`: the last enabled player with the number.
abbrev pub find_enabled : ℕ → List RosterPlayer → Option (ℕ × RosterPlayer)
find_enabled unum [] = none
find_enabled unum (pl ∷ pls) = elim (find_enabled unum pls) [
  | some (i, found) ↦ some (suc i, found)
  | none ↦ if pl.enabled && (pl.unum == unum) then some (0, pl) else none
]

-- The modes between the start of a kick of the shoot-out and its end.
abbrev pub is_penalty_taken : PlayMode → Bool
is_penalty_taken Mode.penalty_ready_left = true
is_penalty_taken Mode.penalty_ready_right = true
is_penalty_taken Mode.penalty_taken_left = true
is_penalty_taken Mode.penalty_taken_right = true
is_penalty_taken mode = false

-- The end of `Coach::change_player_type_goalie_impl`.
abbrev pub change_found_goalie : Option (ℕ × RosterPlayer) → Roster → Answer × Roster
change_found_goalie none team = (no_such_player, team)
change_found_goalie (some (i, pl)) team =
    (ok_change_goalie pl.unum, (change_player_to_goalie i pl team).1)

-- `OnlineCoach::change_player_type_goalie`.
unfoldable pub change_player_type_goalie : PlayMode → ℕ → Roster → Answer × Roster
change_player_type_goalie mode unum team =
    if is_play_on mode
    then (cannot_change_goalie_while_playon, team)
    else if is_penalty_taken mode
    then (cannot_change_goalie_while_penalty_taken, team)
    else if has_enabled_goalie team.players
    then (goalie_already_exists, team)
    else change_found_goalie (find_enabled unum team.players) team

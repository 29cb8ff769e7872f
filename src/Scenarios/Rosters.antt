-- ===== src/Scenarios/Rosters.antt =====
-- A team with its types and substitutions, and the theorems on them at concrete requests.
use rcssserver.Base.{
  ◌≡◌, refl, arith, ◌+◌, ◌≤◌, true, false, none, some, List, [], ◌∷◌, length, pos,
}
use rcssserver.Mode
use rcssserver.Roster.State.{PlayerParam, Roster, new_roster}
use rcssserver.Roster.Team.{
  count_keys, init_player, new_player, substitute, change_player_to_goalie, assign_player_types,
  in_order,
}
use rcssserver.Roster.Change.{
  change_player_type, trainer_change_player_type, change_player_type_goalie, find_player,
  ok_change_player_type,
}
use rcssserver.Roster.Session.{
  Request, join, coach_change, trainer_change, goalie_change, disconnect, reconnect, serve,
  serve_all, serve_all-counts,
}
use rcssserver.Roster.Bounds.{IsBounded, change_player_type-IsBounded, assign_player_types-used}
use rcssserver.Roster.GoalieCounts.{count_goalies}
use rcssserver.Roster.Goalies.{reconnections, serve_all-one_goalie}
use rcssserver.Scenarios.Matches.{params}

abbrev types : PlayerParam
types = record { player_types = 18; subs_max = 3; pt_max = 1; allow_mult_default_type = false }

-- A goalie and two more join.
abbrev joined : List Request
joined = join true true ∷ join true false ∷ join true false ∷ []

abbrev three : Roster
three = record new_roster {
  players = init_player 0 true ∷ init_player 1 false ∷ init_player 2 false ∷ [];
  ptype_count = count_keys (init_player 0 true ∷ init_player 1 false ∷ init_player 2 false ∷ []);
  ptype_used_count =
      count_keys (init_player 0 true ∷ init_player 1 false ∷ init_player 2 false ∷ []);
}

abbrev requests : List Request
requests =
    join true true
    ∷ join true true
    ∷ join true false
    ∷ coach_change params Mode.kick_in_left 3 2 (pos 7)
    ∷ goalie_change Mode.kick_in_left 2
    ∷ trainer_change 4 1 (pos 5)
    ∷ disconnect 1
    ∷ goalie_change Mode.kick_in_left 2
    ∷ reconnect true 1
    ∷ []

serve_all-counts_example :
    (serve_all types requests new_roster).ptype_count (some 7)
    ≡ count_keys (serve_all types requests new_roster).players (some 7)
serve_all-counts_example = serve_all-counts types requests (some 7)

-- The goalie comes back when another player has become the goalie.
two_goalies : count_goalies (serve_all types requests new_roster).players ≡ 2
unfolding serve_all serve new_player substitute change_player_to_goalie change_player_type
    trainer_change_player_type change_player_type_goalie
two_goalies = refl

serve_all-one_goalie_example :
    (length (serve_all types requests new_roster).players ≤ 11)
    × (count_goalies (serve_all types requests new_roster).players ≤ 1 + reconnections requests)
serve_all-one_goalie_example = serve_all-one_goalie types requests

three-IsBounded : IsBounded types three
three-IsBounded = record {
  subs = omega arith;
  used = λ type. ground arith;
  here = λ type. ground arith;
}

change_player_type-IsBounded_example :
    IsBounded types (change_player_type types params Mode.kick_in_left 3 2 (pos 7) three).1
change_player_type-IsBounded_example =
    change_player_type-IsBounded types params Mode.kick_in_left 3 2 (pos 7) three (omega arith)
      three-IsBounded

assign_player_types-used_example :
    (assign_player_types types false three).ptype_used_count (some 2) ≤ 1
assign_player_types-used_example = assign_player_types-used types false three 2 (omega arith)

-- The players get the types 0, 1 and 2; the first is not marked.
assigned_types :
    let t = assign_player_types types false three in
    (find_player 1 t.players ≡ some (0, init_player 0 true))
    × (t.ptype_count none ≡ 0)
    × (t.ptype_count (some 0) ≡ 1)
    × (t.ptype_count (some 2) ≡ 1)
unfolding assign_player_types in_order
assigned_types = (refl, refl, refl, refl)

-- The coach is told that the first player has changed.
told_ok :
    (change_player_type types params Mode.kick_in_left 3 1
      (pos 7)
      (assign_player_types types false three)).0
    ≡ ok_change_player_type 1 7
unfolding change_player_type assign_player_types in_order
told_ok = refl

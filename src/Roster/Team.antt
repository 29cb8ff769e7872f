-- ===== src/Roster/Team.antt =====
-- The operations of `Team` on its players (src/team.cpp).
use rcssserver.Base.{
  ℕ, zero, suc, Bool, true, false, not, ◌&&◌, ◌||◌, ◌==◌, ltb, leb, if◌then◌else◌, Option, none,
  some, List, [], ◌∷◌, ◌++◌, length,
}
use rcssserver.Match.State.{max_player}
use rcssserver.Roster.State.{
  PlayerParam, RosterPlayer, substitute_player, Key, key, Counts, is_key, add_one, take_one, Roster,
  no_counts, get_elem?, set_elem,
}

abbrev pub has_goalie : List RosterPlayer → Bool
has_goalie [] = false
has_goalie (pl ∷ pls) = pl.goalie || has_goalie pls

-- The player at position `M_size`, as `Stadium` makes it and `Player::init` enables it.
abbrev pub init_player : ℕ → Bool → RosterPlayer
init_player n goalie_flag = record {
  unum = suc n;
  goalie = goalie_flag;
  enabled = true;
  player_type_id = 0;
  substituted = false;
  card_count = 0;
  state = record {
    is_stand = true;
    is_goalie = goalie_flag;
    is_discard = false;
    is_yellow_card = false;
    is_red_card = false;
    other_bits = 0;
  };
  recoveries = 0;
}

-- `Team::newPlayer`; `init_ok` is the result of `Player::init`. No player is the null pointer.
unfoldable pub new_player : Bool → Bool → Roster → Option Roster
new_player init_ok goalie_flag team =
    if leb max_player (length team.players)
    then none
    else if goalie_flag && has_goalie team.players
    then none
    else if not init_ok
    then none
    else some record team {
      players = team.players ++ (init_player (length team.players) goalie_flag ∷ []);
      ptype_count = add_one none team.ptype_count;
      ptype_used_count = add_one none team.ptype_used_count;
    }

-- The loop that counts the players anew.
abbrev pub count_keys : List RosterPlayer → Counts
count_keys [] = no_counts
count_keys (pl ∷ pls) = add_one (key pl) (count_keys pls)

-- The positions in the order of the assignment: goalies in front, each before those that stand there.
unfoldable pub in_order : ℕ → List RosterPlayer → List ℕ → List ℕ
in_order i [] order = order
in_order i (pl ∷ pls) order =
    in_order (suc i) pls (if pl.goalie then i ∷ order else order ++ (i ∷ []))

-- The first type of the `n` from `type` on that fewer than `ptMax()` players have used.
abbrev pub free_type : PlayerParam → Counts → ℕ → ℕ → Option ℕ
free_type p used zero type = none
free_type p used (suc n) type =
    let rest = free_type p used n (suc type) in
    if leb p.pt_max (used (some type)) then rest else some type

-- The body of the loop over the types, at the type that is free.
abbrev pub assign_type : PlayerParam → ℕ → RosterPlayer → ℕ → Roster → Roster
assign_type p i pl type team =
    let counted = record team {
      ptype_count = take_one (key pl) (add_one (some type) team.ptype_count);
      ptype_used_count = take_one (key pl) (add_one (some type) team.ptype_used_count);
    } in
    if not (pl.player_type_id == type)
    then record counted {
      players = set_elem team.players i (substitute_player p type pl);
      broadcasts = (pl.unum, type) ∷ team.broadcasts;
    }
    else counted

-- Who has a type that is not used too often keeps it.
abbrev pub keeps_type : PlayerParam → Key → Counts → Bool
keeps_type p none used = false
keeps_type p (some type) used = leb (used (some type)) p.pt_max

-- The loop over the types, by what it finds.
abbrev pub assign_new : PlayerParam → ℕ → RosterPlayer → Option ℕ → Roster → Roster
assign_new p i pl none team = team
assign_new p i pl (some type) team = assign_type p i pl type team

abbrev pub assign_found : PlayerParam → ℕ → Option RosterPlayer → Roster → Roster
assign_found p i none team = team
assign_found p i (some pl) team =
    if keeps_type p (key pl) team.ptype_used_count
    then team
    else assign_new p i pl (free_type p team.ptype_used_count p.player_types 0) team

-- The body of the loop over the players.
abbrev pub assign_player : PlayerParam → ℕ → Roster → Roster
assign_player p i team = assign_found p i (get_elem? team.players i) team

abbrev pub assign_players : PlayerParam → List ℕ → Roster → Roster
assign_players p [] team = team
assign_players p (i ∷ is) team = assign_players p is (assign_player p i team)

-- `Team::assignPlayerTypes`; `no_halves` is that `nrNormalHalfs()` and `nrExtraHalfs()` are 0.
unfoldable pub assign_player_types : PlayerParam → Bool → Roster → Roster
unfolding in_order
assign_player_types p no_halves team =
    let counted = record team {
      ptype_count = count_keys team.players;
      ptype_used_count = count_keys team.players;
    } in
    if p.allow_mult_default_type || no_halves
    then counted
    else assign_players p (in_order 0 team.players []) counted

-- The end of `Team::substitute`, for the player at position `i`.
abbrev replace_player : PlayerParam → ℕ → ℕ → RosterPlayer → ℕ → Roster → Roster
replace_player p time i pl type team =
    let replaced = record team {
      players = set_elem team.players i (substitute_player p type pl);
      ptype_count = add_one (some type) (take_one (key pl) team.ptype_count);
    } in
    if ltb 0 time
    then record replaced {
      subs_count = suc team.subs_count;
      ptype_used_count = add_one (some type) team.ptype_used_count;
    }
    else replaced

-- `Team::substitute` of the player `pl` at position `i`.
unfoldable pub substitute : PlayerParam → ℕ → ℕ → RosterPlayer → ℕ → Roster → Roster
substitute p time i pl type team =
    if not (is_key p (key pl)) || not (is_key p (some type))
    then team
    else if leb (team.ptype_count (key pl)) 0
    then team
    else replace_player p time i pl type team

-- The loop of `changePlayerToGoalie`: an enabled goalie ends it.
abbrev pub has_enabled_goalie : List RosterPlayer → Bool
has_enabled_goalie [] = false
has_enabled_goalie (pl ∷ pls) = (pl.enabled && pl.goalie) || has_enabled_goalie pls

-- `Player::setEnable`.
abbrev pub enable_player : RosterPlayer → RosterPlayer
enable_player pl = record pl {
  enabled = true;
  state = record pl.state {
    is_stand = true;
    is_goalie = pl.goalie;
    is_discard = false;
    is_yellow_card = false;
    is_red_card = false;
    other_bits = 0;
  };
}

-- `Player::changeToGoalie`, but for the names.
abbrev pub change_to_goalie : RosterPlayer → RosterPlayer
change_to_goalie pl = enable_player (record pl { goalie = true })

-- `Team::changePlayerToGoalie`, with its result.
unfoldable pub change_player_to_goalie : ℕ → RosterPlayer → Roster → Bool × Roster
change_player_to_goalie i pl team =
    if has_enabled_goalie team.players
    then (false, team)
    else if not pl.enabled
    then (false, team)
    else (true, record team { players = set_elem team.players i (change_to_goalie pl) })

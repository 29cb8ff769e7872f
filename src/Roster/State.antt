-- ===== src/Roster/State.antt =====
-- The part of `Player` (src/player.h) and `Team` (src/team.h) that substitutions read and write.
use rcssserver.Base.{
  ℕ, zero, suc, ◌-◌, Bool, true, false, ◌==◌, ltb, if◌then◌else◌, Option, none, some, List, [], ◌∷◌,
}

pub record PlayerParam : Type 0 where
  pub player_types : ℕ
  pub subs_max : ℕ
  pub pt_max : ℕ
  pub allow_mult_default_type : Bool

-- The bits of `M_state`: the three that a substitution keeps, the cards, and the others together.
pub record PlayerState : Type 0 where
  pub is_stand : Bool
  pub is_goalie : Bool
  pub is_discard : Bool
  pub is_yellow_card : Bool
  pub is_red_card : Bool
  pub other_bits : ℕ

-- `recoveries` counts the calls of `recoverAll`, which sets stamina and hearing.
pub record RosterPlayer : Type 0 where
  pub unum : ℕ
  pub goalie : Bool
  pub enabled : Bool
  pub player_type_id : ℕ
  pub substituted : Bool
  pub card_count : ℕ
  pub state : PlayerState
  pub recoveries : ℕ

-- `Player::setPlayerType`: a type that is not there changes nothing.
abbrev set_player_type : PlayerParam → ℕ → RosterPlayer → RosterPlayer
set_player_type p type pl =
    if ltb type p.player_types then record pl { player_type_id = type } else pl

-- `Player::substitute`.
abbrev pub substitute_player : PlayerParam → ℕ → RosterPlayer → RosterPlayer
substitute_player p type pl =
    let pl' = set_player_type p type pl in
    record pl' {
      recoveries = suc pl'.recoveries;
      state = record pl'.state { is_yellow_card = false; is_red_card = false; other_bits = 0 };
      card_count = 0;
      substituted = true;
    }

-- A key of the maps of counts: `none` is -1, the default type of who was never substituted.
abbrev pub Key : Type 0
Key = Option ℕ

abbrev pub key : RosterPlayer → Key
key pl = if pl.substituted then some pl.player_type_id else none

abbrev pub same_key : Key → Key → Bool
same_key none none = true
same_key (some a) (some b) = a == b
same_key _ _ = false

-- A map of counts. The keys are -1 and the types, as the constructor of `Team` makes them.
abbrev pub Counts : Type 0
Counts = Key → ℕ

abbrev pub is_key : PlayerParam → Key → Bool
is_key p none = true
is_key p (some type) = ltb type p.player_types

-- `count[ k ] += 1` and `count[ k ] -= 1`.
abbrev pub add_one : Key → Counts → Counts
add_one k c j = if same_key j k then suc (c j) else c j

abbrev pub take_one : Key → Counts → Counts
take_one k c j = if same_key j k then c j - 1 else c j

-- `Team`, with its first `M_size` players. `broadcasts` are the substitutions that the clients were
-- told, the last one first.
pub record Roster : Type 0 where
  pub players : List RosterPlayer
  pub subs_count : ℕ
  pub ptype_count : Counts
  pub ptype_used_count : Counts
  pub broadcasts : List (ℕ × ℕ)

abbrev pub no_counts : Counts
no_counts k = 0

-- The constructor of `Team`.
abbrev pub new_roster : Roster
new_roster = record {
  players = [];
  subs_count = 0;
  ptype_count = no_counts;
  ptype_used_count = no_counts;
  broadcasts = [];
}

-- A player at a position of the list, and the list with another one there.
abbrev pub get_elem? : List RosterPlayer → ℕ → Option RosterPlayer
get_elem? [] i = none
get_elem? (x ∷ xs) i = elim i [ zero ↦ some x | suc j ↦ get_elem? xs j ]

abbrev pub set_elem : List RosterPlayer → ℕ → RosterPlayer → List RosterPlayer
set_elem [] i y = []
set_elem (x ∷ xs) i y = elim i [ zero ↦ y ∷ xs | suc j ↦ x ∷ set_elem xs j y ]

-- ===== src/Roster/GoalieCounts.antt =====
-- How many enabled goalies a list of players has (src/team.cpp).
use rcssserver.Base.{
  ◌≡◌, refl, ap, ℕ, zero, suc, ◌+◌, ◌≤◌, false, ◌&&◌, ltb, if◌then◌else◌, if_elim, some, List, [],
  ◌∷◌, ◌++◌, length, arith,
}
use rcssserver.Roster.State.{PlayerParam, RosterPlayer, substitute_player, get_elem?, set_elem}
use rcssserver.Roster.Team.{has_goalie, has_enabled_goalie}
use rcssserver.Roster.Session.{same_at}

abbrev pub goalie_count : RosterPlayer → ℕ
goalie_count pl = if pl.enabled && pl.goalie then 1 else 0

abbrev pub count_goalies : List RosterPlayer → ℕ
count_goalies [] = 0
count_goalies (pl ∷ pls) = goalie_count pl + count_goalies pls

pub count_goalies-append :
    (pls : List RosterPlayer) (pl : RosterPlayer)
    → count_goalies (pls ++ (pl ∷ [])) ≡ count_goalies pls + goalie_count pl
count_goalies-append [] pl = omega arith
count_goalies-append (x ∷ pls) pl = omega (arith, count_goalies-append pls pl)

pub no_enabled_goalie :
    (pls : List RosterPlayer) → has_enabled_goalie pls ≡ false → count_goalies pls ≡ 0
no_enabled_goalie [] h = refl
no_enabled_goalie (pl ∷ pls) h = ground (arith, no_enabled_goalie pls)

pub no_goalie : (pls : List RosterPlayer) → has_goalie pls ≡ false → count_goalies pls ≡ 0
no_goalie [] h = refl
no_goalie (pl ∷ pls) h = ground (arith, no_goalie pls)

pub length-set_elem :
    (pls : List RosterPlayer) (i : ℕ) (pl : RosterPlayer) → length (set_elem pls i pl) ≡ length pls
length-set_elem [] i pl = refl
length-set_elem (x ∷ pls) zero pl = refl
length-set_elem (x ∷ pls) (suc i) pl = ap suc (length-set_elem pls i pl)

pub set_elem-goalies :
    (pls : List RosterPlayer) (i : ℕ) (pl pl' : RosterPlayer)
    → get_elem? pls i ≡ some pl
    → goalie_count pl' ≡ goalie_count pl
    → count_goalies (set_elem pls i pl') ≡ count_goalies pls
set_elem-goalies [] i pl pl' e h = refl
set_elem-goalies (x ∷ pls) zero pl pl' e h = omega (arith, same_at goalie_count x pl pl' e h)
set_elem-goalies (x ∷ pls) (suc i) pl pl' e h = omega (arith, set_elem-goalies pls i pl pl' e h)

pub set_elem-one_goalie :
    (pls : List RosterPlayer) (i : ℕ) (pl : RosterPlayer)
    → count_goalies (set_elem pls i pl) ≤ suc (count_goalies pls)
set_elem-one_goalie [] i pl = omega arith
set_elem-one_goalie (x ∷ pls) zero pl = ground arith
set_elem-one_goalie (x ∷ pls) (suc i) pl = omega (arith, set_elem-one_goalie pls i pl)

pub substitute_player-goalie :
    (p : PlayerParam) (type : ℕ) (pl : RosterPlayer)
    → goalie_count (substitute_player p type pl) ≡ goalie_count pl
substitute_player-goalie p type pl =
    if_elim (λ (x : RosterPlayer). (if x.enabled && x.goalie then 1 else 0) ≡ goalie_count pl)
      (ltb type p.player_types) (λ _. refl) (λ _. refl)

pub set_elem-fewer :
    (pls : List RosterPlayer) (i k : ℕ) (pl pl' : RosterPlayer)
    → get_elem? pls i ≡ some pl
    → goalie_count pl' ≤ k + goalie_count pl
    → count_goalies (set_elem pls i pl') ≤ k + count_goalies pls
set_elem-fewer [] i k pl pl' e h = omega arith
set_elem-fewer (x ∷ pls) zero k pl pl' e h = omega (arith, h, same_at goalie_count x pl pl e refl)
set_elem-fewer (x ∷ pls) (suc i) k pl pl' e h = omega (arith, set_elem-fewer pls i k pl pl' e h)

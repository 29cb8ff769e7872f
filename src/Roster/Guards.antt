-- ===== src/Roster/Guards.antt =====
-- The ways through the commands that change a player's type (src/coach.cpp): each leaves the team as
-- it is, or substitutes a player who stands in it.
use rcssserver.Base.{
  ◌≡◌, refl, ℕ, suc, false, ◌==◌, leb, ◌&&◌, if◌then◌else◌, if_elim, Option, none, some, List, [],
  ◌∷◌, ℤ, pos, negsuc,
}
use rcssserver.Mode.{PlayMode}
use rcssserver.Match.State.{ServerParam}
use rcssserver.Roster.State.{PlayerParam, RosterPlayer, Roster, get_elem?}
use rcssserver.Roster.Team.{change_player_to_goalie, has_enabled_goalie}
use rcssserver.Roster.Change.{
  Answer, stadium_substitute, change_found, change_to, is_too_many, change_player_type, is_play_on,
  is_time_elapsed, find_player, one_further, is_used_up, trainer_change_found,
  trainer_change_player_type, find_enabled, change_found_goalie, change_player_type_goalie,
  is_penalty_taken,
}

-- What is found stands in the list.
abbrev pub IsFound : List RosterPlayer → Option (ℕ × RosterPlayer) → Type 0
IsFound pls none = Unit
IsFound pls (some (i, pl)) = get_elem? pls i ≡ some pl

one_further-IsFound :
    (x : RosterPlayer) (pls : List RosterPlayer) (o : Option (ℕ × RosterPlayer))
    → IsFound pls o
    → IsFound (x ∷ pls) (one_further o)
one_further-IsFound x pls none h = tt
one_further-IsFound x pls (some (i, pl)) h = h

pub find_player-IsFound : (unum : ℕ) (pls : List RosterPlayer) → IsFound pls (find_player unum pls)
find_player-IsFound unum [] = tt
find_player-IsFound unum (pl ∷ pls) =
    if_elim (IsFound (pl ∷ pls)) (pl.unum == unum) (λ _. refl)
      (λ _. one_further-IsFound pl pls (find_player unum pls) (find_player-IsFound unum pls))

find_enabled-IsFound : (unum : ℕ) (pls : List RosterPlayer) → IsFound pls (find_enabled unum pls)
find_enabled-IsFound unum [] = tt
find_enabled-IsFound unum (pl ∷ pls) = later (find_enabled unum pls) (find_enabled-IsFound unum pls)
  where
    later :
        (o : Option (ℕ × RosterPlayer))
        → IsFound pls o
        → IsFound (pl ∷ pls) (elim o [
          | some (i, found) ↦ some (suc i, found)
          | none ↦ if pl.enabled && (pl.unum == unum) then some (0, pl) else none
        ])
    later none h =
        if_elim (IsFound (pl ∷ pls)) (pl.enabled && (pl.unum == unum)) (λ _. refl) (λ _. tt)
    later (some (i, found)) h = h

-- A property of teams that every substitution of the command keeps holds after the command.
module _ (P : Roster → Type 0) (p : PlayerParam) (time : ℕ) (team : Roster) (start : P team) where
  change_found-cases :
      (type : ℕ) (o : Option (ℕ × RosterPlayer))
      → IsFound team.players o
      → ((i : ℕ) (pl : RosterPlayer)
          → get_elem? team.players i ≡ some pl
          → is_too_many p type pl team ≡ false
          → P (stadium_substitute p time i pl type team))
      → P (change_found p time type o team).1
  change_found-cases type none f step = start
  change_found-cases type (some (i, pl)) f step =
      if_elim (λ (r : Answer × Roster). P r.1) (is_too_many p type pl team) (λ _. start)
        (λ h. step i pl f h)

  change_to-cases :
      (unum : ℕ) (type : ℤ)
      → ((i : ℕ) (pl : RosterPlayer) (ty : ℕ)
          → get_elem? team.players i ≡ some pl
          → leb p.player_types ty ≡ false
          → is_used_up p ty team ≡ false
          → is_too_many p ty pl team ≡ false
          → P (stadium_substitute p time i pl ty team))
      → P (change_to p time unum type team).1
  change_to-cases unum (negsuc n) step = start
  change_to-cases unum (pos type) step =
      if_elim (λ (r : Answer × Roster). P r.1) (leb p.player_types type) (λ _. start)
        (λ valid.
          if_elim (λ (r : Answer × Roster). P r.1) (is_used_up p type team) (λ _. start)
            (λ used.
              change_found-cases type (find_player unum team.players)
                (find_player-IsFound unum team.players)
                (λ i pl e many. step i pl type e valid used many)))

  pub change_player_type-cases :
      (sp : ServerParam) (mode : PlayMode) (unum : ℕ) (type : ℤ)
      → ((i : ℕ) (pl : RosterPlayer) (ty : ℕ)
          → get_elem? team.players i ≡ some pl
          → leb p.subs_max team.subs_count ≡ false
          → leb p.player_types ty ≡ false
          → is_used_up p ty team ≡ false
          → is_too_many p ty pl team ≡ false
          → P (stadium_substitute p time i pl ty team))
      → P (change_player_type p sp mode time unum type team).1
  unfolding change_player_type
  change_player_type-cases sp mode unum type step =
      if_elim (λ (r : Answer × Roster). P r.1) (is_play_on mode) (λ _. start)
        (λ _.
          if_elim (λ (r : Answer × Roster). P r.1) (is_time_elapsed sp time) (λ _. start)
            (λ _.
              if_elim (λ (r : Answer × Roster). P r.1) (leb p.subs_max team.subs_count) (λ _. start)
                (λ subs. change_to-cases unum type (λ i pl ty e. step i pl ty e subs))))

  trainer_change_found-cases :
      (type : ℕ) (o : Option (ℕ × RosterPlayer))
      → IsFound team.players o
      → ((i : ℕ) (pl : RosterPlayer)
          → get_elem? team.players i ≡ some pl
          → P (stadium_substitute p time i pl type team))
      → P (trainer_change_found p time type o team).1
  trainer_change_found-cases type none f step = start
  trainer_change_found-cases type (some (i, pl)) f step = step i pl f

  pub trainer_change_player_type-cases :
      (unum : ℕ) (type : ℤ)
      → ((i : ℕ) (pl : RosterPlayer) (ty : ℕ)
          → get_elem? team.players i ≡ some pl
          → P (stadium_substitute p time i pl ty team))
      → P (trainer_change_player_type p time unum type team).1
  unfolding trainer_change_player_type
  trainer_change_player_type-cases unum (negsuc n) step = start
  trainer_change_player_type-cases unum (pos type) step =
      if_elim (λ (r : Answer × Roster). P r.1) (leb p.player_types type) (λ _. start)
        (λ _.
          trainer_change_found-cases type (find_player unum team.players)
            (find_player-IsFound unum team.players) (λ i pl e. step i pl type e))

  change_found_goalie-cases :
      (o : Option (ℕ × RosterPlayer))
      → IsFound team.players o
      → ((i : ℕ) (pl : RosterPlayer)
          → get_elem? team.players i ≡ some pl
          → P (change_player_to_goalie i pl team).1)
      → P (change_found_goalie o team).1
  change_found_goalie-cases none f step = start
  change_found_goalie-cases (some (i, pl)) f step = step i pl f

  pub change_player_type_goalie-cases :
      (mode : PlayMode) (unum : ℕ)
      → ((i : ℕ) (pl : RosterPlayer)
          → get_elem? team.players i ≡ some pl
          → P (change_player_to_goalie i pl team).1)
      → P (change_player_type_goalie mode unum team).1
  unfolding change_player_type_goalie
  change_player_type_goalie-cases mode unum step =
      if_elim (λ (r : Answer × Roster). P r.1) (is_play_on mode) (λ _. start)
        (λ _.
          if_elim (λ (r : Answer × Roster). P r.1) (is_penalty_taken mode) (λ _. start)
            (λ _.
              if_elim (λ (r : Answer × Roster). P r.1) (has_enabled_goalie team.players)
                (λ _. start)
                (λ _.
                  change_found_goalie-cases (find_enabled unum team.players)
                    (find_enabled-IsFound unum team.players) step)))

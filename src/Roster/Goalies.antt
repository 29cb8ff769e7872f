-- ===== src/Roster/Goalies.antt =====
-- A team has at most eleven players and one goalie (src/team.cpp, src/coach.cpp).
use rcssserver.Base.{
  ◌≡◌, refl, ap, ℕ, suc, ◌+◌, ◌≤◌, Bool, true, false, not, ◌&&◌, ◌==◌, none, ◌||◌, ltb, leb,
  if_elim, Option, some, List, [], ◌∷◌, ◌++◌, length, length-append, arith,
}
use rcssserver.Match.State.{max_player}
use rcssserver.Roster.State.{
  PlayerParam, RosterPlayer, substitute_player, key, is_key, Roster, new_roster, get_elem?,
  set_elem,
}
use rcssserver.Roster.Team.{
  has_goalie, init_player, new_player, substitute, has_enabled_goalie, change_to_goalie,
  change_player_to_goalie,
}
use rcssserver.Roster.Change.{find_player, stadium_substitute}
use rcssserver.Roster.Presence.{
  disable_player, discard_player, give_red_card, give_yellow_card, reconnect_player, change_at,
  on_player,
}
use rcssserver.Roster.Guards.{
  IsFound, find_player-IsFound, change_player_type-cases, trainer_change_player_type-cases,
  change_player_type_goalie-cases,
}
use rcssserver.Roster.Session.{
  Request, join, coach_change, trainer_change, goalie_change, yellow_card, red_card, disconnect,
  reconnect, or_else, serve, serve_all,
}
use rcssserver.Roster.GoalieCounts.{
  goalie_count, count_goalies, count_goalies-append, no_enabled_goalie, no_goalie, length-set_elem,
  set_elem-goalies, set_elem-one_goalie, substitute_player-goalie, set_elem-fewer,
}

-- The team is within the limits, after `n` reconnections.
pub record IsManned (n : ℕ) (team : Roster) : Type 0 where
  pub size : length team.players ≤ max_player
  pub goalies : count_goalies team.players ≤ suc n

same_bound : {n : ℕ} {team : Roster} → IsManned n team → IsManned (0 + n) team
same_bound h = record { size = h.size; goalies = omega (arith, h.goalies) }

set_elem-IsManned :
    {n : ℕ} (p : PlayerParam) (type i : ℕ) (pl : RosterPlayer) (team team' : Roster)
    → get_elem? team.players i ≡ some pl
    → team'.players ≡ set_elem team.players i (substitute_player p type pl)
    → IsManned n team
    → IsManned n team'
set_elem-IsManned p type i pl team team' e f h = record {
  size =
      omega
        (arith, h.size, ap length f, length-set_elem team.players i (substitute_player p type pl));
  goalies = omega (
    arith,
    h.goalies,
    ap count_goalies f,
    set_elem-goalies team.players i pl (substitute_player p type pl) e
        (substitute_player-goalie p type pl),
  );
}

substitute-IsManned :
    {n : ℕ} (p : PlayerParam) (time i type : ℕ) (pl : RosterPlayer) (team : Roster)
    → get_elem? team.players i ≡ some pl
    → IsManned n team
    → IsManned n (substitute p time i pl type team)
unfolding substitute
substitute-IsManned {n = n} p time i type pl team e h =
    if_elim (IsManned n) (not (is_key p (key pl)) || not (is_key p (some type))) (λ _. h)
      (λ _.
        if_elim (IsManned n) (leb (team.ptype_count (key pl)) 0) (λ _. h)
          (λ _.
            if_elim (IsManned n) (ltb 0 time) (λ _. set_elem-IsManned p type i pl team _ e refl h)
              (λ _. set_elem-IsManned p type i pl team _ e refl h)))

stadium_substitute-IsManned :
    {n : ℕ} (p : PlayerParam) (time i type : ℕ) (pl : RosterPlayer) (team : Roster)
    → get_elem? team.players i ≡ some pl
    → IsManned n team
    → IsManned n (stadium_substitute p time i pl type team)
stadium_substitute-IsManned p time i type pl team e h =
    let c = substitute-IsManned p time i type pl team e h in
    record { size = c.size; goalies = c.goalies }

change_player_to_goalie-IsManned :
    {n : ℕ} (i : ℕ) (pl : RosterPlayer) (team : Roster)
    → IsManned n team
    → IsManned n (change_player_to_goalie i pl team).1
unfolding change_player_to_goalie
change_player_to_goalie-IsManned {n = n} i pl team h =
    if_elim (λ (r : Bool × Roster). IsManned n r.1) (has_enabled_goalie team.players) (λ _. h)
      (λ none_yet.
        if_elim (λ (r : Bool × Roster). IsManned n r.1) (not pl.enabled) (λ _. h)
          (λ _. record {
            size = omega (arith, h.size, length-set_elem team.players i (change_to_goalie pl));
            goalies = omega (
              arith,
              no_enabled_goalie team.players none_yet,
              set_elem-one_goalie team.players i (change_to_goalie pl),
            );
          }))

joined_goalies :
    (k : ℕ) (g : Bool) (n : ℕ) (pls : List RosterPlayer)
    → (g && has_goalie pls) ≡ false
    → count_goalies pls ≤ suc k
    → count_goalies (pls ++ (init_player n g ∷ [])) ≤ suc k
joined_goalies k true n pls single h =
    omega (arith, count_goalies-append pls (init_player n true), no_goalie pls single)
joined_goalies k false n pls single h =
    omega (arith, count_goalies-append pls (init_player n false))

joined_size :
    (n : ℕ) (pl : RosterPlayer) (pls : List RosterPlayer)
    → leb n (length pls) ≡ false
    → length (pls ++ (pl ∷ [])) ≤ n
joined_size n pl pls small = ground (arith, length-append pls (pl ∷ []))

join-IsManned :
    (n : ℕ) (ok goalie : Bool) (team : Roster)
    → IsManned n team
    → IsManned n (or_else (new_player ok goalie team) team)
unfolding new_player
join-IsManned n ok goalie team h =
    if_elim P (leb max_player (length team.players)) (λ _. h)
      (λ small.
        if_elim P (goalie && has_goalie team.players) (λ _. h)
          (λ single.
            if_elim P (not ok) (λ _. h)
              (λ _. record {
                size =
                    joined_size max_player (init_player (length team.players) goalie) team.players
                      small;
                goalies =
                    joined_goalies n goalie (length team.players) team.players single h.goalies;
              })))
  where
    P : Option Roster → Type 0
    P o = IsManned n (or_else o team)

on_player-IsManned :
    (n k : ℕ) (f : RosterPlayer → RosterPlayer) (unum : ℕ) (team : Roster)
    → ((pl : RosterPlayer) → goalie_count (f pl) ≤ k + goalie_count pl)
    → IsManned n team
    → IsManned (k + n) (on_player f unum team)
on_player-IsManned n k f unum team few h =
    at_found (find_player unum team.players) (find_player-IsFound unum team.players)
  where
    at_found :
        (o : Option (ℕ × RosterPlayer))
        → IsFound team.players o
        → IsManned (k + n) (change_at f o team)
    at_found none found = record { size = h.size; goalies = omega (arith, h.goalies) }
    at_found (some (i, pl)) found = record {
      size = omega (arith, h.size, length-set_elem team.players i (f pl));
      goalies =
          omega
            (arith, h.goalies, few pl, set_elem-fewer team.players i k pl (f pl) found (few pl));
    }

give_red_card-goalie : (pl : RosterPlayer) → goalie_count (give_red_card pl) ≤ 0 + goalie_count pl
unfolding give_red_card discard_player
give_red_card-goalie pl = ground arith

give_yellow_card-goalie :
    (pl : RosterPlayer) → goalie_count (give_yellow_card pl) ≤ 0 + goalie_count pl
unfolding give_yellow_card
give_yellow_card-goalie pl =
    if_elim (λ (x : RosterPlayer). goalie_count x ≤ 0 + goalie_count pl) (pl.card_count == 1)
      (λ _. give_red_card-goalie pl) (λ _. ground arith)

reconnect_player-goalie :
    (connected : Bool) (pl : RosterPlayer)
    → goalie_count (reconnect_player connected pl) ≤ 1 + goalie_count pl
unfolding reconnect_player
reconnect_player-goalie connected pl = ground arith

abbrev is_reconnect : Request → ℕ
is_reconnect (reconnect connected unum) = 1
is_reconnect _ = 0

-- How often a client comes back.
abbrev pub reconnections : List Request → ℕ
reconnections [] = 0
reconnections (r ∷ rs) = is_reconnect r + reconnections rs

serve-IsManned :
    (n : ℕ) (p : PlayerParam) (r : Request) (team : Roster)
    → IsManned n team
    → IsManned (is_reconnect r + n) (serve p r team)
unfolding serve
serve-IsManned n p (join ok goalie) team h = same_bound (join-IsManned n ok goalie team h)
serve-IsManned n p (coach_change sp mode time unum type) team h = same_bound (
    change_player_type-cases (IsManned n) p time team h sp mode unum type
      (λ i pl ty e _ _ _ _. stadium_substitute-IsManned p time i ty pl team e h))
serve-IsManned n p (trainer_change time unum type) team h = same_bound (
    trainer_change_player_type-cases (IsManned n) p time team h unum type
      (λ i pl ty e. stadium_substitute-IsManned p time i ty pl team e h))
serve-IsManned n p (goalie_change mode unum) team h = same_bound (
    change_player_type_goalie-cases (IsManned n) p 0 team h mode unum
      (λ i pl e. change_player_to_goalie-IsManned i pl team h))
serve-IsManned n p (yellow_card unum) team h =
    on_player-IsManned n 0 give_yellow_card unum team give_yellow_card-goalie h
serve-IsManned n p (red_card unum) team h =
    on_player-IsManned n 0 give_red_card unum team give_red_card-goalie h
serve-IsManned n p (disconnect unum) team h =
    on_player-IsManned n 0 disable_player unum team (λ pl. omega arith) h
serve-IsManned n p (reconnect connected unum) team h =
    on_player-IsManned n 1 (reconnect_player connected) unum team
      (reconnect_player-goalie connected) h

serve_all-IsManned :
    (n : ℕ) (p : PlayerParam) (rs : List Request) (team : Roster)
    → IsManned n team
    → IsManned (reconnections rs + n) (serve_all p rs team)
unfolding serve_all
serve_all-IsManned n p [] team h = same_bound h
serve_all-IsManned n p (r ∷ rs) team h =
    let c =
      serve_all-IsManned (is_reconnect r + n) p rs (serve p r team) (serve-IsManned n p r team h) in
    record { size = c.size; goalies = omega (arith, c.goalies) }

-- From the empty team on, after any order of joining players, substitutions, changes of the goalie, cards,
-- disconnections and reconnections, accepted or refused, the team has at most eleven players, and at most
-- one enabled goalie and one more for each reconnection asked for: without any, at most one.
pub serve_all-one_goalie :
    (p : PlayerParam) (rs : List Request)
    → (length (serve_all p rs new_roster).players ≤ 11)
      × (count_goalies (serve_all p rs new_roster).players ≤ 1 + reconnections rs)
serve_all-one_goalie p rs =
    let start : IsManned 0 new_roster = record { size = omega arith; goalies = omega arith } in
    let h = serve_all-IsManned 0 p rs new_roster start in (h.size, omega (arith, h.goalies))

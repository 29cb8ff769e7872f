-- ===== src/Roster/Session.antt =====
-- Any order of joining players, commands of the online coach and of the trainer (src/coach.cpp,
-- src/team.cpp).
use rcssserver.Base.{
  arith, ◌≡◌, refl, sym, ap, ◌∙◌, if◌then◌else◌, ℕ, zero, suc, Bool, ◌==◌, not, if_elim, Option,
  none, some, List, [], ◌∷◌, ℤ,
}
use rcssserver.Mode.{PlayMode}
use rcssserver.Match.State.{ServerParam}
use rcssserver.Roster.State.{
  PlayerParam, RosterPlayer, Key, key, same_key, add_one, Roster, new_roster, get_elem?, set_elem,
}
use rcssserver.Roster.Team.{new_player, count_keys, has_enabled_goalie, change_player_to_goalie}
use rcssserver.Roster.Change.{
  find_player, change_player_type, trainer_change_player_type, change_player_type_goalie,
}
use rcssserver.Roster.Presence.{
  disable_player, discard_player, give_red_card, give_yellow_card, reconnect_player, change_at,
  on_player,
}
use rcssserver.Roster.Guards.{
  IsFound, find_player-IsFound, change_player_type-cases, trainer_change_player_type-cases,
  change_player_type_goalie-cases,
}
use rcssserver.Roster.Counts.{
  IsCounted, IsCountedOpt, new_player-IsCounted, stadium_substitute-IsCounted,
}

-- `reconnect` has whether the client comes to be connected, `join` the result of `Player::init` and whether a goalie joins; all others have the number of a
-- player and what the clock, the mode and the parameters are then.
pub data Request : Type 0 where
  join : Bool → Bool → Request
  coach_change : ServerParam → PlayMode → ℕ → ℕ → ℤ → Request
  trainer_change : ℕ → ℕ → ℤ → Request
  goalie_change : PlayMode → ℕ → Request
  yellow_card red_card : ℕ → Request
  -- `bye`, or a connection that is lost
  disconnect : ℕ → Request
  reconnect : Bool → ℕ → Request

-- A refused player leaves the team as it is.
abbrev pub or_else : Option Roster → Roster → Roster
or_else none team = team
or_else (some team') team = team'

unfoldable pub serve : PlayerParam → Request → Roster → Roster
unfolding discard_player give_red_card give_yellow_card reconnect_player
serve p (join ok goalie) team = or_else (new_player ok goalie team) team
serve p (coach_change sp mode time unum type) team =
    (change_player_type p sp mode time unum type team).1
serve p (trainer_change time unum type) team = (trainer_change_player_type p time unum type team).1
serve p (goalie_change mode unum) team = (change_player_type_goalie mode unum team).1
serve p (yellow_card unum) team = on_player give_yellow_card unum team
serve p (red_card unum) team = on_player give_red_card unum team
serve p (disconnect unum) team = on_player disable_player unum team
serve p (reconnect connected unum) team = on_player (reconnect_player connected) unum team

unfoldable pub serve_all : PlayerParam → List Request → Roster → Roster
serve_all p [] team = team
serve_all p (r ∷ rs) team = serve_all p rs (serve p r team)

-- What the players at the position have in common, the list and the changed list have.
pub same_at :
    {A : Type 0} (f : RosterPlayer → A) (x pl pl' : RosterPlayer)
    → Path (Option RosterPlayer) (some x) (some pl)
    → f pl' ≡ f pl
    → f pl' ≡ f x
same_at f x pl pl' e h = h ∙ ap (λ o. elim o [ none ↦ f pl | some y ↦ f y ]) (sym e)

set_elem-keys :
    (pls : List RosterPlayer) (i : ℕ) (pl pl' : RosterPlayer)
    → get_elem? pls i ≡ some pl
    → key pl' ≡ key pl
    → (k : Key) → count_keys (set_elem pls i pl') k ≡ count_keys pls k
set_elem-keys [] i pl pl' e h k = refl
set_elem-keys (x ∷ pls) zero pl pl' e h k =
    ap (λ j. add_one j (count_keys pls) k) (same_at key x pl pl' e h)
set_elem-keys (x ∷ pls) (suc i) pl pl' e h k =
    ap (λ n. if same_key k (key x) then suc n else n) (set_elem-keys pls i pl pl' e h k)

change_player_to_goalie-IsCounted :
    (i : ℕ) (pl : RosterPlayer) (team : Roster)
    → get_elem? team.players i ≡ some pl
    → IsCounted team
    → IsCounted (change_player_to_goalie i pl team).1
unfolding change_player_to_goalie
change_player_to_goalie-IsCounted i pl team e h =
    if_elim (λ (r : Bool × Roster). IsCounted r.1) (has_enabled_goalie team.players) (λ _. h)
      (λ _.
        if_elim (λ (r : Bool × Roster). IsCounted r.1) (not pl.enabled) (λ _. h)
          (λ _ k. h k ∙ sym (set_elem-keys team.players i pl _ e refl k)))

on_player-IsCounted :
    (f : RosterPlayer → RosterPlayer) (unum : ℕ) (team : Roster)
    → ((pl : RosterPlayer) → key (f pl) ≡ key pl)
    → IsCounted team
    → IsCounted (on_player f unum team)
on_player-IsCounted f unum team same h =
    at_found (find_player unum team.players) (find_player-IsFound unum team.players)
  where
    at_found :
        (o : Option (ℕ × RosterPlayer)) → IsFound team.players o → IsCounted (change_at f o team)
    at_found none found k = h k
    at_found (some (i, pl)) found k =
        h k ∙ sym (set_elem-keys team.players i pl (f pl) found (same pl) k)

give_red_card-key : (pl : RosterPlayer) → key (give_red_card pl) ≡ key pl
unfolding give_red_card discard_player
give_red_card-key pl = ground arith

give_yellow_card-key : (pl : RosterPlayer) → key (give_yellow_card pl) ≡ key pl
unfolding give_yellow_card
give_yellow_card-key pl =
    if_elim (λ (x : RosterPlayer). key x ≡ key pl) (pl.card_count == 1) (λ _. give_red_card-key pl)
      (λ _. refl)

reconnect_player-key :
    (connected : Bool) (pl : RosterPlayer) → key (reconnect_player connected pl) ≡ key pl
unfolding reconnect_player
reconnect_player-key connected pl = ground arith

or_else-IsCounted :
    (o : Option Roster) (team : Roster)
    → IsCountedOpt o
    → IsCounted team
    → IsCounted (or_else o team)
or_else-IsCounted none team h' h = h
or_else-IsCounted (some team') team h' h = h'

serve-IsCounted :
    (p : PlayerParam) (r : Request) (team : Roster) → IsCounted team → IsCounted (serve p r team)
unfolding serve
serve-IsCounted p (join ok goalie) team h =
    or_else-IsCounted (new_player ok goalie team) team (new_player-IsCounted ok goalie team h) h
serve-IsCounted p (coach_change sp mode time unum type) team h =
    change_player_type-cases IsCounted p time team h sp mode unum type
      (λ i pl ty e _ _ _ _. stadium_substitute-IsCounted p time i ty pl team e h)
serve-IsCounted p (trainer_change time unum type) team h =
    trainer_change_player_type-cases IsCounted p time team h unum type
      (λ i pl ty e. stadium_substitute-IsCounted p time i ty pl team e h)
serve-IsCounted p (goalie_change mode unum) team h =
    change_player_type_goalie-cases IsCounted p 0 team h mode unum
      (λ i pl e. change_player_to_goalie-IsCounted i pl team e h)
serve-IsCounted p (yellow_card unum) team h =
    on_player-IsCounted give_yellow_card unum team give_yellow_card-key h
serve-IsCounted p (red_card unum) team h =
    on_player-IsCounted give_red_card unum team give_red_card-key h
serve-IsCounted p (disconnect unum) team h =
    on_player-IsCounted disable_player unum team (λ pl. refl) h
serve-IsCounted p (reconnect connected unum) team h =
    on_player-IsCounted (reconnect_player connected) unum team (reconnect_player-key connected) h

serve_all-IsCounted :
    (p : PlayerParam) (rs : List Request) (team : Roster)
    → IsCounted team
    → IsCounted (serve_all p rs team)
unfolding serve_all
serve_all-IsCounted p [] team h = h
serve_all-IsCounted p (r ∷ rs) team h =
    serve_all-IsCounted p rs (serve p r team) (serve-IsCounted p r team h)

-- From the empty team on, after any order of joining players, substitutions that the coach or the
-- trainer asks for, changes of the goalie, cards, disconnections and reconnections, accepted or refused,
-- the count of each type, and of the default, is the number of players who have it.
pub serve_all-counts :
    (p : PlayerParam) (rs : List Request) (k : Key)
    → (serve_all p rs new_roster).ptype_count k ≡ count_keys (serve_all p rs new_roster).players k
serve_all-counts p rs = serve_all-IsCounted p rs new_roster (λ k. refl)

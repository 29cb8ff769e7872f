-- ===== src/Roster/Counts.antt =====
-- The counts of player types are those of the players (src/team.cpp).
use rcssserver.Base.{
  ◌≡◌, refl, ap, sym, ◌∙◌, ℕ, zero, suc, ◌-◌, ◌<◌, Bool, true, not, ◌&&◌, ◌||◌, ltb, leb,
  if◌then◌else◌, if_elim, Option, none, some, List, [], ◌∷◌, ◌++◌, length, arith,
}
use rcssserver.Match.State.{max_player}
use rcssserver.Roster.State.{
  PlayerParam, RosterPlayer, substitute_player, Key, key, same_key, is_key, add_one, take_one,
  Roster, get_elem?, set_elem,
}
use rcssserver.Roster.Change.{stadium_substitute}
use rcssserver.Roster.Team.{has_goalie, init_player, new_player, count_keys, substitute}

-- The count of each key is the number of players with the key.
abbrev pub IsCounted : Roster → Type 0
IsCounted team = (k : Key) → team.ptype_count k ≡ count_keys team.players k

count_keys-append :
    (pls : List RosterPlayer) (pl : RosterPlayer) (k : Key)
    → count_keys (pls ++ (pl ∷ [])) k ≡ add_one (key pl) (count_keys pls) k
count_keys-append [] pl k = refl
count_keys-append (x ∷ pls) pl k = ground (arith, count_keys-append pls pl k)

-- A player in the list is counted.
count_keys-get :
    (pls : List RosterPlayer) (i : ℕ) (pl : RosterPlayer)
    → get_elem? pls i ≡ some pl
    → (k : Key) → same_key k (key pl) ≡ true
    → 0 < count_keys pls k
count_keys-get [] i pl e k same = ground arith
count_keys-get (x ∷ pls) zero pl e k same = ground arith
count_keys-get (x ∷ pls) (suc i) pl e k same = ground (arith, count_keys-get pls i pl e k same)

plus-minus :
    (x a b : Bool) (c : ℕ)
    → (a ≡ true → 0 < c)
    → (if x
        then suc (if b then suc (if a then c - 1 else c) else (if a then c - 1 else c))
        else (if b then suc (if a then c - 1 else c) else (if a then c - 1 else c)))
      ≡ (if b
          then suc (if a then (if x then suc c else c) - 1 else (if x then suc c else c))
          else (if a then (if x then suc c else c) - 1 else (if x then suc c else c)))
plus-minus x a b c h = ground (arith, h)

-- The counts with another player at a position.
count_keys-set :
    (pls : List RosterPlayer) (i : ℕ) (pl pl' : RosterPlayer)
    → get_elem? pls i ≡ some pl
    → (k : Key)
    → count_keys (set_elem pls i pl') k ≡ add_one (key pl') (take_one (key pl) (count_keys pls)) k
count_keys-set [] i pl pl' e k = ground arith
count_keys-set (x ∷ pls) zero pl pl' e k = ground arith
count_keys-set (x ∷ pls) (suc i) pl pl' e k =
    ap (λ n. if same_key k (key x) then suc n else n) (count_keys-set pls i pl pl' e k)
    ∙ plus-minus (same_key k (key x)) (same_key k (key pl)) (same_key k (key pl'))
        (count_keys pls k) (count_keys-get pls i pl e k)

abbrev pub IsCountedOpt : Option Roster → Type 0
IsCountedOpt none = Unit
IsCountedOpt (some team) = IsCounted team

pub new_player-IsCounted :
    (ok goalie : Bool) (team : Roster) → IsCounted team → IsCountedOpt (new_player ok goalie team)
unfolding new_player
new_player-IsCounted ok goalie team h =
    if_elim IsCountedOpt (leb max_player (length team.players)) (λ _. tt)
      (λ _.
        if_elim IsCountedOpt (goalie && has_goalie team.players) (λ _. tt)
          (λ _. if_elim IsCountedOpt (not ok) (λ _. tt) (λ _ k. added k)))
  where
    added :
        (k : Key)
        → add_one none team.ptype_count k
          ≡ count_keys (team.players ++ (init_player (length team.players) goalie ∷ [])) k
    added k =
        ap (λ n. if same_key k none then suc n else n) (h k)
        ∙ sym (count_keys-append team.players (init_player (length team.players) goalie) k)

key-substitute_player :
    (p : PlayerParam) (type : ℕ) (pl : RosterPlayer)
    → ltb type p.player_types ≡ true
    → key (substitute_player p type pl) ≡ some type
key-substitute_player p type pl valid = rw valid

-- The counts after a player at a position took the type.
replace-counts :
    (p : PlayerParam) (i type : ℕ) (pl : RosterPlayer) (team : Roster)
    → get_elem? team.players i ≡ some pl
    → ltb type p.player_types ≡ true
    → IsCounted team
    → (k : Key)
    → add_one (some type) (take_one (key pl) team.ptype_count) k
      ≡ count_keys (set_elem team.players i (substitute_player p type pl)) k
replace-counts p i type pl team e valid h k =
    ap
      (λ n.
        if same_key k (some type)
        then suc (if same_key k (key pl) then n - 1 else n)
        else (if same_key k (key pl) then n - 1 else n))
      (h k)
    ∙ sym (
        count_keys-set team.players i pl (substitute_player p type pl) e k
        ∙ ap (λ j. add_one j (take_one (key pl) (count_keys team.players)) k)
            (key-substitute_player p type pl valid))

substitute-IsCounted :
    (p : PlayerParam) (time i type : ℕ) (pl : RosterPlayer) (team : Roster)
    → get_elem? team.players i ≡ some pl
    → IsCounted team
    → IsCounted (substitute p time i pl type team)
unfolding substitute
substitute-IsCounted p time i type pl team e h =
    if_elim IsCounted (not (is_key p (key pl)) || not (is_key p (some type))) (λ _. h)
      (λ valid.
        if_elim IsCounted (leb (team.ptype_count (key pl)) 0) (λ _. h)
          (λ _.
            if_elim IsCounted (ltb 0 time) (λ _. replace-counts p i type pl team e (ground arith) h)
              (λ _. replace-counts p i type pl team e (ground arith) h)))

pub stadium_substitute-IsCounted :
    (p : PlayerParam) (time i type : ℕ) (pl : RosterPlayer) (team : Roster)
    → get_elem? team.players i ≡ some pl
    → IsCounted team
    → IsCounted (stadium_substitute p time i pl type team)
stadium_substitute-IsCounted p time i type pl team e h =
    substitute-IsCounted p time i type pl team e h

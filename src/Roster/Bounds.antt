-- ===== src/Roster/Bounds.antt =====
-- The limits that `OnlineCoach::change_player_type` (src/coach.cpp) keeps.
use rcssserver.Base.{
  ◌≡◌, refl, ℕ, zero, suc, ◌≤◌, ◌<◌, Bool, false, not, ◌||◌, ◌==◌, ltb, leb, if◌then◌else◌, if_elim,
  Option, none, some, List, [], ◌∷◌, arith, ℤ,
}
use rcssserver.Mode.{PlayMode}
use rcssserver.Match.State.{ServerParam}
use rcssserver.Roster.State.{
  PlayerParam, RosterPlayer, Key, key, is_key, add_one, take_one, Counts, Roster, get_elem?,
}
use rcssserver.Roster.Team.{
  substitute, free_type, assign_type, assign_player, assign_players, keeps_type, assign_new,
  assign_found, count_keys, assign_player_types, in_order,
}
use rcssserver.Roster.Change.{change_player_type, is_free_default, is_used_up, is_too_many}
use rcssserver.Roster.Guards.{change_player_type-cases}

-- The count of a type, where the type is restricted.
abbrev restricted_count : PlayerParam → Counts → ℕ → ℕ
restricted_count p c type = if is_free_default p type then 0 else c (some type)

-- No more of a type than `ptMax()`, for every type that is restricted.
abbrev IsLimited : PlayerParam → Counts → Type 0
IsLimited p c = (type : ℕ) → restricted_count p c type ≤ p.pt_max

-- Not more substitutions, uses of a type and players of a type than the parameters allow.
pub record IsBounded (p : PlayerParam) (team : Roster) : Type 0 where
  pub subs : team.subs_count ≤ p.subs_max
  pub used : IsLimited p team.ptype_used_count
  pub here : IsLimited p team.ptype_count

used_after :
    (p : PlayerParam) (ty : ℕ) (team : Roster)
    → 0 < p.pt_max
    → is_used_up p ty team ≡ false
    → IsLimited p team.ptype_used_count
    → IsLimited p (add_one (some ty) team.ptype_used_count)
used_after p ty team pos used b type = ground (arith, b type)

here_after :
    (p : PlayerParam) (ty : ℕ) (pl : RosterPlayer) (team : Roster)
    → is_too_many p ty pl team ≡ false
    → leb (team.ptype_count (key pl)) 0 ≡ false
    → IsLimited p team.ptype_count
    → IsLimited p (add_one (some ty) (take_one (key pl) team.ptype_count))
here_after p ty pl team many held b type = ground (arith, b type)

room : (max n : ℕ) → leb max n ≡ false → suc n ≤ max
room max n h = ground arith

substitute-IsBounded :
    (p : PlayerParam) (time i : ℕ) (pl : RosterPlayer) (ty : ℕ) (team : Roster)
    → 0 < p.pt_max
    → leb p.subs_max team.subs_count ≡ false
    → is_used_up p ty team ≡ false
    → is_too_many p ty pl team ≡ false
    → IsBounded p team
    → IsBounded p (substitute p time i pl ty team)
unfolding substitute
substitute-IsBounded p time i pl ty team pos subs used many b =
    if_elim (IsBounded p) (not (is_key p (key pl)) || not (is_key p (some ty))) (λ _. b)
      (λ _.
        if_elim (IsBounded p) (leb (team.ptype_count (key pl)) 0) (λ _. b)
          (λ held.
            if_elim (IsBounded p) (ltb 0 time)
              (λ _. record {
                subs = room p.subs_max team.subs_count subs;
                used = used_after p ty team pos used b.used;
                here = here_after p ty pl team many held b.here;
              })
              (λ _. record {
                subs = b.subs;
                used = b.used;
                here = here_after p ty pl team many held b.here;
              })))

-- The command of the online coach, whatever it asks for and whenever, keeps the substitutions within
-- `subsMax()`, and the uses and the players of each restricted type within a positive `ptMax()`.
pub change_player_type-IsBounded :
    (p : PlayerParam) (sp : ServerParam) (mode : PlayMode) (time unum : ℕ) (type : ℤ)
    (team : Roster)
    → 0 < p.pt_max
    → IsBounded p team
    → IsBounded p (change_player_type p sp mode time unum type team).1
change_player_type-IsBounded p sp mode time unum type team pos b =
    change_player_type-cases (IsBounded p) p time team b sp mode unum type
      (λ i pl ty e subs valid used many.
        let c = substitute-IsBounded p time i pl ty team pos subs used many b in
        record { subs = c.subs; used = c.used; here = c.here })

-- The loop over the types finds one that fewer than `ptMax()` players have used.
free_type-used :
    (p : PlayerParam) (used : Counts) (n start type : ℕ)
    → free_type p used n start ≡ some type
    → used (some type) < p.pt_max
free_type-used p used zero start type e = ground arith
free_type-used p used (suc n) start type e =
    ground (arith, free_type-used p used n (suc start) type)

module _ (p : PlayerParam) (type : ℕ) where
  -- The type is not used too often.
  abbrev Fine : Roster → Type 0
  Fine team = team.ptype_used_count (some type) ≤ p.pt_max

  counted_once :
      (k : Key) (new : ℕ) (used : Counts)
      → used (some new) < p.pt_max
      → used (some type) ≤ p.pt_max
      → take_one k (add_one (some new) used) (some type) ≤ p.pt_max
  counted_once k new used free b = ground arith

  assign_type-Fine :
      (i new : ℕ) (pl : RosterPlayer) (team : Roster)
      → team.ptype_used_count (some new) < p.pt_max
      → Fine team
      → Fine (assign_type p i pl new team)
  assign_type-Fine i new pl team free b =
      if_elim Fine (not (pl.player_type_id == new))
        (λ _. counted_once (key pl) new team.ptype_used_count free b)
        (λ _. counted_once (key pl) new team.ptype_used_count free b)

  assign_new-Fine :
      (i : ℕ) (pl : RosterPlayer) (team : Roster) (o : Option ℕ)
      → free_type p team.ptype_used_count p.player_types 0 ≡ o
      → Fine team
      → Fine (assign_new p i pl o team)
  assign_new-Fine i pl team none e b = b
  assign_new-Fine i pl team (some new) e b =
      assign_type-Fine i new pl team (free_type-used p team.ptype_used_count p.player_types 0 new e)
        b

  assign_found-Fine :
      (i : ℕ) (o : Option RosterPlayer) (team : Roster) → Fine team → Fine (assign_found p i o team)
  assign_found-Fine i none team b = b
  assign_found-Fine i (some pl) team b =
      if_elim Fine (keeps_type p (key pl) team.ptype_used_count) (λ _. b)
        (λ _. assign_new-Fine i pl team _ refl b)

  assign_players-Fine : (is : List ℕ) (team : Roster) → Fine team → Fine (assign_players p is team)
  assign_players-Fine [] team b = b
  assign_players-Fine (i ∷ is) team b =
      assign_players-Fine is (assign_player p i team)
        (assign_found-Fine i (get_elem? team.players i) team b)

-- The automatic assignment of types uses no type more than `ptMax()` times that is not used more often
-- by the players of before.
pub assign_player_types-used :
    (p : PlayerParam) (no_halves : Bool) (team : Roster) (type : ℕ)
    → count_keys team.players (some type) ≤ p.pt_max
    → (assign_player_types p no_halves team).ptype_used_count (some type) ≤ p.pt_max
unfolding assign_player_types
assign_player_types-used p no_halves team type b =
    if_elim (Fine p type) (p.allow_mult_default_type || no_halves) (λ _. b)
      (λ _. assign_players-Fine p type (in_order 0 team.players []) _ b)

-- ===== src/Referees/DoubleKick.antt =====
-- Kicks by the player who has just taken a free kick (src/referee.cpp, `FreeKickRef`).
use rcssserver.Base.{
  ◌≡◌, refl, ap, ◌∙◌, ℕ, Bool, true, false, ◌&&◌, ◌==◌, ltb, Option, some, if◌then◌else◌, if_elim,
  arith,
}
use rcssserver.Mode
use rcssserver.Mode.{Side, left, neutral, right, PlayMode, opposite, same_side}
use rcssserver.Match.State.{ServerParam, Player, Match, same_player}
use rcssserver.Match.ModeChange.{
  is_penalty_shoot_out, is_play_on, goal_kick, change_play_mode, penalty_change, keepaway_change,
  reset_field, illegal_defense_change, foul_change, catch_change, touch_change, free_kick_change,
  offside_change,
}
use rcssserver.Match.Frame.{change_play_mode-Changed}
use rcssserver.Referees.Catching.{is_player}
use rcssserver.Referees.BackPass.{award-mode}
use rcssserver.Referees.Taking.{
  call_free_kick_fault, fault_of_taker, take, judge_second, is_off_side, free_kick_kick_taken,
}

-- The taker of the kick, and that it is taken, are what a change to play-on leaves alone.
pub record Taken (p : Player) (dashes : ℕ) (m : Match) : Type 0 where
  pub taken : m.free_kick.kick_taken ≡ true
  pub taker : m.free_kick.kick_taker ≡ some p
  pub at_dashes : m.free_kick.kick_taker_dashes ≡ dashes

keepaway-free_kick :
    (sp : ServerParam) (pm : PlayMode) (m : Match)
    → (keepaway_change sp pm m).free_kick ≡ m.free_kick
unfolding keepaway_change reset_field
keepaway-free_kick sp pm m =
    if_elim (λ (n : Match). n.free_kick ≡ m.free_kick)
      (sp.keep_away_mode && (is_play_on pm && (m.keepaway.episode == 0))) (λ _. refl) (λ _. refl)

penalty-free_kick :
    (sp : ServerParam) (pm : PlayMode) (m : Match)
    → (penalty_change sp pm m).free_kick ≡ m.free_kick
unfolding penalty_change
penalty-free_kick sp pm m =
    if_elim (λ (n : Match). n.free_kick ≡ m.free_kick) (is_penalty_shoot_out m.playmode) (λ _. refl)
      (λ _. refl)

play_on-Taken :
    (sp : ServerParam) (p : Player) (d : ℕ) (m : Match)
    → Taken p d m
    → Taken p d (change_play_mode sp Mode.play_on m)
unfolding change_play_mode illegal_defense_change foul_change catch_change touch_change
    free_kick_change offside_change
play_on-Taken sp p d m t =
    rw (penalty-free_kick, keepaway-free_kick)
      (record { taken = t.taken; taker = t.taker; at_dashes = t.at_dashes })

abbrev fault_mode_of : Side → PlayMode → PlayMode
fault_mode_of left pm = Mode.free_kick_fault_left
fault_mode_of neutral pm = pm
fault_mode_of right pm = Mode.free_kick_fault_right

call_free_kick_fault-mode :
    (sp : ServerParam) (s : Side) (m : Match)
    → (call_free_kick_fault sp s m).playmode ≡ fault_mode_of s m.playmode
unfolding call_free_kick_fault
call_free_kick_fault-mode sp left m = award-mode sp Mode.free_kick_fault_left right _ refl
call_free_kick_fault-mode sp neutral m = refl
call_free_kick_fault-mode sp right m = award-mode sp Mode.free_kick_fault_right left _ refl

same_self : (p : Player) → same_player p p ≡ true
same_self p = ground arith

fault_if :
    (sp : ServerParam) (p : Player) (m : Match) (b : Bool)
    → (if b then fault_of_taker sp p m else m).playmode
      ≡ (if b then fault_mode_of p.side m.playmode else m.playmode)
fault_if sp p m true = call_free_kick_fault-mode sp p.side _
fault_if sp p m false = refl

is_taker : (p : Player) (o : Option Player) → o ≡ some p → is_player p o ≡ true
is_taker p o e = rw (e, same_self p) refl

judge_second-mode :
    (sp : ServerParam) (p : Player) (d e : ℕ) (m : Match)
    → sp.free_kick_faults ≡ true
    → Taken p d m
    → (judge_second sp p e m).playmode
      ≡ (if ltb d e then fault_mode_of p.side m.playmode else m.playmode)
judge_second-mode sp p d e m on t =
    if_elim
      (λ (n : Match).
        n.playmode ≡ (if ltb d e then fault_mode_of p.side m.playmode else m.playmode))
      (is_player p m.free_kick.kick_taker && sp.free_kick_faults)
      (λ _.
        fault_if sp p m (ltb m.free_kick.kick_taker_dashes e)
        ∙ ap (λ x. if ltb x e then fault_mode_of p.side m.playmode else m.playmode) t.at_dashes)
      (λ no. ground (arith, no, on, is_taker p m.free_kick.kick_taker t.taker))

kick_in_play :
    (sp : ServerParam) (p : Player) (e : ℕ) (n : Match)
    → n.playmode ≡ Mode.play_on
    → n.free_kick.kick_taken ≡ true
    → free_kick_kick_taken sp p e n ≡ judge_second sp p e n
unfolding free_kick_kick_taken
kick_in_play sp p e n playing taken = simp (playing, taken)

second_kick :
    (sp : ServerParam) (p : Player) (d e : ℕ) (n : Match)
    → sp.free_kick_faults ≡ true
    → n.playmode ≡ Mode.play_on
    → Taken p d n
    → (free_kick_kick_taken sp p e n).playmode
      ≡ (if ltb d e then fault_mode_of p.side Mode.play_on else Mode.play_on)
second_kick sp p d e n on playing t =
    ap (λ (r : Match). r.playmode) (kick_in_play sp p e n playing t.taken)
    ∙ judge_second-mode sp p d e n on t
    ∙ ap (λ (pm : PlayMode). if ltb d e then fault_mode_of p.side pm else pm) playing

kick_starts :
    (sp : ServerParam) (p : Player) (d : ℕ) (m : Match)
    → is_penalty_shoot_out m.playmode ≡ false
    → goal_kick m.playmode ≡ false
    → is_off_side m.playmode ≡ false
    → is_play_on m.playmode ≡ false
    → ((free_kick_kick_taken sp p d m).playmode ≡ Mode.play_on)
      × Taken p d (free_kick_kick_taken sp p d m)
unfolding free_kick_kick_taken
kick_starts sp p d m shootout goal offside stopped =
    rw (shootout, goal, offside, stopped)
      (
        (change_play_mode-Changed sp Mode.play_on (take p d m)).new_mode,
        play_on-Taken sp p d (take p d m) (record { taken = refl; taker = refl; at_dashes = refl }),
      )

-- With free kick faults on, a player takes a kick in a mode that is no goal kick, offside, shoot-out or
-- play-on, and is the next at the ball, with another kick: this is a free kick fault of its side if the
-- player has dashed in between, and else the play goes on.
pub second_kick-mode :
    (sp : ServerParam) (p : Player) (d e : ℕ) (m : Match)
    → is_penalty_shoot_out m.playmode ≡ false
    → goal_kick m.playmode ≡ false
    → is_off_side m.playmode ≡ false
    → is_play_on m.playmode ≡ false
    → sp.free_kick_faults ≡ true
    → (free_kick_kick_taken sp p e (free_kick_kick_taken sp p d m)).playmode
      ≡ (if ltb d e then fault_mode_of p.side Mode.play_on else Mode.play_on)
second_kick-mode sp p d e m shootout goal offside stopped on =
    let begun = kick_starts sp p d m shootout goal offside stopped in
    second_kick sp p d e (free_kick_kick_taken sp p d m) on begun.0 begun.1

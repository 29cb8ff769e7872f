-- ===== src/Referees/TouchFrame.antt =====
-- What a change of mode leaves of the state of `TouchRef` (src/referee.cpp).
use rcssserver.Base.{◌≡◌, refl, ◌∙◌, ◌&&◌, ◌==◌, if_elim, arith}
use rcssserver.Mode.{PlayMode}
use rcssserver.Match.State.{ServerParam, Match}
use rcssserver.Match.ModeChange.{
  is_play_on, is_penalty_shoot_out, announce_mode, clear_for_kick, reset_field, change_play_mode,
  touch_change, penalty_change, keepaway_change, illegal_defense_change, foul_change, catch_change,
  free_kick_change, offside_change,
}

keepaway-touch :
    (sp : ServerParam) (pm : PlayMode) (m : Match) → (keepaway_change sp pm m).touch ≡ m.touch
unfolding keepaway_change reset_field
keepaway-touch sp pm m =
    if_elim (λ (n : Match). n.touch ≡ m.touch)
      (sp.keep_away_mode && (is_play_on pm && (m.keepaway.episode == 0))) (λ _. refl) (λ _. refl)

penalty-touch :
    (sp : ServerParam) (pm : PlayMode) (m : Match) → (penalty_change sp pm m).touch ≡ m.touch
unfolding penalty_change
penalty-touch sp pm m =
    if_elim (λ (n : Match). n.touch ≡ m.touch) (is_penalty_shoot_out m.playmode) (λ _. refl)
      (λ _. refl)

announce-touch : (pm : PlayMode) (m : Match) → (announce_mode pm m).touch ≡ m.touch
announce-touch pm m = ground arith

illegal-touch : (pm : PlayMode) (m : Match) → (illegal_defense_change pm m).touch ≡ m.touch
unfolding illegal_defense_change
illegal-touch pm m = ground arith

clear-touch : (pm : PlayMode) (m : Match) → (clear_for_kick pm m).touch ≡ m.touch
clear-touch pm m = ground arith

early-touch :
    (sp : ServerParam) (pm : PlayMode) (m : Match)
    → (free_kick_change sp pm (offside_change pm m)).touch ≡ m.touch
unfolding free_kick_change offside_change
early-touch sp pm m =
    clear-touch pm _
    ∙ if_elim (λ (n : Match). n.touch ≡ m.touch) (is_play_on pm) (λ _. refl) (λ _. refl)

touch_change-touch :
    (pm : PlayMode) (m n : Match)
    → n.touch ≡ m.touch
    → (touch_change pm n).touch ≡ (touch_change pm m).touch
unfolding touch_change
touch_change-touch pm m n e = rw (e) refl

-- What a change of mode does to the state of `TouchRef` is what `TouchRef::playModeChange` does.
pub change_play_mode-touch :
    (sp : ServerParam) (pm : PlayMode) (m : Match)
    → (change_play_mode sp pm m).touch ≡ (touch_change pm m).touch
unfolding change_play_mode foul_change catch_change
change_play_mode-touch sp pm m =
    announce-touch pm _
    ∙ penalty-touch sp pm _
    ∙ keepaway-touch sp pm _
    ∙ illegal-touch pm _
    ∙ touch_change-touch pm m _ (early-touch sp pm _)

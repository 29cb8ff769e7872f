-- ===== src/Scenarios/Referees.antt =====
-- The referees at work, and the theorems on them at concrete matches.
use rcssserver.Base.{not, ◌&&◌, ◌≡◌, refl, true, false, [], ◌∷◌}
use rcssserver.Mode
use rcssserver.Mode.{Side, left, right, PlayMode}
use rcssserver.Match.State.{Match, new_match}
use rcssserver.Match.ModeChange.{
  change_play_mode, penalty_change, keepaway_change, illegal_defense_change, foul_change,
  catch_change, touch_change, free_kick_change, offside_change,
}
use rcssserver.Referees.View.{View}
use rcssserver.Referees.Ball.{give_goal, touch_analyse}
use rcssserver.Referees.Training.{possession}
use rcssserver.Referees.Possession.{can_kick, possession_lem}
use rcssserver.Clock.Step.{step}
use rcssserver.Clock.Score.{ScoreStep, step-ScoreStep}
use rcssserver.Scenarios.Matches.{params, playing, calm, rolling}

abbrev in_play_match : Match
in_play_match = record new_match {
  playmode = Mode.play_on;
  time = 5;
  team_left = playing;
  team_right = playing;
}

-- The ball has crossed the right goal line.
abbrev right_crossed : View
right_crossed = record rolling { cross_right = true; beyond_goal_line = true; beyond_right = true }

left_scores :
    let n = touch_analyse params right_crossed in_play_match in
    (n.team_left.point ≡ 1) × (n.playmode ≡ Mode.after_goal_left)
unfolding touch_analyse give_goal change_play_mode penalty_change keepaway_change foul_change
    illegal_defense_change catch_change touch_change free_kick_change offside_change
left_scores = (refl, refl)

-- The taker ends the search, so that the keeper after it does not count.
taker_first : possession false (left ∷ right ∷ left ∷ []) ≡ (false, true)
unfolding possession
taker_first = refl

possession_lem_example : possession false (left ∷ right ∷ left ∷ []) ≡ (
  can_kick left (left ∷ right ∷ left ∷ []) && not (can_kick right (left ∷ right ∷ left ∷ [])),
  can_kick right (left ∷ right ∷ left ∷ []),
)
possession_lem_example = possession_lem (left ∷ right ∷ left ∷ [])

step-ScoreStep_example :
    ScoreStep right_crossed in_play_match (step params right_crossed calm in_play_match)
step-ScoreStep_example = step-ScoreStep params right_crossed calm in_play_match

-- A back pass of the left team, 28 cycles ago.
abbrev passed_back : Match
passed_back =
    let c = new_match.catch in
    record in_play_match {
      playmode = Mode.back_pass_left;
      catch = record c { after_back_pass_time = 28 };
    }

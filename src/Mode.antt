-- ===== src/Mode.antt =====
-- src/types.h and the tests on play modes of src/referee.cpp: the sides, the play modes, and the
-- groups of modes that the referees tell apart.
use rcssserver.Base.{Bool, true, false}

pub data Side : Type 0 where
  left neutral right : Side

-- `-side`, cast back to `Side`.
abbrev pub opposite : Side → Side
opposite left = right
opposite neutral = neutral
opposite right = left

abbrev pub same_side : Side → Side → Bool
same_side left left = true
same_side neutral neutral = true
same_side right right = true
same_side _ _ = false

-- `PM_MAX` counts the modes and is no mode.
pub data PlayMode : Type 0 where
  null_mode before_kick_off time_over play_on : PlayMode
  kick_off_left kick_off_right kick_in_left kick_in_right : PlayMode
  free_kick_left free_kick_right corner_kick_left corner_kick_right : PlayMode
  goal_kick_left goal_kick_right after_goal_left after_goal_right : PlayMode
  drop_ball off_side_left off_side_right pk_left pk_right : PlayMode
  first_half_over paused human : PlayMode
  foul_charge_left foul_charge_right foul_push_left foul_push_right : PlayMode
  foul_multiple_attacker_left foul_multiple_attacker_right : PlayMode
  foul_ball_out_left foul_ball_out_right back_pass_left back_pass_right : PlayMode
  free_kick_fault_left free_kick_fault_right catch_fault_left catch_fault_right : PlayMode
  ind_free_kick_left ind_free_kick_right : PlayMode
  penalty_setup_left penalty_setup_right penalty_ready_left penalty_ready_right : PlayMode
  penalty_taken_left penalty_taken_right penalty_miss_left penalty_miss_right : PlayMode
  penalty_score_left penalty_score_right : PlayMode
  illegal_defense_left illegal_defense_right : PlayMode

pub PlayMode-discrete : Discrete PlayMode
PlayMode-discrete = hlevel

-- The part of a penalty kick that a mode stands for, and the side that takes the kick.
pub data Phase : Type 0 where
  setup ready taken miss score : Phase
  no_phase : Phase

abbrev pub phase : PlayMode → Phase
phase penalty_setup_left = setup
phase penalty_setup_right = setup
phase penalty_ready_left = ready
phase penalty_ready_right = ready
phase penalty_taken_left = taken
phase penalty_taken_right = taken
phase penalty_miss_left = miss
phase penalty_miss_right = miss
phase penalty_score_left = score
phase penalty_score_right = score
phase _ = no_phase

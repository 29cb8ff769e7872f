-- ===== src/Scenarios/Matches.antt =====
-- The parameters, players and matches of the scenarios.
use rcssserver.Base.{ℕ, [], true, false, pos, negsuc}
use rcssserver.Mode
use rcssserver.Mode.{Side, left, right, PlayMode}
use rcssserver.Match.State.{ServerParam, Player, Team, Match, new_match, new_team}
use rcssserver.Shootout.Analyse.{Sight}
use rcssserver.Referees.View.{View}

-- Two halves and two extra halves of ten cycles, and five kicks.
abbrev pub params : ServerParam
params = record {
  half_time = pos 10;
  extra_half_time = 10;
  nr_normal_halfs = 2;
  nr_extra_halfs = 2;
  golden_goal = false;
  keep_away_mode = false;
  drop_time = 100;
  has_ball_stuck_area = true;
  use_offside = true;
  kick_off_offside = true;
  illegal_defense_number = 0;
  illegal_defense_duration = 20;
  proper_goal_kicks = false;
  max_goal_kicks = pos 3;
  kaway_start = negsuc 0;
  penalty_shoot_outs = true;
  pen_before_setup_wait = 10;
  pen_setup_wait = 70;
  pen_ready_wait = 10;
  pen_taken_wait = 150;
  pen_nr_kicks = 5;
  pen_max_extra_kicks = 5;
  pen_random_winner = false;
  pen_allow_mult_kicks = true;
  pen_coach_moves_players = true;
  back_passes = true;
  free_kick_faults = true;
}

-- No kicks at all: the first one is over the limit.
abbrev pub no_kicks : ServerParam
no_kicks = record params { pen_nr_kicks = 0; pen_max_extra_kicks = 0 }

-- Three regular halves.
abbrev pub odd_halves : ServerParam
odd_halves = record params { nr_normal_halfs = 3 }

abbrev pub playing : Team
playing = record new_team { enabled = true }

-- A tied match at the end of extra time.
abbrev pub full_time : Match
full_time = record new_match {
  playmode = Mode.play_on;
  time = 40;
  team_left = playing;
  team_right = playing;
}

abbrev pub striker : Side → ℕ → Player
striker s n = record { side = s; unum = n; goalie = false; enabled = true }

abbrev pub goalkeeper : Side → Player
goalkeeper s = record { side = s; unum = 1; goalie = true; enabled = true }

-- Everybody stands right, the ball is on the pitch, and the draws fall one way.
abbrev pub calm : Sight
calm = record {
  left_ok = true;
  right_ok = true;
  crossed = false;
  out_of_pitch = false;
  coin = true;
  side_coin = true;
  taker_coin = true;
}

-- The ball rolls in the field.
abbrev pub rolling : View
rolling = record {
  ball_stuck = false;
  left_player_illegal = 0;
  right_player_illegal = 0;
  in_penalty_area = false;
  ball_stopped = false;
  ball_moves = true;
  cross_left = false;
  cross_right = false;
  beyond_goal_line = false;
  beyond_right = false;
  beyond_side_line = false;
  in_left_area = false;
  in_right_area = false;
  in_keepaway_area = false;
  kickers = [];
  kaway_started = false;
}

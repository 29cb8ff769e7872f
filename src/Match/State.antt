-- ===== src/Match/State.antt =====
-- The state of a match: the fields of `Stadium` (src/stadium.h), of `Team` (src/team.h) and of the
-- referees (src/referee.h) that the rules of the game read and write, and the server's parameters.
use rcssserver.Base.{ℕ, Bool, true, false, ◌&&◌, Option, none, List, [], ◌∷◌, ℤ, pos, negsuc, ◌==◌}
use rcssserver.Mode.{Side, left, neutral, PlayMode, before_kick_off, same_side}

-- The parameters of src/serverparam.h that are read here. Those that the
-- code tests for a negative value have a sign.
pub record ServerParam : Type 0 where
  pub half_time : ℤ
  pub extra_half_time : ℕ
  pub nr_normal_halfs : ℕ
  pub nr_extra_halfs : ℕ
  pub golden_goal : Bool
  pub keep_away_mode : Bool
  pub drop_time : ℕ
  -- `ballStuckArea() > 0.0`
  pub has_ball_stuck_area : Bool
  pub use_offside : Bool
  pub kick_off_offside : Bool
  pub illegal_defense_number : ℕ
  pub illegal_defense_duration : ℕ
  pub proper_goal_kicks : Bool
  pub max_goal_kicks : ℤ
  pub kaway_start : ℤ
  pub penalty_shoot_outs : Bool
  pub pen_before_setup_wait : ℕ
  pub pen_setup_wait : ℕ
  pub pen_ready_wait : ℕ
  pub pen_taken_wait : ℕ
  pub pen_nr_kicks : ℕ
  pub pen_max_extra_kicks : ℕ
  pub pen_random_winner : Bool
  pub pen_allow_mult_kicks : Bool
  pub pen_coach_moves_players : Bool
  pub back_passes : Bool
  pub free_kick_faults : Bool

-- A player of the match, by what the referees ask of it. Its side and number identify it.
pub record Player : Type 0 where
  pub side : Side
  pub unum : ℕ
  pub goalie : Bool
  pub enabled : Bool

-- `MAX_PLAYER` (src/param.h).
abbrev pub max_player : ℕ
max_player = 11

-- Equality of two `const Player *`.
abbrev pub same_player : Player → Player → Bool
same_player p q = same_side p.side q.side && (p.unum == q.unum)

-- The part of `Team` that keeps the score. A team is enabled once it has a name.
pub record Team : Type 0 where
  pub enabled : Bool
  pub point : ℕ
  pub pen_point : ℕ
  pub pen_taken : ℕ
  pub pen_won : Bool

-- Where the ball lies: where its motion took it, or where a referee put it.
pub data Spot : Type 0 where
  in_play centre keepaway_corner : Spot
  penalty_spot : Side → Spot
  -- where a referee puts the ball for the mode that it awards
  award_spot : PlayMode → Spot

-- The texts of `sendRefereeAudio`; a mode's own text is `playmode_strings[pm]`.
pub data Announcement : Type 0 where
  time_up time_up_without_a_team time_extended half_time_over penalty_draw : Announcement
  penalty_onfield penalty_foul_by penalty_winner_is : Side → Announcement
  mode_text : PlayMode → Announcement
  goal_text : Side → ℕ → Announcement
  training_text : Announcement
  -- "goalie_catch_ball_" and the side
  catch_text : Side → Announcement

-- What a referee has done to the players and sent to the clients.
pub data Effect : Type 0 where
  audio : Announcement → Effect
  clear_players_from_ball : Side → Effect
  place_players_in_their_field : Effect
  place_players_in_field : Effect
  place_players_for_goal_kick : PlayMode → Effect
  place_offside_players : Side → Effect
  keepaway_log : ℕ → ℕ → Effect
  place_all_players : Side → Effect
  move_goalies : Side → Effect
  recover_stamina_capacity : Effect
  recovery_players : Effect
  weather_half_time : Effect
  keepaway_field_reset : Effect
  assign_player_types : Effect
  -- `setPlayerState( side, unum, BACK_PASS )`
  mark_back_pass : Side → ℕ → Effect
  -- `setPlayerState( side, unum, FREE_KICK_FAULT )`
  mark_free_kick_fault : Side → ℕ → Effect
  -- `setFoulCharged` of a player that an intentional foul reaches
  foul_charged : Side → ℕ → Effect
  -- `Stadium::punishFoulPlay`, `yellowCard` and `redCard`
  punish_foul_play yellow_card red_card : Side → ℕ → Effect

-- The times are -1, here `none`, before the first kick.
pub record OffsideRef : Type 0 where
  pub last_kick_time : Option ℕ
  pub last_kick_stoppage_time : Option ℕ
  pub last_kick_accel_r : ℕ
  pub last_kicker_side : Side
  pub candidates : List Player
  pub after_offside_time : ℕ

pub record IllegalDefenseRef : Type 0 where
  pub left_illegal_counter : ℕ
  pub right_illegal_counter : ℕ
  pub last_kicker_side : Side
  pub last_kick_time : ℕ
  pub after_illegal_defense_time : ℕ

pub record FreeKickRef : Type 0 where
  pub timer : ℤ
  pub kick_taken : Bool
  pub goal_kick_count : ℤ
  pub kick_taker : Option Player
  pub kick_taker_dashes : ℕ
  pub after_free_kick_fault_time : ℕ

-- The accelerations of kicks are not negative and only compared.
pub record TouchRef : Type 0 where
  pub last_touched : Option Player
  pub last_touched_time : ℕ
  pub last_touched_accel_r : ℕ
  pub last_indirect_kicker : Option Player
  pub indirect_mode : Bool
  pub after_goal_time : ℕ

pub record CatchRef : Type 0 where
  pub last_back_passer : Option Player
  pub before_last_back_passer : Option Player
  pub last_back_passer_time : ℕ
  pub team_l_touched : Bool
  pub team_r_touched : Bool
  pub after_back_pass_time : ℕ
  pub after_catch_fault_time : ℕ

pub record KeepawayRef : Type 0 where
  pub episode : ℕ
  pub keepers : ℕ
  pub takers : ℕ
  -- `M_time`, the start of the episode.
  pub start_time : ℕ
  pub take_time : ℕ

pub record PenaltyRef : Type 0 where
  pub timer : ℤ
  pub pen_nr_taken : ℕ
  pub cur_pen_taker : Side
  pub pen_side : Side
  pub last_taker : Option Player
  pub left_pen_taken : List ℕ
  pub right_pen_taken : List ℕ
  pub timeover : Bool
  -- `first_time`, the static variable of `startPenaltyShootout`.
  pub first_time : Bool

pub record Match : Type 0 where
  pub playmode : PlayMode
  pub time : ℕ
  pub stoppage_time : ℕ
  pub last_playon_start : ℕ
  pub kick_off_side : Side
  pub ball : Spot
  pub ball_catcher : Option Player
  pub players : List Player
  pub team_left : Team
  pub team_right : Team
  -- `s_half_time_count`, the static variable of `TimeRef::analyse`.
  pub half_time_count : ℕ
  -- `M_counter` of `BallStuckRef`.
  pub ball_stuck_counter : ℕ
  pub offside : OffsideRef
  pub illegal_defense : IllegalDefenseRef
  pub free_kick : FreeKickRef
  pub touch : TouchRef
  pub catch : CatchRef
  pub after_foul_time : ℕ
  pub keepaway : KeepawayRef
  pub penalty : PenaltyRef
  -- The effects so far, the latest first.
  pub effects : List Effect

abbrev pub emit : Effect → Match → Match
emit e m = record m { effects = e ∷ m.effects }

abbrev pub new_team : Team
new_team = record { enabled = false; point = 0; pen_point = 0; pen_taken = 0; pen_won = false }

-- The match as the constructors of `Stadium` and of the referees leave it. Three fields are
-- not initialised there: `M_pen_side`, which is written before it is read, and `M_last_kicker_side` and
-- `M_last_kick_time` of `IllegalDefenseRef`.
abbrev pub new_match : Match
new_match = record {
  playmode = before_kick_off;
  time = 0;
  stoppage_time = 0;
  last_playon_start = 0;
  kick_off_side = left;
  ball = centre;
  ball_catcher = none;
  players = [];
  team_left = new_team;
  team_right = new_team;
  half_time_count = 0;
  ball_stuck_counter = 0;
  offside = record {
    last_kick_time = none;
    last_kick_stoppage_time = none;
    last_kick_accel_r = 0;
    last_kicker_side = neutral;
    candidates = [];
    after_offside_time = 0;
  };
  illegal_defense = record {
    left_illegal_counter = 0;
    right_illegal_counter = 0;
    last_kicker_side = neutral;
    last_kick_time = 0;
    after_illegal_defense_time = 0;
  };
  free_kick = record {
    timer = negsuc 0;
    kick_taken = false;
    goal_kick_count = pos 0;
    kick_taker = none;
    kick_taker_dashes = 0;
    after_free_kick_fault_time = 0;
  };
  touch = record {
    last_touched = none;
    last_touched_time = 0;
    last_touched_accel_r = 0;
    last_indirect_kicker = none;
    indirect_mode = false;
    after_goal_time = 0;
  };
  catch = record {
    last_back_passer = none;
    before_last_back_passer = none;
    last_back_passer_time = 0;
    team_l_touched = false;
    team_r_touched = false;
    after_back_pass_time = 0;
    after_catch_fault_time = 0;
  };
  after_foul_time = 0;
  keepaway = record { episode = 0; keepers = 0; takers = 0; start_time = 0; take_time = 0 };
  penalty = record {
    timer = negsuc 0;
    pen_nr_taken = 0;
    cur_pen_taker = neutral;
    pen_side = neutral;
    last_taker = none;
    left_pen_taken = [];
    right_pen_taken = [];
    timeover = false;
    first_time = true;
  };
  effects = [];
}

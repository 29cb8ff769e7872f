-- ===== src/Audio/State.antt =====
-- The state of a listening player: `AudioSenderPlayerv8` of src/audio.h, for clients from version 8 on, and
-- the capacities of `Player` (src/player.h).
use rcssserver.Base.{ℕ, Bool, true, false, Option, none, List, []}
use rcssserver.Mode.{Side}
use rcssserver.Match.State.{Player}

-- The bytes of a message.
abbrev pub Text : Type 0
Text = List ℕ

-- The parameters of src/serverparam.h.
pub record HearParam : Type 0 where
  pub hear_max : ℕ
  pub hear_inc : ℕ
  pub hear_decay : ℕ
  pub say_msg_size : ℕ
  -- the order of `std::less< const Player * >`, which is that of addresses
  pub before : Player → Player → Bool
  -- what the entry of a message reads as when the message has been erased from the multimap; the library
  -- promises nothing of it
  pub erased : Player × Text → Player × Text

-- What is sent to the client, but for the time, the direction and the format.
pub data Heard : Type 0 where
  referee_said : Text → Heard
  coach_said : Side → Text → Heard
  self_said : Text → Heard
  -- from an ally or an opponent: all of it, or only who spoke
  player_said : Player → Text → Heard
  player_spoke : Player → Heard

pub record Ear : Type 0 where
  pub listener : Player
  -- `M_state_p`: `M_unfocused`, or `M_focused` with its `M_key`
  pub focus : Option Player
  pub focus_count : ℕ
  -- the multimap, in the order of its keys and, for a key, of insertion
  pub player_msgs : List (Player × Text)
  pub self_msgs : List Text
  pub coach_msgs : List (Side × Text)
  pub left_partial : Bool
  pub left_complete : Bool
  pub right_partial : Bool
  pub right_complete : Bool
  pub hear_capacity_from_teammate : ℕ
  pub hear_capacity_from_opponent : ℕ
  -- the client's messages so far, the latest first
  pub heard : List Heard

-- As the constructors leave it.
abbrev pub new_ear : HearParam → Player → Ear
new_ear hp p = record {
  listener = p;
  focus = none;
  focus_count = 0;
  player_msgs = [];
  self_msgs = [];
  coach_msgs = [];
  left_partial = false;
  left_complete = true;
  right_partial = false;
  right_complete = true;
  hear_capacity_from_teammate = hp.hear_max;
  hear_capacity_from_opponent = hp.hear_max;
  heard = [];
}

-- ===== src/Coach/State.antt =====
-- The state of `OnlineCoach` (src/coach.h) and the parameters of its messages.
use rcssserver.Base.{ℕ, suc, Bool, List, [], ℤ, pos, negsuc, ◌+◌, ◌-◌, leb, if◌then◌else◌}
use rcssserver.Clang.Syntax.{
  Body, meta_msg, define_msg, freeform_msg, unsupp_msg, info_msg, advice_msg, rule_msg, del_msg,
}

pub record CoachParam : Type 0 where
  pub freeform_wait_period : ℕ
  pub freeform_send_period : ℕ
  pub freeform_count_max : ℤ
  pub clang_win_size : ℕ
  pub clang_define_win : ℤ
  pub clang_meta_win : ℤ
  pub clang_advice_win : ℤ
  pub clang_info_win : ℤ
  pub clang_del_win : ℤ
  pub clang_rule_win : ℤ
  pub clang_mess_delay : ℕ
  pub clang_mess_per_cycle : ℕ

-- `rcss::clang::Msg::Types`.
pub data MsgType : Type 0 where
  meta freeform info advice define del rule unsup : MsgType

-- `getType` of each class of messages.
abbrev pub get_type : Body → MsgType
get_type (meta_msg _) = meta
get_type (define_msg _) = define
get_type (freeform_msg _) = freeform
get_type unsupp_msg = unsup
get_type (info_msg _) = info
get_type (advice_msg _) = advice
get_type (rule_msg _) = rule
get_type (del_msg _) = del

-- A message in the queue, with its `time_recv`.
pub record Queued : Type 0 where
  pub body : Body
  pub time_recv : ℕ

-- What the coach is told.
pub data Reply : Type 0 where
  ok_say could_not_parse_say cannot_say_freeform_while_playon : Reply
  said_too_many : MsgType → Reply

-- The messages left in the window.
pub record Left : Type 0 where
  pub define_left : ℤ
  pub meta_left : ℤ
  pub advice_left : ℤ
  pub info_left : ℤ
  pub del_left : ℤ
  pub rule_left : ℤ

-- `sent` and `replies` are what was said to the players and to the coach, the last one first.
pub record OnlineCoach : Type 0 where
  pub freeform_messages_said : ℕ
  pub freeform_messages_allowed : ℤ
  pub left : Left
  pub msg_left_update_time : ℤ
  pub message_queue : List Queued
  pub sent : List Queued
  pub replies : List Reply

-- The constructor.
abbrev pub new_coach : CoachParam → OnlineCoach
new_coach p = record {
  freeform_messages_said = 0;
  freeform_messages_allowed = p.freeform_count_max;
  left = record {
    define_left = negsuc 0;
    meta_left = negsuc 0;
    advice_left = negsuc 0;
    info_left = negsuc 0;
    del_left = negsuc 0;
    rule_left = negsuc 0;
  };
  msg_left_update_time = negsuc 0;
  message_queue = [];
  sent = [];
  replies = [];
}

-- What a coach reads of the match when it acts.
pub record Moment : Type 0 where
  pub is_play_on : Bool
  pub time : ℕ
  pub last_play_on_start : ℕ

infixl 6 ◌+ℤ◌
abbrev pub ◌+ℤ◌ : ℤ → ℤ → ℤ
pos m +ℤ pos n = pos (m + n)
pos m +ℤ negsuc n = if leb m n then negsuc (n - m) else pos (m - suc n)
negsuc m +ℤ pos n = if leb n m then negsuc (m - n) else pos (n - suc m)
negsuc m +ℤ negsuc n = negsuc (suc (m + n))

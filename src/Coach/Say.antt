-- ===== src/Coach/Say.antt =====
-- `OnlineCoach` (src/coach.cpp) as it takes a parsed message of the `say` command, and the counts of
-- messages that it may say.
use rcssserver.Base.{
  ℕ, zero, suc, ◌-◌, ◌%◌, Bool, true, false, not, ltb, if◌then◌else◌, Option, none, some, [], ◌∷◌,
  ◌++◌, ℤ, pos, negsuc, is_positive,
}
use rcssserver.Clang.Syntax.{Body}
use rcssserver.Coach.State.{
  CoachParam, MsgType, meta, freeform, info, advice, define, del, rule, get_type, Reply, ok_say,
  could_not_parse_say, cannot_say_freeform_while_playon, said_too_many, Left, OnlineCoach, Moment,
  ◌+ℤ◌,
}

-- `canSendFreeform`.
abbrev pub can_send_freeform : CoachParam → Moment → Bool
can_send_freeform p t =
    let playon_period = t.time - t.last_play_on_start in
    if not t.is_play_on
    then true
    else if ltb p.freeform_wait_period playon_period
    then ltb (playon_period % p.freeform_wait_period) p.freeform_send_period
    else false

-- `--left` of a number above 0.
abbrev pub decrement : ℤ → ℤ
decrement (pos (suc n)) = pos n
decrement (pos zero) = negsuc 0
decrement (negsuc n) = negsuc (suc n)

-- The count of a type that has one, and the count with one message less.
abbrev pub left_of : MsgType → Left → Option ℤ
left_of meta l = some l.meta_left
left_of info l = some l.info_left
left_of advice l = some l.advice_left
left_of define l = some l.define_left
left_of del l = some l.del_left
left_of rule l = some l.rule_left
left_of _ l = none

abbrev pub spend : MsgType → Left → Left
spend meta l = record l { meta_left = decrement l.meta_left }
spend info l = record l { info_left = decrement l.info_left }
spend advice l = record l { advice_left = decrement l.advice_left }
spend define l = record l { define_left = decrement l.define_left }
spend del l = record l { del_left = decrement l.del_left }
spend rule l = record l { rule_left = decrement l.rule_left }
spend _ l = l

abbrev reply : Reply → OnlineCoach → OnlineCoach
reply r c = record c { replies = r ∷ c.replies }

-- `M_message_queue.push_back( msg )` and the answer.
abbrev pub enqueue : Moment → Body → OnlineCoach → OnlineCoach
enqueue t msg c =
    reply ok_say record c {
      message_queue = c.message_queue ++ (record { body = msg; time_recv = t.time } ∷ []);
    }

-- Fewer freeform messages were said than are allowed, or any number is.
abbrev pub has_freeform_left : ℕ → ℤ → Bool
has_freeform_left said (pos n) = ltb said n
has_freeform_left said (negsuc n) = true

-- The case of a freeform message.
abbrev pub say_freeform : CoachParam → Moment → Body → OnlineCoach → OnlineCoach
say_freeform p t msg c =
    if can_send_freeform p t
    then if has_freeform_left c.freeform_messages_said c.freeform_messages_allowed
      then enqueue t msg record c { freeform_messages_said = suc c.freeform_messages_said }
      else reply (said_too_many freeform) c
    else reply cannot_say_freeform_while_playon c

-- The cases of the types that have a count.
abbrev pub say_counted : Moment → Body → ℤ → OnlineCoach → OnlineCoach
say_counted t msg left c =
    if not t.is_play_on
    then enqueue t msg c
    else if is_positive left
    then enqueue t msg record c { left = spend (get_type msg) c.left }
    else reply (said_too_many (get_type msg)) c

-- A type that is no case of the `switch` is reported on the server only.
abbrev say_typed : CoachParam → Moment → Body → MsgType → Option ℤ → OnlineCoach → OnlineCoach
say_typed p t msg freeform left c = say_freeform p t msg c
say_typed p t msg type (some left) c = say_counted t msg left c
say_typed p t msg type none c = c

-- The `say` command of a coach of version 7 or later; `none` is a text that does not parse.
unfoldable pub say : CoachParam → Moment → Option Body → OnlineCoach → OnlineCoach
say p t none c = reply could_not_parse_say c
say p t (some msg) c = say_typed p t msg (get_type msg) (left_of (get_type msg) c.left) c

-- `awardFreeformMessageCount`.
unfoldable pub award_freeform_message_count : CoachParam → OnlineCoach → OnlineCoach
award_freeform_message_count p c =
    if is_positive c.freeform_messages_allowed
    then record c {
      freeform_messages_allowed = c.freeform_messages_allowed +ℤ p.freeform_count_max;
    }
    else c

-- The guard of `update_messages_left`: an earlier update, less than a window ago.
abbrev pub is_within : CoachParam → ℕ → ℤ → Bool
is_within p time (pos last) = ltb (time - last) p.clang_win_size
is_within p time (negsuc n) = false

-- `update_messages_left`.
unfoldable pub update_messages_left : CoachParam → ℕ → OnlineCoach → OnlineCoach
update_messages_left p time c = if is_within p time c.msg_left_update_time then c else record c {
  left = record {
    define_left = p.clang_define_win;
    meta_left = p.clang_meta_win;
    advice_left = p.clang_advice_win;
    info_left = p.clang_info_win;
    del_left = p.clang_del_win;
    rule_left = p.clang_rule_win;
  };
  msg_left_update_time = pos time;
}

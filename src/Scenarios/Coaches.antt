-- ===== src/Scenarios/Coaches.antt =====
-- What a coach says, and the theorems on its messages at concrete texts.
use rcssserver.Base.{
  ◌≡◌, refl, arith, ◌+◌, true, false, Option, none, some, List, [], ◌∷◌, ◌++◌, length, reverse, pos,
}
use rcssserver.Clang.Syntax.{Body, freeform_msg, info_msg, tok_clear, unsupp_msg}
use rcssserver.Coach.State.{CoachParam, OnlineCoach, new_coach, Moment, info}
use rcssserver.Coach.Say.{say, update_messages_left}
use rcssserver.Coach.Queue.{
  send_due, check_message_queue, due_prefix, after_due, check_message_queue-prefix,
}
use rcssserver.Coach.Budget.{says, count_queued, count_left, says-budget}
use rcssserver.Coach.Events.{
  Event, coach_says, cycle, award, run, count_ok, answered_all, run-delivers,
}
use rcssserver.Coach.Freeform.{FreeformBound, run-FreeformBound}

abbrev windows : CoachParam
windows = record {
  freeform_wait_period = 600;
  freeform_send_period = 20;
  freeform_count_max = pos 2;
  clang_win_size = 300;
  clang_define_win = pos 1;
  clang_meta_win = pos 1;
  clang_advice_win = pos 1;
  clang_info_win = pos 1;
  clang_del_win = pos 1;
  clang_rule_win = pos 1;
  clang_mess_delay = 50;
  clang_mess_per_cycle = 1;
}

abbrev in_play : Moment
in_play = record { is_play_on = true; time = 700; last_play_on_start = 10 }

abbrev stopped : Moment
stopped = record { is_play_on = false; time = 700; last_play_on_start = 10 }

abbrev clear_tokens : Body
clear_tokens = info_msg (tok_clear ∷ [])

abbrev coach : OnlineCoach
coach = update_messages_left windows 700 (new_coach windows)

abbrev waiting : OnlineCoach
waiting = record (new_coach windows) {
  message_queue =
      record { body = clear_tokens; time_recv = 600 }
      ∷ record { body = unsupp_msg; time_recv = 610 }
      ∷ record { body = clear_tokens; time_recv = 690 }
      ∷ [];
}

check_message_queue-prefix_example :
    ((check_message_queue windows in_play waiting).message_queue
      ≡ after_due windows in_play waiting.message_queue)
    × ((check_message_queue windows in_play waiting).sent
        ≡ reverse (due_prefix windows in_play waiting.message_queue) ++ [])
check_message_queue-prefix_example =
    check_message_queue-prefix windows in_play waiting (omega arith)

-- Two messages go out in a cycle, with one message per cycle.
two_sent : length (check_message_queue windows in_play waiting).sent ≡ 2
unfolding check_message_queue send_due
two_sent = refl

abbrev texts : List (Moment × Option Body)
texts = (in_play, some clear_tokens) ∷ (in_play, none) ∷ (in_play, some clear_tokens) ∷ []

says-budget_example :
    count_queued info (says windows texts coach).message_queue
      + count_left info (says windows texts coach).left
    ≡ count_queued info coach.message_queue + count_left info coach.left
says-budget_example = says-budget info windows texts coach (ground arith) (refl, (refl, (refl, tt)))

one_accepted :
    (count_queued info (says windows texts coach).message_queue ≡ 1)
    × (count_left info (says windows texts coach).left ≡ 0)
unfolding says say update_messages_left
one_accepted = (refl, refl)

abbrev events : List Event
events =
    coach_says stopped (some (freeform_msg []))
    ∷ cycle stopped
    ∷ coach_says in_play (some (freeform_msg []))
    ∷ award
    ∷ coach_says stopped (some clear_tokens)
    ∷ cycle stopped
    ∷ []

run-delivers_example :
    (reverse (run windows events coach).sent ++ (run windows events coach).message_queue
      ≡ (reverse coach.sent ++ coach.message_queue) ++ answered_all windows events coach)
    × (count_ok (run windows events coach).replies
        ≡ length (answered_all windows events coach) + count_ok coach.replies)
run-delivers_example = run-delivers windows events coach

run-FreeformBound_example :
    FreeformBound
      (pos 2)
      (run windows events (new_coach windows)).freeform_messages_said
      (run windows events (new_coach windows)).freeform_messages_allowed
run-FreeformBound_example = run-FreeformBound windows events

-- ===== src/Coach/Freeform.antt =====
-- The number of freeform messages of a coach (src/coach.cpp).
use rcssserver.Base.{
  ◌≡◌, refl, ℕ, suc, ◌≤◌, true, false, not, if_elim, is_positive, Option, none, some, List, [], ◌∷◌,
  arith, ℤ, pos, negsuc,
}
use rcssserver.Clang.Syntax.{
  Body, meta_msg, define_msg, freeform_msg, unsupp_msg, info_msg, advice_msg, rule_msg, del_msg,
}
use rcssserver.Coach.State.{CoachParam, OnlineCoach, Moment, new_coach, ◌+ℤ◌}
use rcssserver.Coach.Say.{
  say, say_counted, say_freeform, can_send_freeform, has_freeform_left, is_within,
  update_messages_left, award_freeform_message_count,
}
use rcssserver.Coach.Queue.{check_message_queue}
use rcssserver.Coach.Events.{Event, coach_says, cycle, award, happen, run}

-- With `freeformCountMax() >= 0` no more were said than are allowed; a negative one allows any number,
-- and is never changed.
abbrev pub FreeformBound : ℤ → ℕ → ℤ → Type 0
FreeformBound (pos max) said (pos allowed) = said ≤ allowed
FreeformBound (pos max) said (negsuc n) = true ≡ false
FreeformBound (negsuc max) said allowed = allowed ≡ negsuc max

abbrev IsBound : CoachParam → OnlineCoach → Type 0
IsBound p c =
    FreeformBound p.freeform_count_max c.freeform_messages_said c.freeform_messages_allowed

one_more :
    (max : ℤ) (said : ℕ) (allowed : ℤ)
    → has_freeform_left said allowed ≡ true
    → FreeformBound max said allowed
    → FreeformBound max (suc said) allowed
one_more (pos max) said (pos allowed) h b = ground arith
one_more (pos max) said (negsuc n) h b = b
one_more (negsuc max) said allowed h b = b

more_allowed :
    (max : ℤ) (said : ℕ) (allowed : ℤ)
    → is_positive allowed ≡ true
    → FreeformBound max said allowed
    → FreeformBound max said (allowed +ℤ max)
more_allowed (pos max) said (pos allowed) h b = omega arith
more_allowed (pos max) said (negsuc n) h b = ground arith
more_allowed (negsuc max) said allowed h b = ground arith

say_counted-IsBound :
    (p : CoachParam) (t : Moment) (msg : Body) (n : ℤ) (c : OnlineCoach)
    → IsBound p c
    → IsBound p (say_counted t msg n c)
say_counted-IsBound p t msg n c b =
    if_elim (IsBound p) (not t.is_play_on) (λ _. b)
      (λ _. if_elim (IsBound p) (is_positive n) (λ _. b) (λ _. b))

say_freeform-IsBound :
    (p : CoachParam) (t : Moment) (msg : Body) (c : OnlineCoach)
    → IsBound p c
    → IsBound p (say_freeform p t msg c)
say_freeform-IsBound p t msg c b =
    if_elim (IsBound p) (can_send_freeform p t)
      (λ _.
        if_elim (IsBound p) (has_freeform_left c.freeform_messages_said c.freeform_messages_allowed)
          (λ h.
            one_more p.freeform_count_max c.freeform_messages_said c.freeform_messages_allowed h b)
          (λ _. b))
      (λ _. b)

say-IsBound :
    (p : CoachParam) (t : Moment) (o : Option Body) (c : OnlineCoach)
    → IsBound p c
    → IsBound p (say p t o c)
unfolding say
say-IsBound p t none c b = b
say-IsBound p t (some (meta_msg l)) c b = say_counted-IsBound p t (meta_msg l) _ c b
say-IsBound p t (some (define_msg l)) c b = say_counted-IsBound p t (define_msg l) _ c b
say-IsBound p t (some (freeform_msg s)) c b = say_freeform-IsBound p t (freeform_msg s) c b
say-IsBound p t (some unsupp_msg) c b = b
say-IsBound p t (some (info_msg l)) c b = say_counted-IsBound p t (info_msg l) _ c b
say-IsBound p t (some (advice_msg l)) c b = say_counted-IsBound p t (advice_msg l) _ c b
say-IsBound p t (some (rule_msg l)) c b = say_counted-IsBound p t (rule_msg l) _ c b
say-IsBound p t (some (del_msg l)) c b = say_counted-IsBound p t (del_msg l) _ c b

happen-IsBound :
    (p : CoachParam) (e : Event) (c : OnlineCoach) → IsBound p c → IsBound p (happen p e c)
unfolding happen update_messages_left check_message_queue award_freeform_message_count
happen-IsBound p (coach_says t o) c b = say-IsBound p t o c b
happen-IsBound p (cycle t) c b =
    if_elim (IsBound p) (is_within p t.time c.msg_left_update_time) (λ _. b) (λ _. b)
happen-IsBound p award c b =
    if_elim (IsBound p) (is_positive c.freeform_messages_allowed)
      (λ h.
        more_allowed p.freeform_count_max c.freeform_messages_said c.freeform_messages_allowed h b)
      (λ _. b)

run-IsBound :
    (p : CoachParam) (es : List Event) (c : OnlineCoach) → IsBound p c → IsBound p (run p es c)
unfolding run
run-IsBound p [] c b = b
run-IsBound p (e ∷ es) c b = run-IsBound p es (happen p e c) (happen-IsBound p e c b)

new_coach-IsBound : (p : CoachParam) (max : ℤ) → FreeformBound max 0 max
new_coach-IsBound p (pos max) = omega arith
new_coach-IsBound p (negsuc max) = refl

-- A coach that starts fresh, after any sequence of texts, cycles and awards, has said no more freeform
-- messages than it is allowed, where `freeformCountMax()` is not negative; where it is negative, the
-- number that is allowed stays that negative one.
pub run-FreeformBound :
    (p : CoachParam) (es : List Event)
    → FreeformBound p.freeform_count_max
        (run p es (new_coach p)).freeform_messages_said
        (run p es (new_coach p)).freeform_messages_allowed
run-FreeformBound p es = run-IsBound p es (new_coach p) (new_coach-IsBound p p.freeform_count_max)

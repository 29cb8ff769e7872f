-- ===== src/Coach/Events.antt =====
-- The acts of an online coach in any order (src/coach.cpp; src/stadium.cpp, `Stadium::step`), and
-- what holds of its messages after them.
use rcssserver.Base.{
  ◌≡◌, refl, ap, sym, subst, ◌∙◌, ◌⊎◌, inl, inr, ℕ, suc, ◌+◌, ltb, not, if◌then◌else◌, if_elim,
  is_positive, Option, none, some, List, [], ◌∷◌, ◌++◌, length, length-append, reverse, arith, ℤ,
}
use mathlib.Core.List.{append_assoc, append-nil, reverse-append, reverse-reverse}
use rcssserver.Clang.Syntax.{
  Body, meta_msg, define_msg, freeform_msg, unsupp_msg, info_msg, advice_msg, rule_msg, del_msg,
}
use rcssserver.Coach.State.{CoachParam, get_type, Queued, Reply, ok_say, OnlineCoach, Moment}
use rcssserver.Coach.Say.{
  say, say_counted, say_freeform, spend, can_send_freeform, has_freeform_left, enqueue, is_within,
  update_messages_left, award_freeform_message_count,
}
use rcssserver.Coach.Queue.{send_due, send_due-append, check_message_queue}

-- A `say` with the parsed message, the part of a cycle that `Stadium::step` runs for a coach, and the
-- award at the end of a half.
pub data Event : Type 0 where
  coach_says : Moment → Option Body → Event
  cycle : Moment → Event
  award : Event

unfoldable pub happen : CoachParam → Event → OnlineCoach → OnlineCoach
unfolding say check_message_queue update_messages_left award_freeform_message_count
happen p (coach_says t o) c = say p t o c
happen p (cycle t) c = update_messages_left p t.time (check_message_queue p t c)
happen p award c = award_freeform_message_count p c

unfoldable pub run : CoachParam → List Event → OnlineCoach → OnlineCoach
run p [] c = c
run p (e ∷ es) c = run p es (happen p e c)

-- The messages that were accepted, in their order: those that went out, and those that wait.
abbrev accepted : OnlineCoach → List Queued
accepted c = reverse c.sent ++ c.message_queue

abbrev is_ok : Reply → ℕ
is_ok ok_say = 1
is_ok _ = 0

-- The `(ok say)` among the replies.
abbrev pub count_ok : List Reply → ℕ
count_ok [] = 0
count_ok (r ∷ rs) = is_ok r + count_ok rs

-- What an event says, and the messages that it is answered `(ok say)` for.
abbrev offered : Event → List Queued
offered (coach_says t (some msg)) = record { body = msg; time_recv = t.time } ∷ []
offered e = []

abbrev answered : CoachParam → Event → OnlineCoach → List Queued
answered p e c =
    if ltb (count_ok c.replies) (count_ok (happen p e c).replies) then offered e else []

-- The messages of a run that are answered so, in their order.
unfoldable pub answered_all : CoachParam → List Event → OnlineCoach → List Queued
unfolding happen
answered_all p [] c = []
answered_all p (e ∷ es) c = answered p e c ++ answered_all p es (happen p e c)

-- `d` accepted `more` and nothing else after `c`, and answered so as often.
record Accepts (more : List Queued) (c d : OnlineCoach) : Type 0 where
  pub accepts : accepted d ≡ accepted c ++ more
  pub answers : count_ok d.replies ≡ length more + count_ok c.replies

-- Nothing is accepted.
nothing :
    {c d : OnlineCoach}
    → accepted d ≡ accepted c
    → count_ok d.replies ≡ count_ok c.replies
    → Accepts [] c d
nothing {c} e f = record { accepts = e ∙ sym (append-nil (accepted c)); answers = omega (arith, f) }

-- A `say` accepts its message or nothing.
abbrev Said : List Queued → OnlineCoach → OnlineCoach → Type 0
Said m c d = Accepts m c d ⊎ Accepts [] c d

enqueue-Said :
    (t : Moment) (msg : Body) {c : OnlineCoach} (d : OnlineCoach)
    → accepted d ≡ accepted c
    → d.replies ≡ c.replies
    → Said (record { body = msg; time_recv = t.time } ∷ []) c (enqueue t msg d)
enqueue-Said t msg {c} d e f = inl (record {
  accepts =
      sym (
        append_assoc (reverse d.sent) d.message_queue
          (record { body = msg; time_recv = t.time } ∷ []))
      ∙ ap (λ l. l ++ (record { body = msg; time_recv = t.time } ∷ [])) e;
  answers = omega (arith, ap count_ok f);
})

say_counted-Said :
    (t : Moment) (msg : Body) (n : ℤ) (c : OnlineCoach)
    → Said (record { body = msg; time_recv = t.time } ∷ []) c (say_counted t msg n c)
say_counted-Said t msg n c =
    let m : List Queued = record { body = msg; time_recv = t.time } ∷ [] in
    if_elim (λ d. Said m c d) (not t.is_play_on) (λ _. enqueue-Said t msg c refl refl)
      (λ _.
        if_elim (λ d. Said m c d) (is_positive n)
          (λ _. enqueue-Said t msg record c { left = spend (get_type msg) c.left } refl refl)
          (λ _. inr (nothing refl (omega arith))))

say_freeform-Said :
    (p : CoachParam) (t : Moment) (msg : Body) (c : OnlineCoach)
    → Said (record { body = msg; time_recv = t.time } ∷ []) c (say_freeform p t msg c)
say_freeform-Said p t msg c =
    let m : List Queued = record { body = msg; time_recv = t.time } ∷ [] in
    if_elim (λ d. Said m c d) (can_send_freeform p t)
      (λ _.
        if_elim (λ d. Said m c d)
          (has_freeform_left c.freeform_messages_said c.freeform_messages_allowed)
          (λ _.
            enqueue-Said t msg record c { freeform_messages_said = suc c.freeform_messages_said }
              refl refl)
          (λ _. inr (nothing refl (omega arith))))
      (λ _. inr (nothing refl (omega arith)))

say-Said :
    (p : CoachParam) (t : Moment) (o : Option Body) (c : OnlineCoach)
    → Said (offered (coach_says t o)) c (say p t o c)
unfolding say
say-Said p t none c = inr (nothing refl (omega arith))
say-Said p t (some (meta_msg l)) c = say_counted-Said t (meta_msg l) _ c
say-Said p t (some (define_msg l)) c = say_counted-Said t (define_msg l) _ c
say-Said p t (some (freeform_msg s)) c = say_freeform-Said p t (freeform_msg s) c
say-Said p t (some unsupp_msg) c = inr (nothing refl refl)
say-Said p t (some (info_msg l)) c = say_counted-Said t (info_msg l) _ c
say-Said p t (some (advice_msg l)) c = say_counted-Said t (advice_msg l) _ c
say-Said p t (some (rule_msg l)) c = say_counted-Said t (rule_msg l) _ c
say-Said p t (some (del_msg l)) c = say_counted-Said t (del_msg l) _ c

check_message_queue-Accepts :
    (p : CoachParam) (t : Moment) (c : OnlineCoach) → Accepts [] c (check_message_queue p t c)
unfolding check_message_queue
check_message_queue-Accepts p t c =
    let r : List Queued × List Queued = send_due p t p.clang_mess_per_cycle c.message_queue in
    nothing
      (ap (λ l. l ++ r.1) (reverse-append (reverse r.0) c.sent)
        ∙ append_assoc (reverse c.sent) (reverse (reverse r.0)) r.1
        ∙ ap (λ l. reverse c.sent ++ l)
            (ap (λ l. l ++ r.1) (reverse-reverse r.0)
              ∙ send_due-append p t p.clang_mess_per_cycle c.message_queue))
      refl

update_messages_left-Accepts :
    (p : CoachParam) (t : Moment) (c : OnlineCoach)
    → Accepts [] c (update_messages_left p t.time (check_message_queue p t c))
unfolding update_messages_left
update_messages_left-Accepts p t c =
    let h = check_message_queue-Accepts p t c in
    if_elim (λ d. Accepts [] c d)
      (is_within p t.time (check_message_queue p t c).msg_left_update_time) (λ _. h)
      (λ _. record { accepts = h.accepts; answers = h.answers })

award-Accepts : (p : CoachParam) (c : OnlineCoach) → Accepts [] c (award_freeform_message_count p c)
unfolding award_freeform_message_count
award-Accepts p c =
    if_elim (λ d. Accepts [] c d) (is_positive c.freeform_messages_allowed) (λ _. nothing refl refl)
      (λ _. nothing refl refl)

happen-Said : (p : CoachParam) (e : Event) (c : OnlineCoach) → Said (offered e) c (happen p e c)
unfolding happen
happen-Said p (coach_says t o) c = say-Said p t o c
happen-Said p (cycle t) c = inr (update_messages_left-Accepts p t c)
happen-Said p award c = inr (award-Accepts p c)

-- The reply tells which of the two it was.
offered-one : (e : Event) → (offered e ≡ []) ⊎ (length (offered e) ≡ 1)
offered-one (coach_says t none) = inl refl
offered-one (coach_says t (some msg)) = inr refl
offered-one (cycle t) = inl refl
offered-one award = inl refl

told :
    (e : Event) (c d : OnlineCoach)
    → Said (offered e) c d
    → Accepts (if ltb (count_ok c.replies) (count_ok d.replies) then offered e else []) c d
told e c d (inl a) =
    if_elim (λ m. Accepts m c d) (ltb (count_ok c.replies) (count_ok d.replies)) (λ _. a)
      (λ few. elim (offered-one e) [
        | inl none_said ↦ subst (λ m. Accepts m c d) none_said a
        | inr one ↦ absurd (ground (arith, a.answers, one, few))
      ])
told e c d (inr a) =
    if_elim (λ m. Accepts m c d) (ltb (count_ok c.replies) (count_ok d.replies))
      (λ more. absurd (ground (arith, a.answers, more))) (λ _. a)

run-Accepts :
    (p : CoachParam) (es : List Event) (c : OnlineCoach)
    → Accepts (answered_all p es c) c (run p es c)
unfolding run answered_all
run-Accepts p [] c = nothing refl refl
run-Accepts p (e ∷ es) c =
    let d = happen p e c in
    let a = told e c d (happen-Said p e c) in
    let b = run-Accepts p es d in
    let now = answered p e c in
    record {
      accepts =
          b.accepts
          ∙ ap (λ l. l ++ answered_all p es d) a.accepts
          ∙ append_assoc (accepted c) now (answered_all p es d);
      answers = omega (arith, a.answers, b.answers, length-append now (answered_all p es d));
    }

-- After any sequence of texts that the coach says, cycles and awards, the messages that went out,
-- followed by the queue, are those of before and then the messages that were answered `(ok say)`, with
-- their bodies and times and in the order in which they were said: no accepted message is lost, changed,
-- sent twice or overtaken.
pub run-delivers :
    (p : CoachParam) (es : List Event) (c : OnlineCoach)
    → (reverse (run p es c).sent ++ (run p es c).message_queue
        ≡ (reverse c.sent ++ c.message_queue) ++ answered_all p es c)
      × (count_ok (run p es c).replies ≡ length (answered_all p es c) + count_ok c.replies)
run-delivers p es c = let a = run-Accepts p es c in (a.accepts, a.answers)

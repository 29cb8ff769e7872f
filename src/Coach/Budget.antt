-- ===== src/Coach/Budget.antt =====
-- How many messages of a type a coach gets into the queue while the play is on (src/coach.cpp).
use rcssserver.Base.{
  ◌≡◌, refl, ◌∙◌, ℕ, zero, suc, not, ◌≢◌, ◌+◌, true, ◌==◌, if◌then◌else◌, Option, none, some, List,
  [], ◌∷◌, ◌++◌, arith, pos_part, is_positive, if_elim, ℤ, pos, negsuc,
}
use rcssserver.Clang.Syntax.{
  Body, meta_msg, define_msg, freeform_msg, unsupp_msg, info_msg, advice_msg, rule_msg, del_msg,
}
use rcssserver.Coach.State.{
  CoachParam, MsgType, meta, freeform, info, advice, define, del, rule, unsup, get_type, Queued,
  Left, OnlineCoach, Moment,
}
use rcssserver.Coach.Say.{
  left_of, spend, say, say_counted, say_freeform, can_send_freeform, has_freeform_left, enqueue,
  decrement,
}

-- The value of the enumerator.
abbrev type_code : MsgType → ℕ
type_code meta = 0
type_code freeform = 1
type_code info = 2
type_code advice = 3
type_code define = 4
type_code del = 5
type_code rule = 6
type_code unsup = 7

abbrev is_of : MsgType → MsgType → ℕ
is_of k j = if type_code j == type_code k then 1 else 0

abbrev pub count_left : MsgType → Left → ℕ
count_left k l = elim (left_of k l) [ none ↦ 0 | some n ↦ pos_part n ]

decrement_part : (n : ℤ) → is_positive n ≡ true → pos_part (decrement n) + 1 ≡ pos_part n
decrement_part (pos zero) h = ground arith
decrement_part (pos (suc n)) h = omega arith
decrement_part (negsuc n) h = ground arith

spend-count_left :
    (k j : MsgType) (l : Left) (n : ℤ)
    → left_of j l ≡ some n
    → is_positive n ≡ true
    → count_left k (spend j l) + is_of k j ≡ count_left k l
spend-count_left k j l n e h = ground (
  arith,
  decrement_part l.meta_left,
  decrement_part l.info_left,
  decrement_part l.advice_left,
  decrement_part l.define_left,
  decrement_part l.del_left,
  decrement_part l.rule_left,
)

-- The messages of a type in a queue.
abbrev pub count_queued : MsgType → List Queued → ℕ
count_queued k [] = 0
count_queued k (m ∷ q) = is_of k (get_type m.body) + count_queued k q

count_queued-append :
    (k : MsgType) (q r : List Queued)
    → count_queued k (q ++ r) ≡ count_queued k q + count_queued k r
count_queued-append k [] r = omega arith
count_queued-append k (m ∷ q) r = omega (arith, count_queued-append k q r)

-- What a coach has in the queue of a type, and may still say of it.
abbrev budget : MsgType → OnlineCoach → ℕ
budget k c = count_queued k c.message_queue + count_left k c.left

enqueue-budget :
    (k : MsgType) (t : Moment) (msg : Body) (c : OnlineCoach)
    → budget k (enqueue t msg c) ≡ is_of k (get_type msg) + budget k c
enqueue-budget k t msg c =
    omega (
      arith,
      count_queued-append k c.message_queue (record { body = msg; time_recv = t.time } ∷ []),
    )

say_counted-budget :
    (k : MsgType) (t : Moment) (msg : Body) (n : ℤ) (c : OnlineCoach)
    → left_of (get_type msg) c.left ≡ some n
    → t.is_play_on ≡ true
    → budget k (say_counted t msg n c) ≡ budget k c
say_counted-budget k t msg n c e play =
    if_elim (λ c'. budget k c' ≡ budget k c) (not t.is_play_on) (λ h. ground arith)
      (λ _.
        if_elim (λ c'. budget k c' ≡ budget k c) (is_positive n)
          (λ h. omega (
            arith,
            spend-count_left k (get_type msg) c.left n e h,
            enqueue-budget k t msg (record c { left = spend (get_type msg) c.left }),
          ))
          (λ _. refl))

say_freeform-budget :
    (k : MsgType) (p : CoachParam) (t : Moment) (msg : Body) (c : OnlineCoach)
    → is_of k freeform ≡ 0
    → get_type msg ≡ freeform
    → budget k (say_freeform p t msg c) ≡ budget k c
say_freeform-budget k p t msg c e f =
    if_elim (λ c'. budget k c' ≡ budget k c) (can_send_freeform p t)
      (λ _.
        if_elim (λ c'. budget k c' ≡ budget k c)
          (has_freeform_left c.freeform_messages_said c.freeform_messages_allowed)
          (λ _. omega (
            arith,
            e,
            e',
            enqueue-budget k t msg
                (record c { freeform_messages_said = suc c.freeform_messages_said }),
          ))
          (λ _. refl))
      (λ _. refl)
  where
    e' : is_of k (get_type msg) ≡ 0
    e' = rw f e

-- One `say` while the play is on.
say-budget :
    (k : MsgType) (p : CoachParam) (t : Moment) (o : Option Body) (c : OnlineCoach)
    → is_of k freeform ≡ 0
    → t.is_play_on ≡ true
    → budget k (say p t o c) ≡ budget k c
unfolding say
say-budget k p t none c e play = refl
say-budget k p t (some (meta_msg l)) c e play = say_counted-budget k t (meta_msg l) _ c refl play
say-budget k p t (some (define_msg l)) c e play =
    say_counted-budget k t (define_msg l) _ c refl play
say-budget k p t (some (freeform_msg s)) c e play =
    say_freeform-budget k p t (freeform_msg s) c e refl
say-budget k p t (some unsupp_msg) c e play = refl
say-budget k p t (some (info_msg l)) c e play = say_counted-budget k t (info_msg l) _ c refl play
say-budget k p t (some (advice_msg l)) c e play =
    say_counted-budget k t (advice_msg l) _ c refl play
say-budget k p t (some (rule_msg l)) c e play = say_counted-budget k t (rule_msg l) _ c refl play
say-budget k p t (some (del_msg l)) c e play = say_counted-budget k t (del_msg l) _ c refl play

-- One `say` after the other.
unfoldable pub says : CoachParam → List (Moment × Option Body) → OnlineCoach → OnlineCoach
says p [] c = c
says p ((t, o) ∷ es) c = says p es (say p t o c)

abbrev AllPlayOn : List (Moment × Option Body) → Type 0
AllPlayOn [] = Unit
AllPlayOn ((t, o) ∷ es) = (t.is_play_on ≡ true) × AllPlayOn es

-- When the coach says any number of texts while the play is on, one after the other with no cycle between
-- them, the messages of a type in its queue together with those that it may still say stay the same
-- number, for every type but freeform: no more get into the queue than were left.
pub says-budget :
    (k : MsgType) (p : CoachParam) (es : List (Moment × Option Body)) (c : OnlineCoach)
    → type_code k ≢ type_code freeform
    → AllPlayOn es
    → count_queued k (says p es c).message_queue + count_left k (says p es c).left
      ≡ count_queued k c.message_queue + count_left k c.left
unfolding says
says-budget k p [] c ne play = refl
says-budget k p ((t, o) ∷ es) c ne play =
    says-budget k p es (say p t o c) ne play.1 ∙ say-budget k p t o c (ground arith) play.0

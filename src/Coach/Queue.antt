-- ===== src/Coach/Queue.antt =====
-- `OnlineCoach::check_message_queue` (src/coach.cpp): which messages of the queue go out in a cycle.
use rcssserver.Base.{
  ◌≡◌, refl, ap, ℕ, suc, ◌-◌, ◌<◌, Bool, not, ◌||◌, ◌&&◌, ltb, leb, if◌then◌else◌, if_elim, List,
  [], ◌∷◌, ◌++◌, arith, reverse,
}
use rcssserver.Coach.State.{CoachParam, Queued, OnlineCoach, Moment}

-- The play is stopped, or the message has waited for the delay.
abbrev is_due : CoachParam → Moment → Queued → Bool
is_due p t m = not t.is_play_on || leb p.clang_mess_delay (t.time - m.time_recv)

-- The loop: `i` counts up.
unfoldable pub send_due : CoachParam → Moment → ℕ → List Queued → List Queued × List Queued
send_due p t i [] = ([], [])
send_due p t i (m ∷ q) =
    let (said, rest) = send_due p t (suc i) q in
    if ltb 0 i && is_due p t m then (m ∷ said, rest) else ([], m ∷ q)

unfoldable pub check_message_queue : CoachParam → Moment → OnlineCoach → OnlineCoach
unfolding send_due
check_message_queue p t c =
    let (said, rest) = send_due p t p.clang_mess_per_cycle c.message_queue in
    record c { message_queue = rest; sent = reverse said ++ c.sent }

-- The longest prefix of messages that are due, and the rest.
pub due_prefix : CoachParam → Moment → List Queued → List Queued
due_prefix p t [] = []
due_prefix p t (m ∷ q) = let rest = due_prefix p t q in if is_due p t m then m ∷ rest else []

pub after_due : CoachParam → Moment → List Queued → List Queued
after_due p t [] = []
after_due p t (m ∷ q) = let rest = after_due p t q in if is_due p t m then rest else m ∷ q

send_due-prefix :
    (p : CoachParam) (t : Moment) (i : ℕ) (q : List Queued)
    → 0 < i
    → send_due p t i q ≡ (due_prefix p t q, after_due p t q)
unfolding send_due due_prefix after_due
send_due-prefix p t i [] h = refl
send_due-prefix p t i (m ∷ q) h = ground (arith, send_due-prefix p t (suc i) q (omega arith))

-- With a positive number of messages per cycle, whatever the number, a cycle sends exactly the longest
-- prefix of the queue whose messages are due, in the order of the queue, and keeps the rest.
pub check_message_queue-prefix :
    (p : CoachParam) (t : Moment) (c : OnlineCoach)
    → 0 < p.clang_mess_per_cycle
    → ((check_message_queue p t c).message_queue ≡ after_due p t c.message_queue)
      × ((check_message_queue p t c).sent ≡ reverse (due_prefix p t c.message_queue) ++ c.sent)
unfolding check_message_queue
check_message_queue-prefix p t c h =
    let e = send_due-prefix p t p.clang_mess_per_cycle c.message_queue h in
    (ap (λ r. r.1) e, ap (λ r. reverse r.0 ++ c.sent) e)

-- What the loop sends and what it keeps are the queue.
pub send_due-append :
    (p : CoachParam) (t : Moment) (i : ℕ) (q : List Queued)
    → (send_due p t i q).0 ++ (send_due p t i q).1 ≡ q
unfolding send_due
send_due-append p t i [] = refl
send_due-append p t i (m ∷ q) =
    if_elim (λ (r : List Queued × List Queued). r.0 ++ r.1 ≡ m ∷ q) (ltb 0 i && is_due p t m)
      (λ _. ap (λ r. m ∷ r) (send_due-append p t (suc i) q)) (λ _. refl)

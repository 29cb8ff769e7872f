-- ===== src/Audio/Order.antt =====
-- In which order the messages of a cycle are sent to a player (src/audio.cpp).
use rcssserver.Base.{
  ◌≡◌, refl, ap, sym, subst, ◌∙◌, ◌⊎◌, inl, inr, ℕ, zero, suc, true, Option, none, some, List, [],
  ◌∷◌, length, arith,
}
use mathlib.Core.List.{Perm}
use mathlib.Core.List.Perm
use rcssserver.Mode.{Side}
use rcssserver.Match.State.{Player, same_player}
use rcssserver.Audio.State.{Text, HearParam, Ear}
use rcssserver.Audio.Cycle.{
  Saying, count_from, get_msg, send_cached, drain, send_coaches, send_selfs, hear_own, forget_msgs,
  new_cycle,
}
use rcssserver.Audio.Getting.{Got, GotAs, Taken, FromFocus, as_read, as_read-same, get_msg-Taken}

-- The messages of the player in focus come first.
abbrev FocusFirst : Option Player → List Saying → Type 0
FocusFirst none ms = Unit
FocusFirst (some p) [] = Unit
FocusFirst (some p) (m ∷ ms) =
    ((same_player m.0 p ≡ true) × FocusFirst (some p) ms) ⊎ (count_from p (m ∷ ms) ≡ 0)

unfoldable pub send_all : HearParam → List Saying → Ear → Ear
unfolding send_cached
send_all hp [] e = e
send_all hp (m ∷ ms) e = send_all hp ms (send_cached hp m e)

-- What is served for the messages taken in this order: each one of the player in focus is read as erased,
-- but for the last.
abbrev pub served : HearParam → Option Player → List Saying → List Saying
served hp f [] = []
served hp f (m ∷ ms) = as_read hp f (m ∷ ms) m ∷ served hp f ms

-- The ear `r` is `e` after the messages `ms`, in an order with the focus first.
pub record Sent (hp : HearParam) (ms : List Saying) (e r : Ear) : Type 0 where
  pub order : List Saying
  pub perm : Perm order ms
  pub counts : (p : Player) → count_from p order ≡ count_from p ms
  pub first : FocusFirst e.focus order
  pub result : r ≡ send_all hp (served hp e.focus order) e

send_cached-focus : (hp : HearParam) (m : Saying) (e : Ear) → (send_cached hp m e).focus ≡ e.focus
unfolding send_cached
send_cached-focus hp m e = ground arith

next-FocusFirst :
    (f : Option Player) (m : Saying) (ms rest order : List Saying)
    → Got ms m rest
    → ((p : Player) → count_from p order ≡ count_from p rest)
    → FromFocus f ms m
    → FocusFirst f order
    → FocusFirst f (m ∷ order)
unfolding count_from
next-FocusFirst none m ms rest order g counts from first = tt
next-FocusFirst (some p) m ms rest order g counts (inl e) first =
    inr (omega (arith, counts p, g.counts p, e))
next-FocusFirst (some p) m ms rest order g counts (inr e) first = inl (e, first)

next_counts :
    (m : Saying) (ms rest order : List Saying)
    → Got ms m rest
    → ((p : Player) → count_from p order ≡ count_from p rest)
    → (p : Player) → count_from p (m ∷ order) ≡ count_from p ms
unfolding count_from
next_counts m ms rest order g counts p = omega (arith, counts p, g.counts p)

next_result :
    (hp : HearParam) (m : Saying) (ms rest : List Saying) (e r : Ear)
    → (g : GotAs hp e.focus ms m rest) → (s : Sent hp rest (send_cached hp m e) r)
    → ((p : Player) → count_from p (g.taken ∷ s.order) ≡ count_from p ms)
    → r ≡ send_all hp (served hp e.focus (g.taken ∷ s.order)) e
unfolding send_all
next_result hp m ms rest e r g s counts =
    s.result
    ∙ ap (λ f. send_all hp (served hp f s.order) (send_cached hp m e)) (send_cached-focus hp m e)
    ∙ ap (λ x. send_all hp (served hp e.focus s.order) (send_cached hp x e))
        (g.read ∙ sym (as_read-same hp e.focus g.taken (g.taken ∷ s.order) ms counts))

next-Sent :
    (hp : HearParam) (m : Saying) (ms rest : List Saying) (e r : Ear)
    → GotAs hp e.focus ms m rest
    → Sent hp rest (send_cached hp m e) r
    → Sent hp ms e r
next-Sent hp m ms rest e r g s =
    let counts = next_counts g.taken ms rest s.order g.got s.counts in
    record {
      order = g.taken ∷ s.order;
      perm = Perm.trans (Perm.cons g.taken s.perm) g.got.perm;
      counts = counts;
      first =
          next-FocusFirst e.focus g.taken ms rest s.order g.got s.counts g.from
            (subst (λ f. FocusFirst f s.order) (send_cached-focus hp m e) s.first);
      result = next_result hp m ms rest e r g s counts;
    }

none_first : (f : Option Player) → FocusFirst f []
none_first none = tt
none_first (some p) = tt

drain-Sent :
    (hp : HearParam) (draw : ℕ → ℕ) (n : ℕ) (ms : List Saying) (e : Ear)
    → length ms ≡ n
    → Sent hp ms e (drain hp draw n ms e)
unfolding drain send_all
drain-Sent hp draw zero [] e h = record {
  order = [];
  perm = Perm.refl [];
  counts = λ p. refl;
  first = none_first e.focus;
  result = refl;
}
drain-Sent hp draw zero (m ∷ ms) e h = absurd (omega (arith, h))
drain-Sent hp draw (suc n) ms e h =
    by_msg (get_msg hp e.focus (draw n) ms)
      (get_msg-Taken hp e.focus (draw n) ms (omega (arith, h)))
      (λ rest k l. drain-Sent hp draw n rest k l)
  where
    by_msg :
        (o : Option (Saying × List Saying))
        → Taken hp e.focus ms o
        → ((rest : List Saying) (k : Ear)
            → length rest ≡ n
            → Sent hp rest k (drain hp draw n rest k))
        → Sent hp ms e
            (elim o [ none ↦ e | some (m, rest) ↦ drain hp draw n rest (send_cached hp m e) ])
    by_msg none g ih = absurd g
    by_msg (some (m, rest)) g ih =
        next-Sent hp m ms rest e _ g (ih rest (send_cached hp m e) (omega (arith, g.got.fewer, h)))

coaches-focus : (ms : List (Side × Text)) (e : Ear) → (send_coaches ms e).focus ≡ e.focus
unfolding send_coaches
coaches-focus [] e = refl
coaches-focus (m ∷ ms) e = coaches-focus ms _ ∙ ground arith

selfs-focus : (ts : List Text) (e : Ear) → (send_selfs ts e).focus ≡ e.focus
unfolding send_selfs
selfs-focus [] e = refl
selfs-focus (t ∷ ts) e = selfs-focus ts _ ∙ ground arith

-- At the end of a cycle each message that was cached is taken once, in some order, and served.
pub record CycleSent (hp : HearParam) (e r : Ear) : Type 0 where
  pub order : List Saying
  pub perm : Perm order e.player_msgs
  pub first : FocusFirst e.focus order
  pub result : r ≡ forget_msgs (send_all hp (served hp e.focus order) (hear_own e))

-- At the end of a cycle, after the coaches' and the own messages, all cached messages of players are taken,
-- each of them once and those of the player in focus first, whatever the draws are, and nothing stays
-- cached. Each one is served as it is, but for those of the player in focus that are not the last of
-- them: these are served as their entry reads when it has been erased.
pub new_cycle-CycleSent :
    (hp : HearParam) (draw : ℕ → ℕ) (e : Ear) → CycleSent hp e (new_cycle hp draw e)
unfolding new_cycle
new_cycle-CycleSent hp draw e =
    let s = drain-Sent hp draw (length e.player_msgs) e.player_msgs (hear_own e) refl in
    let same =
      selfs-focus e.self_msgs (send_coaches e.coach_msgs e) ∙ coaches-focus e.coach_msgs e in
    record {
      order = s.order;
      perm = s.perm;
      first = subst (λ f. FocusFirst f s.order) same s.first;
      result =
          ap forget_msgs (s.result ∙ ap (λ f. send_all hp (served hp f s.order) (hear_own e)) same);
    }

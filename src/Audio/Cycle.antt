-- ===== src/Audio/Cycle.antt =====
-- The end of a cycle: the cached messages are sent, in an order that focus and draws decide, as far as the
-- capacity lasts (src/audio.cpp, `AudioSenderPlayerv8`), and the capacity grows (src/player.cpp).
use rcssserver.Base.{
  ℕ, zero, suc, ◌+◌, ◌-◌, ◌%◌, Bool, false, ◌==◌, ltb, leb, Option, none, some, List, [], ◌∷◌,
  length, if◌then◌else◌,
}
use rcssserver.Mode.{Side, left, neutral, right, same_side}
use rcssserver.Match.State.{Player, same_player}
use rcssserver.Audio.State.{
  Text, HearParam, Heard, coach_said, self_said, player_said, player_spoke, Ear,
}
use rcssserver.Audio.Ears.{hear}

abbrev pub Saying : Type 0
Saying = Player × Text

-- `irand( n )`, by the draw `d`.
abbrev pub irand : ℕ → ℕ → ℕ
irand d n = if leb n 1 then 0 else d % n

-- The messages that stay behind keep their place.
abbrev pub keep : Saying → Option (Saying × List Saying) → Option (Saying × List Saying)
keep m none = none
keep m (some (found, rest)) = some (found, m ∷ rest)

-- `Unfocused::getMsg`: the message at an index, and the others.
unfoldable pub take_at : ℕ → List Saying → Option (Saying × List Saying)
take_at i [] = none
take_at zero (m ∷ ms) = some (m, ms)
take_at (suc i) (m ∷ ms) = keep m (take_at i ms)

unfoldable pub count_from : Player → List Saying → ℕ
count_from p [] = 0
count_from p (m ∷ ms) = (if same_player m.0 p then 1 else 0) + count_from p ms

-- The message at an index of those from the player.
unfoldable pub take_from : Player → ℕ → List Saying → Option (Saying × List Saying)
take_from p i [] = none
take_from p zero (m ∷ ms) =
    let later = keep m (take_from p zero ms) in if same_player m.0 p then some (m, ms) else later
take_from p (suc i) (m ∷ ms) =
    let later = take_from p i ms in
    let same = take_from p (suc i) ms in keep m (if same_player m.0 p then later else same)

-- The entry is read when the message is no longer there.
abbrev pub read_erased : HearParam → Option (Saying × List Saying) → Option (Saying × List Saying)
read_erased hp none = none
read_erased hp (some (m, rest)) = some (hp.erased m, rest)

-- `M_state_p->getMsg`: with `Focused`, one from the player in focus if there is one. One of several is
-- erased first and then read.
unfoldable pub get_msg : HearParam → Option Player → ℕ → List Saying → Option (Saying × List Saying)
unfolding take_at count_from take_from
get_msg hp none d ms = take_at (irand d (length ms)) ms
get_msg hp (some p) d ms =
    let count = count_from p ms in
    if count == 0
    then take_at (irand d (length ms)) ms
    else if count == 1
    then take_from p 0 ms
    else read_erased hp (take_from p (irand d count) ms)

abbrev can_hear_full_from : HearParam → Player → Ear → Bool
can_hear_full_from hp p e =
    if same_side p.side e.listener.side
    then leb hp.hear_decay e.hear_capacity_from_teammate
    else leb hp.hear_decay e.hear_capacity_from_opponent

-- `decrementHearCapacity`. The capacity suffices where it is called.
abbrev decrement_hear_capacity : HearParam → Player → Ear → Ear
decrement_hear_capacity hp p e =
    if same_side p.side e.listener.side
    then record e { hear_capacity_from_teammate = e.hear_capacity_from_teammate - hp.hear_decay }
    else record e { hear_capacity_from_opponent = e.hear_capacity_from_opponent - hp.hear_decay }

abbrev is_complete_for : Side → Ear → Bool
is_complete_for left e = e.left_complete
is_complete_for neutral e = false
is_complete_for right e = e.right_complete

abbrev is_partial_for : Side → Ear → Bool
is_partial_for left e = e.left_partial
is_partial_for neutral e = false
is_partial_for right e = e.right_partial

-- `sendCachedNonSelfPlayerAudio`.
unfoldable pub send_cached : HearParam → Saying → Ear → Ear
send_cached hp m e =
    if can_hear_full_from hp m.0 e
    then (if is_complete_for m.0.side e
        then decrement_hear_capacity hp m.0 (hear (player_said m.0 m.1) e)
        else e)
    else if is_partial_for m.0.side e
    then hear (player_spoke m.0) e
    else e

-- The loop over `M_player_msgs`, with a draw for each message left.
unfoldable pub drain : HearParam → (ℕ → ℕ) → ℕ → List Saying → Ear → Ear
unfolding get_msg send_cached
drain hp draw zero ms e = e
drain hp draw (suc n) ms e = elim (get_msg hp e.focus (draw n) ms) [
  | none ↦ e
  | some (m, rest) ↦ drain hp draw n rest (send_cached hp m e)
]

-- `sendCachedCoachAudio` and `sendCachedSelfAudio`.
abbrev pub hear_enabled : Heard → Ear → Ear
hear_enabled h e = if e.listener.enabled then hear h e else e

unfoldable pub send_coaches : List (Side × Text) → Ear → Ear
send_coaches [] e = e
send_coaches (m ∷ ms) e = send_coaches ms (hear_enabled (coach_said m.0 m.1) e)

unfoldable pub send_selfs : List Text → Ear → Ear
send_selfs [] e = e
send_selfs (t ∷ ts) e = send_selfs ts (hear_enabled (self_said t) e)

-- The messages of the coaches and of the listener itself.
abbrev pub hear_own : Ear → Ear
hear_own e = send_selfs e.self_msgs (send_coaches e.coach_msgs e)

abbrev pub forget_msgs : Ear → Ear
forget_msgs e = record e { player_msgs = []; self_msgs = []; coach_msgs = [] }

-- `AudioSenderPlayerv8::newCycle`, with the draws of the cycle.
unfoldable pub new_cycle : HearParam → (ℕ → ℕ) → Ear → Ear
unfolding send_coaches send_selfs drain
new_cycle hp draw e = forget_msgs (drain hp draw (length e.player_msgs) e.player_msgs (hear_own e))

abbrev add_up_to : ℕ → ℕ → ℕ → ℕ
add_up_to max inc c = if ltb max (c + inc) then max else c + inc

-- The hearing of `Player::updateCapacity`, which is called for enabled players.
unfoldable pub update_capacity : HearParam → Ear → Ear
update_capacity hp e =
    if e.listener.enabled
    then record e {
      hear_capacity_from_teammate = add_up_to hp.hear_max hp.hear_inc e.hear_capacity_from_teammate;
      hear_capacity_from_opponent = add_up_to hp.hear_max hp.hear_inc e.hear_capacity_from_opponent;
    }
    else e

-- The hearing of `Player::recoverAll`.
unfoldable pub recover_hearing : HearParam → Ear → Ear
recover_hearing hp e = record e {
  hear_capacity_from_teammate = hp.hear_max;
  hear_capacity_from_opponent = hp.hear_max;
}

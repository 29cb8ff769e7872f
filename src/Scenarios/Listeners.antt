-- ===== src/Scenarios/Listeners.antt =====
-- A player that listens to others (src/audio.cpp).
use rcssserver.Base.{◌≡◌, refl, true, false, ◌≤◌, ◌+◌, ◌*◌, ltb, some, List, [], ◌∷◌}
use rcssserver.Mode.{left, right}
use rcssserver.Audio.State.{HearParam, Ear, new_ear, player_said, player_spoke}
use rcssserver.Audio.Ears.{insert_msg, ear, attentionto, opp, complete}
use rcssserver.Audio.Cycle.{new_cycle}
use rcssserver.Audio.Order.{CycleSent, new_cycle-CycleSent}
use rcssserver.Audio.Capacity.{
  EarEvent, said, focused, ear_set, cycle_ended, capacity_updated, recovered, listen, listen_all,
  full_from, updates, recoveries, heard-capacity,
}
use rcssserver.Scenarios.Matches.{striker}

-- One message of two needs the capacity of a cycle.
abbrev hearing : HearParam
hearing = record {
  hear_max = 1;
  hear_inc = 1;
  hear_decay = 1;
  say_msg_size = 10;
  before = λ p q. ltb p.unum q.unum;
  erased = λ m. (m.0, []);
}

abbrev listener : Ear
listener = new_ear hearing (striker left 5)

-- Two team mates speak, the one in focus second; the listener also hears who else speaks.
abbrev talk : List EarEvent
talk =
    ear_set true left false true
    ∷ focused (striker left 8)
    ∷ said true (striker left 7) (1 ∷ [])
    ∷ said true (striker left 8) (2 ∷ [])
    ∷ said false (striker left 9) (3 ∷ [])
    ∷ cycle_ended (λ n. 0)
    ∷ capacity_updated
    ∷ recovered
    ∷ []

heard_talk :
    (listen_all hearing talk listener).heard
    ≡ player_spoke (striker left 7) ∷ player_said (striker left 8) (2 ∷ []) ∷ []
unfolding listen_all listen insert_msg
heard_talk = refl

heard-capacity_example :
    (full_from true left (listen_all hearing talk listener).heard * 1
      ≤ (1 + recoveries talk) * 1 + updates talk * 1)
    × (full_from false left (listen_all hearing talk listener).heard * 1
        ≤ (1 + recoveries talk) * 1 + updates talk * 1)
heard-capacity_example = heard-capacity hearing (striker left 5) talk

abbrev waiting : Ear
waiting = record listener {
  focus = some (striker left 8);
  player_msgs = (striker left 7, 1 ∷ []) ∷ (striker left 8, 2 ∷ []) ∷ (striker left 8, 3 ∷ []) ∷ [];
}

new_cycle-CycleSent_example : CycleSent hearing waiting (new_cycle hearing (λ n. n) waiting)
new_cycle-CycleSent_example = new_cycle-CycleSent hearing (λ n. n) waiting

-- `(ear (off opp complete))`, and attention to the opponents' number 3.
deaf_to_opponents :
    ear false opp complete listener ≡ some (record listener { right_complete = false })
unfolding ear
deaf_to_opponents = refl

attention_to_opponent :
    attentionto (λ s. true) (striker left 3 ∷ striker right 3 ∷ []) true opp 3 listener
    ≡ record listener { focus = some (striker right 3); focus_count = 1 }
unfolding attentionto
attention_to_opponent = refl

-- ===== src/Audio/Capacity.antt =====
-- How many messages a player hears in full (src/audio.cpp, src/player.cpp).
use rcssserver.Base.{
  ◌≡◌, refl, sym, subst, ℕ, ◌+◌, ◌*◌, ◌≤◌, Bool, true, false, List, [], ◌∷◌, if◌then◌else◌, arith,
}
use rcssserver.Mode.{Side, same_side}
use rcssserver.Match.State.{Player}
use rcssserver.Audio.State.{
  Text, HearParam, Heard, referee_said, coach_said, self_said, player_said, player_spoke, Ear,
  new_ear,
}
use rcssserver.Audio.Ears.{
  send_player_audio, send_non_self_audio, send_coach_audio, send_referee_audio, set_ear, focus_on,
  focus_off,
}
use rcssserver.Audio.Cycle.{
  Saying, send_cached, send_coaches, send_selfs, hear_own, new_cycle, update_capacity,
  recover_hearing, hear_enabled,
}
use rcssserver.Audio.Order.{send_all, served, new_cycle-CycleSent}

-- What happens to a listener.
pub data EarEvent : Type 0 where
  said : Bool → Player → Text → EarEvent
  coach : Side → Text → EarEvent
  referee : Text → EarEvent
  ear_set : Bool → Side → Bool → Bool → EarEvent
  focused : Player → EarEvent
  unfocused : EarEvent
  -- `newCycle` with its draws, and `updateCapacity`
  cycle_ended : (ℕ → ℕ) → EarEvent
  capacity_updated : EarEvent
  -- `recoverAll`, at a kick-off, a new try at keepaway, a substitution and the trainer's `recover`
  recovered : EarEvent

unfoldable pub listen : HearParam → EarEvent → Ear → Ear
unfolding send_player_audio send_coach_audio send_referee_audio set_ear focus_on focus_off new_cycle
    update_capacity recover_hearing
listen hp (said near p t) e = send_player_audio hp near p t e
listen hp (coach s t) e = send_coach_audio s t e
listen hp (referee t) e = send_referee_audio t e
listen hp (ear_set on s complete partial) e = set_ear on s complete partial e
listen hp (focused p) e = focus_on p e
listen hp unfocused e = focus_off e
listen hp (cycle_ended draw) e = new_cycle hp draw e
listen hp capacity_updated e = update_capacity hp e
listen hp recovered e = recover_hearing hp e

unfoldable pub listen_all : HearParam → List EarEvent → Ear → Ear
unfolding listen
listen_all hp [] e = e
listen_all hp (v ∷ vs) e = listen_all hp vs (listen hp v e)

-- The messages heard in full from players of the side, or, with `false`, from other players.
abbrev pub full_from : Bool → Side → List Heard → ℕ
full_from mate s [] = 0
full_from mate s (player_said p t ∷ hs) =
    let more = full_from mate s hs in
    if same_side p.side s
    then (if mate then 1 + more else more)
    else (if mate then more else 1 + more)
full_from mate s (h ∷ hs) = full_from mate s hs

abbrev pub updates : List EarEvent → ℕ
updates [] = 0
updates (capacity_updated ∷ vs) = 1 + updates vs
updates (v ∷ vs) = updates vs

abbrev pub recoveries : List EarEvent → ℕ
recoveries [] = 0
recoveries (recovered ∷ vs) = 1 + recoveries vs
recoveries (v ∷ vs) = recoveries vs

-- What the messages cost, one by one.
abbrev cost : HearParam → Bool → Side → List Heard → ℕ
cost hp mate s [] = 0
cost hp mate s (player_said p t ∷ hs) =
    let more = cost hp mate s hs in
    if same_side p.side s
    then (if mate then hp.hear_decay + more else more)
    else (if mate then more else hp.hear_decay + more)
cost hp mate s (h ∷ hs) = cost hp mate s hs

-- What was heard in full has been paid out of the capacity at the start and an income.
record Paid (hp : HearParam) (s : Side) (income : ℕ) (e : Ear) : Type 0 where
  pub side : e.listener.side ≡ s
  pub mates : cost hp true s e.heard + e.hear_capacity_from_teammate ≤ hp.hear_max + income
  pub opponents : cost hp false s e.heard + e.hear_capacity_from_opponent ≤ hp.hear_max + income

send_cached-Paid :
    (hp : HearParam) (s : Side) (n : ℕ) (m : Saying) (e : Ear)
    → Paid hp s n e
    → Paid hp s n (send_cached hp m e)
unfolding send_cached
send_cached-Paid hp s n m e h = ground (arith, h)

send_all-Paid :
    (hp : HearParam) (s : Side) (n : ℕ) (ms : List Saying) (e : Ear)
    → Paid hp s n e
    → Paid hp s n (send_all hp ms e)
unfolding send_all
send_all-Paid hp s n [] e h = h
send_all-Paid hp s n (m ∷ ms) e h =
    send_all-Paid hp s n ms (send_cached hp m e) (send_cached-Paid hp s n m e h)

coaches-Paid :
    (hp : HearParam) (s : Side) (n : ℕ) (ms : List (Side × Text)) (e : Ear)
    → Paid hp s n e
    → Paid hp s n (send_coaches ms e)
unfolding send_coaches
coaches-Paid hp s n [] e h = h
coaches-Paid hp s n (m ∷ ms) e h =
    coaches-Paid hp s n ms (hear_enabled (coach_said m.0 m.1) e) (ground (arith, h))

selfs-Paid :
    (hp : HearParam) (s : Side) (n : ℕ) (ts : List Text) (e : Ear)
    → Paid hp s n e
    → Paid hp s n (send_selfs ts e)
unfolding send_selfs
selfs-Paid hp s n [] e h = h
selfs-Paid hp s n (t ∷ ts) e h =
    selfs-Paid hp s n ts (hear_enabled (self_said t) e) (ground (arith, h))

cycle-Paid :
    (hp : HearParam) (s : Side) (n : ℕ) (draw : ℕ → ℕ) (e : Ear)
    → Paid hp s n e
    → Paid hp s n (new_cycle hp draw e)
cycle-Paid hp s n draw e h =
    let c = new_cycle-CycleSent hp draw e in
    let own = selfs-Paid hp s n e.self_msgs _ (coaches-Paid hp s n e.coach_msgs e h) in
    let all = send_all-Paid hp s n (served hp e.focus c.order) (hear_own e) own in
    subst (Paid hp s n) (sym c.result)
      (record { side = all.side; mates = all.mates; opponents = all.opponents })

ear-Paid :
    (hp : HearParam) (s : Side) (n : ℕ) (on : Bool) (c : Side) (complete partial : Bool) (e : Ear)
    → Paid hp s n e
    → Paid hp s n (set_ear on c complete partial e)
unfolding set_ear
ear-Paid hp s n on c complete partial e h = ground (arith, h)

said-Paid :
    (hp : HearParam) (s : Side) (n : ℕ) (near : Bool) (p : Player) (t : Text) (e : Ear)
    → Paid hp s n e
    → Paid hp s n (send_player_audio hp near p t e)
unfolding send_player_audio send_non_self_audio
said-Paid hp s n near p t e h = ground (arith, h)

update-Paid :
    (hp : HearParam) (s : Side) (n : ℕ) (e : Ear)
    → Paid hp s n e
    → Paid hp s (hp.hear_inc + n) (update_capacity hp e)
unfolding update_capacity
update-Paid hp s n e h = ground (arith, h)

recover-Paid :
    (hp : HearParam) (s : Side) (n : ℕ) (e : Ear)
    → Paid hp s n e
    → Paid hp s (hp.hear_max + n) (recover_hearing hp e)
unfolding recover_hearing
recover-Paid hp s n e h = record {
  side = h.side;
  mates = omega (arith, h.mates);
  opponents = omega (arith, h.opponents);
}

-- The income of an event.
abbrev income : HearParam → EarEvent → ℕ
income hp capacity_updated = hp.hear_inc
income hp recovered = hp.hear_max
income hp v = 0

listen-Paid :
    (hp : HearParam) (s : Side) (n : ℕ) (v : EarEvent) (e : Ear)
    → Paid hp s n e
    → Paid hp s (income hp v + n) (listen hp v e)
unfolding listen send_coach_audio send_referee_audio focus_on focus_off
listen-Paid hp s n (said near p t) e h = ground (arith, said-Paid hp s n near p t e h)
listen-Paid hp s n (coach c t) e h = ground (arith, h)
listen-Paid hp s n (referee t) e h = ground (arith, h)
listen-Paid hp s n (ear_set on c complete partial) e h =
    ground (arith, ear-Paid hp s n on c complete partial e h)
listen-Paid hp s n (focused p) e h = ground (arith, h)
listen-Paid hp s n unfocused e h = ground (arith, h)
listen-Paid hp s n (cycle_ended draw) e h = ground (arith, cycle-Paid hp s n draw e h)
listen-Paid hp s n capacity_updated e h = update-Paid hp s n e h
listen-Paid hp s n recovered e h = recover-Paid hp s n e h

total : HearParam → List EarEvent → ℕ
total hp [] = 0
total hp (v ∷ vs) = income hp v + total hp vs

listen_all-Paid :
    (hp : HearParam) (s : Side) (n : ℕ) (vs : List EarEvent) (e : Ear)
    → Paid hp s n e
    → Paid hp s (total hp vs + n) (listen_all hp vs e)
unfolding listen_all total
listen_all-Paid hp s n [] e h = ground (arith, h)
listen_all-Paid hp s n (v ∷ vs) e h =
    let r = listen_all-Paid hp s (income hp v + n) vs (listen hp v e) (listen-Paid hp s n v e h) in
    record { side = r.side; mates = omega (arith, r.mates); opponents = omega (arith, r.opponents) }

once_more : (k d : ℕ) → (1 + k) * d ≡ d + k * d
once_more k d = omega arith

cost_lem :
    (hp : HearParam) (mate : Bool) (s : Side) (hs : List Heard)
    → cost hp mate s hs ≡ full_from mate s hs * hp.hear_decay
cost_lem hp mate s [] = omega arith
cost_lem hp mate s (referee_said t ∷ hs) = cost_lem hp mate s hs
cost_lem hp mate s (coach_said c t ∷ hs) = cost_lem hp mate s hs
cost_lem hp mate s (self_said t ∷ hs) = cost_lem hp mate s hs
cost_lem hp mate s (player_spoke p ∷ hs) = cost_lem hp mate s hs
cost_lem hp mate s (player_said p t ∷ hs) =
    ground (arith, cost_lem hp mate s hs, once_more (full_from mate s hs) hp.hear_decay)

total_lem :
    (hp : HearParam) (vs : List EarEvent)
    → total hp vs ≡ recoveries vs * hp.hear_max + updates vs * hp.hear_inc
unfolding total
total_lem hp [] = omega arith
total_lem hp (capacity_updated ∷ vs) =
    omega (arith, total_lem hp vs, once_more (updates vs) hp.hear_inc)
total_lem hp (recovered ∷ vs) =
    omega (arith, total_lem hp vs, once_more (recoveries vs) hp.hear_max)
total_lem hp (v ∷ vs) = omega (arith, total_lem hp vs)

-- Whatever is said, by whomever, with any draws and any commands `ear` and `attentionto`: what a player
-- has heard in full from the team mates, and what it has heard in full from the opponents, each at
-- `hear_decay` a message, is within `hear_max` for the start and for each recovery, and `hear_inc` for each
-- update of the capacity.
pub heard-capacity :
    (hp : HearParam) (p : Player) (vs : List EarEvent)
    → (full_from true p.side (listen_all hp vs (new_ear hp p)).heard * hp.hear_decay
        ≤ (1 + recoveries vs) * hp.hear_max + updates vs * hp.hear_inc)
      × (full_from false p.side (listen_all hp vs (new_ear hp p)).heard * hp.hear_decay
          ≤ (1 + recoveries vs) * hp.hear_max + updates vs * hp.hear_inc)
heard-capacity hp p vs =
    let start : Paid hp p.side 0 (new_ear hp p) = record {
      side = refl;
      mates = omega arith;
      opponents = omega arith;
    } in
    let paid = listen_all-Paid hp p.side 0 vs (new_ear hp p) start in
    let said = (listen_all hp vs (new_ear hp p)).heard in
    let all = once_more (recoveries vs) hp.hear_max in
    (
      omega (arith, paid.mates, cost_lem hp true p.side said, total_lem hp vs, all),
      omega (arith, paid.opponents, cost_lem hp false p.side said, total_lem hp vs, all),
    )

-- ===== src/Audio/Ears.antt =====
-- What a listener does with a message when it is said, and its commands `ear` and `attentionto`
-- (src/audio.cpp, `AudioSenderPlayerv8`; src/player.cpp).
use rcssserver.Base.{
  ℕ, ◌+◌, Bool, true, false, not, ◌&&◌, ◌==◌, leb, Option, none, some, List, [], ◌∷◌, ◌++◌, length,
  if◌then◌else◌,
}
use rcssserver.Mode.{Side, left, neutral, right, opposite, same_side}
use rcssserver.Match.State.{Player, same_player}
use rcssserver.Audio.State.{Text, HearParam, Heard, referee_said, Ear}

abbrev pub hear : Heard → Ear → Ear
hear h e = record e { heard = h ∷ e.heard }

-- `std::multimap::insert`: after the entries of the same key.
unfoldable pub insert_msg : HearParam → Player → Text → List (Player × Text) → List (Player × Text)
insert_msg hp p t [] = (p, t) ∷ []
insert_msg hp p t (m ∷ ms) = if hp.before p m.0 then (p, t) ∷ m ∷ ms else m ∷ insert_msg hp p t ms

-- The ear is off for all of the side.
abbrev is_deaf_to : Side → Ear → Bool
is_deaf_to left e = not e.left_complete && not e.left_partial
is_deaf_to neutral e = false
is_deaf_to right e = not e.right_complete && not e.right_partial

-- `sendNonSelfPlayerAudio`: `near` is the distance within `audioCutDist()`.
unfoldable pub send_non_self_audio : HearParam → Bool → Player → Text → Ear → Ear
unfolding insert_msg
send_non_self_audio hp near p t e =
    if not (e.listener.enabled && near)
    then e
    else if is_deaf_to p.side e
    then e
    else record e { player_msgs = insert_msg hp p t e.player_msgs }

-- `AudioSenderPlayer::sendPlayerAudio`, with `sendSelfAudio`.
unfoldable pub send_player_audio : HearParam → Bool → Player → Text → Ear → Ear
unfolding send_non_self_audio
send_player_audio hp near p t e =
    if same_player p e.listener
    then record e { self_msgs = e.self_msgs ++ t ∷ [] }
    else send_non_self_audio hp near p t e

-- `sendCoachAudio`, and `sendRefereeAudio`, which is not cached.
unfoldable pub send_coach_audio : Side → Text → Ear → Ear
send_coach_audio s t e = record e { coach_msgs = e.coach_msgs ++ (s, t) ∷ [] }

unfoldable pub send_referee_audio : Text → Ear → Ear
send_referee_audio t e = if e.listener.enabled then hear (referee_said t) e else e

abbrev set_left : Bool → Bool → Bool → Ear → Ear
set_left on complete partial e = record e {
  left_complete = if complete then on else e.left_complete;
  left_partial = if partial then on else e.left_partial;
}

abbrev set_right : Bool → Bool → Bool → Ear → Ear
set_right on complete partial e = record e {
  right_complete = if complete then on else e.right_complete;
  right_partial = if partial then on else e.right_partial;
}

-- `setEar`: NEUTRAL is both sides.
unfoldable pub set_ear : Bool → Side → Bool → Bool → Ear → Ear
set_ear on left complete partial e = set_left on complete partial e
set_ear on neutral complete partial e =
    set_right on complete partial (set_left on complete partial e)
set_ear on right complete partial e = set_right on complete partial e

unfoldable pub focus_on : Player → Ear → Ear
focus_on p e = record e { focus = some p; focus_count = e.focus_count + 1 }

unfoldable pub focus_off : Ear → Ear
focus_off e = record e { focus = none; focus_count = e.focus_count + 1 }

-- The team that a command names.
pub data TeamName : Type 0 where
  our opp left_side right_side : TeamName
  -- a name, and the side of the team that has it
  named : Option Side → TeamName
  no_name : TeamName

-- `PARTIAL`, `COMPLETE`, or none of them.
pub data EarMode : Type 0 where
  partial complete unknown_ear_mode : EarMode

abbrev side_named : Side → TeamName → Option Side
side_named s our = some s
side_named s opp = some (opposite s)
side_named s left_side = some left
side_named s right_side = some right
side_named s (named o) = o
side_named s no_name = some neutral

-- `Player::ear`. An unknown name is an error.
unfoldable pub ear : Bool → TeamName → EarMode → Ear → Option Ear
unfolding set_ear
ear on team mode e = elim (side_named e.listener.side team) [
  | none ↦ none
  | some s ↦ some (elim mode [
    | partial ↦ set_ear on s false true e
    | complete ↦ set_ear on s true false e
    | unknown_ear_mode ↦ set_ear on s true true e
  ])
]

-- `opp` is the right team but for a player of the left one.
abbrev team_named : Side → TeamName → Option Side
team_named left opp = some right
team_named _ opp = some left
team_named s no_name = none
team_named s team = side_named s team

-- The player of the team that `Player::attentionto` finds: `players` are those of the two teams.
abbrev find_attended : Side → ℕ → List Player → Option Player
find_attended s n [] = none
find_attended s n (p ∷ ps) =
    let rest = find_attended s n ps in if same_side p.side s && (p.unum == n) then some p else rest

abbrev focus_found : Option Player → Ear → Ear
focus_found none e = e
focus_found (some p) e = if same_player p e.listener then e else focus_on p e

-- `Player::attentionto`: `enabled s` says whether the team has a name.
unfoldable pub attentionto : (Side → Bool) → List Player → Bool → TeamName → ℕ → Ear → Ear
unfolding focus_on focus_off
attentionto enabled players on team n e =
    if not on then focus_off e else elim (team_named e.listener.side team) [
      | none ↦ e
      | some s ↦ if enabled s then focus_found (find_attended s n players) e else e
    ]

-- `Player::say` on the listener: a message that is too long is dropped.
abbrev is_short : HearParam → Text → Bool
is_short hp t = leb (length t) hp.say_msg_size

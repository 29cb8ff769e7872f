-- ===== src/Roster/Presence.antt =====
-- Players that are sent off, that leave and that come back: `disable`, `discard`, `setEnable` and the cards of
-- `Player` (src/player.cpp), and `Stadium::reconnectPlayer` (src/stadium.cpp).
use rcssserver.Base.{ℕ, ◌+◌, Bool, true, false, not, ◌==◌, leb, if◌then◌else◌, Option, none, some}
use rcssserver.Roster.State.{RosterPlayer, Roster, set_elem}
use rcssserver.Roster.Team.{enable_player}
use rcssserver.Roster.Change.{find_player}

-- `Player::disable`, but for the place of the player and the ball in its hands. The cards stay.
abbrev pub disable_player : RosterPlayer → RosterPlayer
disable_player pl = record pl {
  enabled = false;
  state = record pl.state {
    is_stand = false;
    is_goalie = false;
    is_discard = false;
    other_bits = 0;
  };
}

-- `Player::discard`.
unfoldable pub discard_player : RosterPlayer → RosterPlayer
discard_player pl =
    let gone = disable_player pl in
    if pl.state.is_stand
    then record gone { state = record gone.state { is_discard = not gone.state.is_discard } }
    else pl

-- `Player::redCard`.
unfoldable pub give_red_card : RosterPlayer → RosterPlayer
unfolding discard_player
give_red_card pl =
    let gone = discard_player pl in
    record gone {
      state = record gone.state { is_yellow_card = false; is_red_card = true };
      card_count = 2;
    }

-- `Player::yellowCard`.
unfoldable pub give_yellow_card : RosterPlayer → RosterPlayer
unfolding give_red_card
give_yellow_card pl = if pl.card_count == 1 then give_red_card pl else record pl {
  state = record pl.state { is_yellow_card = true };
  card_count = pl.card_count + 1;
}

-- `Stadium::reconnectPlayer` of the player; `connected` is that the socket opens, connects and has a
-- version with senders.
unfoldable pub reconnect_player : Bool → RosterPlayer → RosterPlayer
reconnect_player connected pl =
    if leb 2 pl.card_count then pl else if not connected then pl else enable_player pl

abbrev pub change_at : (RosterPlayer → RosterPlayer) → Option (ℕ × RosterPlayer) → Roster → Roster
change_at f none team = team
change_at f (some (i, pl)) team = record team { players = set_elem team.players i (f pl) }

-- What happens to the player with the number, if the team has one.
abbrev pub on_player : (RosterPlayer → RosterPlayer) → ℕ → Roster → Roster
on_player f unum team = change_at f (find_player unum team.players) team

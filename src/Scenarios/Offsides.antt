-- ===== src/Scenarios/Offsides.antt =====
-- Offside players, and what becomes of them (`OffsideRef` of src/referee.cpp, src/stadium.cpp).
use rcssserver.Base.{◌≡◌, refl, ℕ, true, false, some, List, [], ◌∷◌}
use rcssserver.Mode
use rcssserver.Mode.{left, right, PlayMode}
use rcssserver.Match.State.{Player, Match}
use rcssserver.Referees.Offside.{
  Placed, Field, set_offside_mark, candidates_of, last_two, offside_line, beyond_line,
}
use rcssserver.Referees.OffsideLaw.{offside_players, candidates_of_lem}
use rcssserver.Referees.OffsideCalls.{touches-blame}
use rcssserver.Referees.Fouls.{Seen, no_foul, check_foul}
use rcssserver.Stadium.Actions.{BallAction, stadium_kick_taken}
use rcssserver.Stadium.Offside.{kick-offside}
use rcssserver.Stadium.Cards.{
  Call, foul_call, yellow_call, red_call, serve_calls, fresh, Fair, calls-Fair,
}
use rcssserver.Scenarios.Matches.{params, full_time, rolling, striker}

abbrev at_place : Player → ℕ → Placed
at_place p x = record { player = p; x = x }

-- The centre line is at 500. The left side plays to larger places: its number 9 is level with the second last
-- opponent, its number 10 is beyond.
abbrev attack : Field
attack = record {
  centre = 500;
  ball_x = 700;
  placed =
      at_place (striker left 7) 690
      ∷ at_place (striker left 9) 800
      ∷ at_place (striker left 10) 850
      ∷ at_place (striker right 1) 990
      ∷ at_place (striker right 2) 800
      ∷ at_place (striker right 3) 650
      ∷ [];
}

offside_ten : candidates_of attack (striker left 7) ≡ striker left 10 ∷ []
unfolding candidates_of offside_line last_two beyond_line
offside_ten = refl

candidates_of_lem_example :
    candidates_of attack (striker left 7) ≡ offside_players attack (striker left 7) attack.placed
candidates_of_lem_example = candidates_of_lem attack (striker left 7)

-- The left number 7 has kicked in the cycle before.
abbrev passed : Match
passed = record full_time {
  offside = record {
    last_kick_time = some 39;
    last_kick_stoppage_time = some 0;
    last_kick_accel_r = 4;
    last_kicker_side = left;
    candidates = striker left 10 ∷ [];
    after_offside_time = 0;
  };
}

abbrev ten_kicks : BallAction
ten_kicks = record {
  player = striker left 10;
  dashes = 3;
  field = attack;
  view = rolling;
  coin = true;
}

kick-offside_example : (stadium_kick_taken params ten_kicks 2 passed).playmode ≡ Mode.off_side_left
kick-offside_example = kick-offside params ten_kicks 2 passed refl refl refl refl refl refl

-- The right number 5 is beyond the left defence when the ball touches the right number 4.
abbrev defence : Field
defence = record {
  centre = 500;
  ball_x = 300;
  placed =
      at_place (striker right 4) 310
      ∷ at_place (striker right 5) 120
      ∷ at_place (striker left 1) 20
      ∷ [];
}

-- The two deflections of the ball are by the right side, and the offside is that of the left side.
touches-blame_example :
    (set_offside_mark params defence
      (striker right 5)
      0
      (record (set_offside_mark params defence (striker right 4) 0 passed) { time = 41 })).playmode
    ≡ Mode.off_side_left
unfolding candidates_of offside_line last_two beyond_line
touches-blame_example =
    touches-blame params defence defence (striker right 4) (striker right 5) passed 41 refl refl
      refl refl refl refl refl

-- A tackle at a player that dashes for the ball is seen, and costs a yellow card.
abbrev runner : Seen
runner = record {
  player = striker right 4;
  kickable = true;
  dashed = true;
  in_the_way = true;
  detected = true;
  red_draw = true;
}

yellow_for_tackle :
    check_foul (striker left 7) false (runner ∷ []) no_foul
    ≡ record { charge = true; yellow = true; red = false }
unfolding check_foul
yellow_for_tackle = refl

red_for_foul :
    check_foul (striker left 7) true (runner ∷ []) no_foul
    ≡ record { charge = true; yellow = false; red = true }
unfolding check_foul
red_for_foul = refl

abbrev rough_play : List Call
rough_play = foul_call ∷ yellow_call ∷ foul_call ∷ yellow_call ∷ red_call ∷ []

sent_off : (serve_calls rough_play fresh).card_count ≡ 2
unfolding serve_calls
sent_off = refl

calls-Fair_example : Fair (serve_calls rough_play fresh)
calls-Fair_example = calls-Fair rough_play

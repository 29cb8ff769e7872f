-- ===== src/Referees/Possession.antt =====
-- The loop of `KeepawayRef::analyse` (src/referee.cpp) over the players that can kick.
use rcssserver.Base.{◌≡◌, refl, Bool, true, false, not, ◌&&◌, ◌||◌, List, [], ◌∷◌, arith}
use rcssserver.Mode.{Side, left, neutral, right, same_side}
use rcssserver.Referees.Training.{possession}

-- A player of the side can kick.
unfoldable pub can_kick : Side → List Side → Bool
can_kick s [] = false
can_kick s (t ∷ rest) = same_side t s || can_kick s rest

possession-from :
    (keeper : Bool) (kickers : List Side)
    → possession keeper kickers
      ≡ ((keeper || can_kick left kickers) && not (can_kick right kickers), can_kick right kickers)
unfolding possession can_kick
possession-from false [] = refl
possession-from true [] = refl
possession-from keeper (left ∷ rest) = ground (arith, possession-from true rest)
possession-from keeper (neutral ∷ rest) = ground (arith, possession-from keeper rest)
possession-from keeper (right ∷ rest) = ground arith

-- The loop over the players that can kick finds a keeper in possession when, and only when, a player
-- of the left side and none of the right side can kick, and finds a taker when, and only when, a
-- player of the right side can; where in the list the players stand does not matter.
pub possession_lem :
    (kickers : List Side)
    → possession false kickers
      ≡ (can_kick left kickers && not (can_kick right kickers), can_kick right kickers)
possession_lem kickers = possession-from false kickers

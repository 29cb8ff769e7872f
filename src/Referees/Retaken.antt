-- ===== src/Referees/Retaken.antt =====
-- Goal kicks that are taken again (src/referee.cpp, `FreeKickRef`).
use rcssserver.Base.{◌≡◌, refl, ℕ, true, false, ◌==◌}
use rcssserver.Mode
use rcssserver.Mode.{Side, left, neutral, right, PlayMode, opposite, same_side}
use rcssserver.Match.State.{ServerParam, Player, Match, same_player}
use rcssserver.Referees.Awards.{award_goal_kick}
use rcssserver.Referees.BackPass.{award-mode}
use rcssserver.Referees.Taking.{take, free_kick_kick_taken}
use rcssserver.Referees.DoubleKick.{Taken}

award_goal_kick-mode :
    (sp : ServerParam) (m : Match) → (award_goal_kick sp left m).playmode ≡ Mode.goal_kick_left
unfolding award_goal_kick
award_goal_kick-mode sp m = award-mode sp Mode.goal_kick_left left _ refl

-- A kick at a goal kick that counts as taken by another player of the left side.
again :
    (sp : ServerParam) (q r : Player) (e f : ℕ) (n : Match)
    → sp.proper_goal_kicks ≡ true
    → q.side ≡ left
    → r.side ≡ left
    → same_player r q ≡ false
    → n.playmode ≡ Mode.goal_kick_left
    → Taken q e n
    → free_kick_kick_taken sp r f n ≡ take r f (award_goal_kick sp left n)
unfolding free_kick_kick_taken
again sp q r e f n proper ql rl other mode t =
    let differ : (r.unum == q.unum) ≡ false = rw (rl, ql) at other in
    simp (mode, rl, t.taken, t.taker, differ, proper, ql)

fresh_goal_kick :
    (sp : ServerParam) (p : Player) (d : ℕ) (m : Match)
    → m.playmode ≡ Mode.goal_kick_left
    → m.free_kick.kick_taken ≡ false
    → p.side ≡ left
    → free_kick_kick_taken sp p d m ≡ take p d m
unfolding free_kick_kick_taken
fresh_goal_kick sp p d m mode fresh pl = rw (mode, pl, fresh) refl

-- With proper goal kicks, a player of the left side takes the goal kick of that side, and a second one of
-- the side kicks the ball while the mode is still the goal kick. The goal kick is awarded once more, but it
-- counts as taken by the second player: when another player of the left side than that one kicks next, with
-- no `FreeKickRef::analyse` between these kicks, it is judged as a second player at the ball, and the goal
-- kick is awarded again at its first kick.
pub retaken-again :
    (sp : ServerParam) (p q r : Player) (d e f : ℕ) (m : Match)
    → sp.proper_goal_kicks ≡ true
    → m.playmode ≡ Mode.goal_kick_left
    → m.free_kick.kick_taken ≡ false
    → p.side ≡ left
    → q.side ≡ left
    → r.side ≡ left
    → same_player q p ≡ false
    → same_player r q ≡ false
    → (let n = free_kick_kick_taken sp q e (free_kick_kick_taken sp p d m) in
        (n.playmode ≡ Mode.goal_kick_left)
        × (free_kick_kick_taken sp r f n ≡ take r f (award_goal_kick sp left n)))
retaken-again sp p q r d e f m proper mode fresh pl ql rl other next =
    let taken : (x : Player) (a : ℕ) (n : Match) → Taken x a (take x a n) =
      λ x a n. record { taken = refl; taker = refl; at_dashes = refl } in
    let first = fresh_goal_kick sp p d m mode fresh pl in
    let second = again sp p q d e (take p d m) proper pl ql other mode (taken p d m) in
    let repeated = award_goal_kick sp left (take p d m) in
    rw (first, second)
      (
        award_goal_kick-mode sp (take p d m),
        again sp q r e f (take q e repeated) proper ql rl next
            (award_goal_kick-mode sp (take p d m)) (taken q e repeated),
      )

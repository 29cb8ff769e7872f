-- ===== src/Referees/Over.antt =====
-- The referees of src/referee.cpp leave a finished match alone.
use rcssserver.Base.{◌≡◌, false, arith}
use rcssserver.Mode
use rcssserver.Mode.{PlayMode}
use rcssserver.Match.State.{ServerParam, Match}
use rcssserver.Referees.View.{View}
use rcssserver.Referees.Faults.{
  offside_analyse, illegal_defense_analyse, catch_analyse, foul_analyse,
}
use rcssserver.Referees.Kicks.{watch_free_kick, free_kick_analyse}
use rcssserver.Referees.Ball.{ball_stuck_analyse, touch_analyse}
use rcssserver.Referees.Training.{keepaway_analyse}

-- A finished match.
abbrev pub Over : Match → Type 0
Over m = m.playmode ≡ Mode.time_over

module _ (sp : ServerParam) (v : View) (m : Match) (h : Over m) where
  pub ball_stuck_analyse-Over : Over (ball_stuck_analyse sp v m)
  unfolding ball_stuck_analyse
  ball_stuck_analyse-Over = ground arith

  pub offside_analyse-Over : Over (offside_analyse sp m)
  unfolding offside_analyse
  offside_analyse-Over = ground arith

  pub free_kick_analyse-Over : Over (free_kick_analyse sp v m)
  unfolding free_kick_analyse watch_free_kick
  free_kick_analyse-Over = ground arith

  pub touch_analyse-Over : Over (touch_analyse sp v m)
  unfolding touch_analyse
  touch_analyse-Over = ground arith

  pub catch_analyse-Over : Over (catch_analyse sp v m)
  unfolding catch_analyse
  catch_analyse-Over = ground arith

  pub foul_analyse-Over : Over (foul_analyse sp v m)
  unfolding foul_analyse
  foul_analyse-Over = ground arith

  pub illegal_defense_analyse-Over : Over (illegal_defense_analyse sp v m)
  unfolding illegal_defense_analyse
  illegal_defense_analyse-Over = ground arith

  pub keepaway_analyse-Over : sp.keep_away_mode ≡ false → Over (keepaway_analyse sp v m)
  unfolding keepaway_analyse
  keepaway_analyse-Over k = ground arith

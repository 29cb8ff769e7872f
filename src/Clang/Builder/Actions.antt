-- ===== src/Clang/Builder/Actions.antt =====
-- The operations of `MsgBuilder` (rcss/clang/clangmsgbuilder.cpp) that end the reading of actions and directives.
use rcssserver.Base.{Bool, ℤ, List, [], ◌∷◌}
use rcssserver.Clang.Syntax.{
  Str, BallMoveToken, BallMove, no_moves, add_token, act_pos, act_home, act_mark_line_reg,
  act_offsides_line, act_pass_reg, act_dribble, act_clear, act_ball_to_reg, act_ball_to_player,
  act_mark, act_mark_line_player, act_pass_unum, act_tackle, act_het_type, act_named, act_shoot,
  act_hold, act_intercept, dir_comm, dir_named,
}
use rcssserver.Clang.Builder.Machine.{
  action, dir, as_action, as_reg, as_bmt, as_unum_set, M, ◌>>=◌, ◌>>◌, add, check_and_get,
  check_and_take, check_name,
}

-- `BallMove::addToken` of each token.
abbrev pub ball_move : List BallMoveToken → BallMove
ball_move [] = no_moves
ball_move (t ∷ ts) = add_token t (ball_move ts)

abbrev pub build_act_pos : M (Unit {0})
build_act_pos = do r ← check_and_get as_reg; add (action (act_pos r))

abbrev pub build_act_home : M (Unit {0})
build_act_home = do r ← check_and_get as_reg; add (action (act_home r))

abbrev pub build_act_mark_line_reg : M (Unit {0})
build_act_mark_line_reg = do r ← check_and_get as_reg; add (action (act_mark_line_reg r))

abbrev pub build_act_offside_line : M (Unit {0})
build_act_offside_line = do r ← check_and_get as_reg; add (action (act_offsides_line r))

abbrev pub build_act_pass_reg : M (Unit {0})
build_act_pass_reg = do r ← check_and_get as_reg; add (action (act_pass_reg r))

abbrev pub build_act_dribble : M (Unit {0})
build_act_dribble = do r ← check_and_get as_reg; add (action (act_dribble r))

abbrev pub build_act_clear : M (Unit {0})
build_act_clear = do r ← check_and_get as_reg; add (action (act_clear r))

abbrev pub build_act_ball_to_reg : M (Unit {0})
build_act_ball_to_reg = do
  l ← check_and_take as_bmt
  r ← check_and_get as_reg
  add (action (act_ball_to_reg r (ball_move l)))

abbrev pub build_act_ball_to_player : M (Unit {0})
build_act_ball_to_player = do us ← check_and_get as_unum_set; add (action (act_ball_to_player us))

abbrev pub build_act_mark : M (Unit {0})
build_act_mark = do us ← check_and_get as_unum_set; add (action (act_mark us))

abbrev pub build_act_mark_line_player : M (Unit {0})
build_act_mark_line_player = do
  us ← check_and_get as_unum_set
  add (action (act_mark_line_player us))

abbrev pub build_act_pass_unum : M (Unit {0})
build_act_pass_unum = do us ← check_and_get as_unum_set; add (action (act_pass_unum us))

abbrev pub build_act_tackle : M (Unit {0})
build_act_tackle = do us ← check_and_get as_unum_set; add (action (act_tackle us))

abbrev pub build_act_het_type : ℤ → M (Unit {0})
build_act_het_type type = add (action (act_het_type type))

abbrev pub build_act_named : Str → M (Unit {0})
build_act_named name = do check_name name; add (action (act_named name))

abbrev pub build_act_shoot : M (Unit {0})
build_act_shoot = add (action act_shoot)

abbrev pub build_act_hold : M (Unit {0})
build_act_hold = add (action act_hold)

abbrev pub build_act_intercept : M (Unit {0})
build_act_intercept = add (action act_intercept)

abbrev pub build_dir_comm : Bool → Bool → M (Unit {0})
build_dir_comm do_dont our_side = do
  l ← check_and_take as_action
  us ← check_and_get as_unum_set
  add (dir (dir_comm do_dont our_side us l))

abbrev pub build_dir_named : Str → M (Unit {0})
build_dir_named name = do check_name name; add (dir (dir_named name))

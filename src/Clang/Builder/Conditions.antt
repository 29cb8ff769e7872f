-- ===== src/Clang/Builder/Conditions.antt =====
-- The operations of `MsgBuilder` (rcss/clang/clangmsgbuilder.cpp) that end the reading of conditions.
use rcssserver.Base.{Bool, true, false, ℤ, [], ◌∷◌, ◌++◌}
use rcssserver.Clang.Syntax.{
  Str, UNum, CompOp, PlayMode, cond_bool, cond_player_pos, cond_ball_pos, cond_ball_owner,
  cond_play_mode, cond_and, cond_or, cond_not, cond_named, cond_time, cond_opp_goal, cond_our_goal,
  cond_goal_diff, cond_unum, conds,
}
use rcssserver.Clang.Builder.Machine.{
  cond, cond_list, as_cond, as_cond_list, as_reg, as_unum_set, M, ◌>>=◌, ◌>>◌, add, check_and_get,
  check_name,
}

abbrev pub build_cond_true : M (Unit {0})
build_cond_true = add (cond (cond_bool true))

abbrev pub build_cond_false : M (Unit {0})
build_cond_false = add (cond (cond_bool false))

abbrev pub build_cond_player_pos : Bool → ℤ → ℤ → M (Unit {0})
build_cond_player_pos our_side lo hi = do
  r ← check_and_get as_reg
  us ← check_and_get as_unum_set
  add (cond (cond_player_pos our_side us lo hi r))

abbrev pub build_cond_ball_pos : M (Unit {0})
build_cond_ball_pos = do r ← check_and_get as_reg; add (cond (cond_ball_pos r))

abbrev pub build_cond_ball_owner : Bool → M (Unit {0})
build_cond_ball_owner our_side = do
  us ← check_and_get as_unum_set
  add (cond (cond_ball_owner our_side us))

abbrev pub build_cond_play_mode : PlayMode → M (Unit {0})
build_cond_play_mode pm = add (cond (cond_play_mode pm))

abbrev pub build_cond_and : M (Unit {0})
build_cond_and = do l ← check_and_get as_cond_list; add (cond (cond_and (conds l)))

abbrev pub build_cond_or : M (Unit {0})
build_cond_or = do l ← check_and_get as_cond_list; add (cond (cond_or (conds l)))

abbrev pub build_cond_not : M (Unit {0})
build_cond_not = do c ← check_and_get as_cond; add (cond (cond_not c))

abbrev pub build_cond_named : Str → M (Unit {0})
build_cond_named name = do check_name name; add (cond (cond_named name))

abbrev pub build_cond_time : ℤ → CompOp → M (Unit {0})
build_cond_time k comp = add (cond (cond_time k comp))

abbrev pub build_cond_opp_goal : ℤ → CompOp → M (Unit {0})
build_cond_opp_goal k comp = add (cond (cond_opp_goal k comp))

abbrev pub build_cond_our_goal : ℤ → CompOp → M (Unit {0})
build_cond_our_goal k comp = add (cond (cond_our_goal k comp))

abbrev pub build_cond_goal_diff : ℤ → CompOp → M (Unit {0})
build_cond_goal_diff k comp = add (cond (cond_goal_diff k comp))

abbrev pub build_cond_unum : UNum → M (Unit {0})
build_cond_unum u = do us ← check_and_get as_unum_set; add (cond (cond_unum u us))

abbrev pub build_add_to_cond_list : M (Unit {0})
build_add_to_cond_list = do
  c ← check_and_get as_cond
  l ← check_and_get as_cond_list
  add (cond_list (l ++ (c ∷ [])))

abbrev pub build_create_cond_list : M (Unit {0})
build_create_cond_list = do c ← check_and_get as_cond; add (cond_list (c ∷ []))

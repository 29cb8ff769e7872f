-- ===== src/Clang/Builder/Regions.antt =====
-- The operations of `MsgBuilder` (rcss/clang/clangmsgbuilder.cpp) that end the reading of points, regions and numbers of players.
use rcssserver.Base.{Bool, reverse}
use rcssserver.Clang.Syntax.{
  Str, Double, UNum, ArithOp, BallMoveToken, point_simple, point_rel, point_ball, point_player,
  point_arith, reg_null, reg_quad, reg_arc, reg_union, reg_named, reg_point, reg_tri, reg_rec,
  regions,
}
use rcssserver.Clang.Builder.Machine.{
  reg, point, unum, bmt, unum_set, as_reg, as_point, as_unum, M, ◌>>=◌, ◌>>◌, add, check_and_get,
  check_and_take, check_name,
}

abbrev pub build_reg_null : M (Unit {0})
build_reg_null = add (reg reg_null)

abbrev pub build_reg_quad : M (Unit {0})
build_reg_quad = do
  p4 ← check_and_get as_point
  p3 ← check_and_get as_point
  p2 ← check_and_get as_point
  p1 ← check_and_get as_point
  add (reg (reg_quad p1 p2 p3 p4))

abbrev pub build_reg_arc : Double → Double → Double → Double → M (Unit {0})
build_reg_arc r1 r2 a1 a2 = do p ← check_and_get as_point; add (reg (reg_arc p r1 r2 a1 a2))

abbrev pub build_reg_union : M (Unit {0})
build_reg_union = do l ← check_and_take as_reg; add (reg (reg_union (regions l)))

abbrev pub build_reg_named : Str → M (Unit {0})
build_reg_named name = do check_name name; add (reg (reg_named name))

abbrev pub build_reg_point : M (Unit {0})
build_reg_point = do p ← check_and_get as_point; add (reg (reg_point p))

abbrev pub build_reg_tri : M (Unit {0})
build_reg_tri = do
  p3 ← check_and_get as_point
  p2 ← check_and_get as_point
  p1 ← check_and_get as_point
  add (reg (reg_tri p1 p2 p3))

abbrev pub build_reg_rec : M (Unit {0})
build_reg_rec = do
  p2 ← check_and_get as_point
  p1 ← check_and_get as_point
  add (reg (reg_rec p1 p2))

abbrev pub build_point_simple : Double → Double → M (Unit {0})
build_point_simple x y = add (point (point_simple x y))

abbrev pub build_point_rel : Double → Double → M (Unit {0})
build_point_rel x y = do p ← check_and_get as_point; add (point (point_rel x y p))

abbrev pub build_point_ball : M (Unit {0})
build_point_ball = add (point point_ball)

abbrev pub build_point_player : Bool → UNum → M (Unit {0})
build_point_player our_side u = add (point (point_player our_side u))

abbrev pub build_point_arith : ArithOp → M (Unit {0})
build_point_arith o = do
  second ← check_and_get as_point
  first ← check_and_get as_point
  add (point (point_arith first second o))

abbrev pub build_unum : UNum → M (Unit {0})
build_unum u = add (unum u)

abbrev pub build_unum_set : M (Unit {0})
build_unum_set = do l ← check_and_take as_unum; add (unum_set (reverse l))

abbrev pub build_ball_move_token : BallMoveToken → M (Unit {0})
build_ball_move_token t = add (bmt t)

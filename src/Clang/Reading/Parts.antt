-- ===== src/Clang/Reading/Parts.antt =====
-- The calls that reading a number of a player, a point, a region, an action or a directive makes
-- (rcss/clang/coach_lang_parser.ypp).
use rcssserver.Base.{ℕ, Bool, true, false, ltb, if◌then◌else◌, length, List, [], ◌∷◌, ◌++◌, reverse}
use rcssserver.Clang.Syntax
use rcssserver.Clang.Syntax.{
  Str, UNum, by_number, by_name, UNumSet, BallMove, BallMoveToken, Point, point_simple, point_rel,
  point_ball, point_player, point_arith, Region, reg_null, reg_quad, reg_arc, reg_union, reg_named,
  reg_point, reg_tri, reg_rec, Regions, no_regions, region, Action, act_pos, act_home,
  act_mark_line_reg, act_offsides_line, act_pass_reg, act_dribble, act_clear, act_ball_to_reg,
  act_ball_to_player, act_mark, act_mark_line_player, act_pass_unum, act_tackle, act_het_type,
  act_named, act_shoot, act_hold, act_intercept, Dir, dir_comm, dir_named,
}
use rcssserver.Clang.Builder.Machine.{M, ◌>>◌, pure, throw, parse_error, str_size, set_ver}
use rcssserver.Clang.Builder.Regions.{
  build_reg_null, build_reg_quad, build_reg_arc, build_reg_union, build_reg_named, build_reg_point,
  build_reg_tri, build_reg_rec, build_point_simple, build_point_rel, build_point_ball,
  build_point_player, build_point_arith, build_unum, build_unum_set, build_ball_move_token,
}
use rcssserver.Clang.Builder.Actions.{
  build_act_pos, build_act_home, build_act_mark_line_reg, build_act_offside_line,
  build_act_pass_reg, build_act_dribble, build_act_clear, build_act_ball_to_reg,
  build_act_ball_to_player, build_act_mark, build_act_mark_line_player, build_act_pass_unum,
  build_act_tackle, build_act_het_type, build_act_named, build_act_shoot, build_act_hold,
  build_act_intercept, build_dir_comm, build_dir_named,
}

-- The values of a list, one after the other.
abbrev pub read_all : {A : Type 0} → (A → M (Unit {0})) → List A → M (Unit {0})
read_all read [] = pure tt
read_all read (x ∷ xs) = read x >> read_all read xs

-- The test of the grammar on the length of a text, before it calls the builder.
abbrev pub check_size : ℕ → Str → M (Unit {0})
check_size max s = if ltb max (length s) then throw parse_error else pure tt

abbrev pub check_unum : UNum → M (Unit {0})
check_unum (by_number n) = pure tt
check_unum (by_name s) = check_size str_size s

-- The version that a name in the place of a number needs.
abbrev pub name_ver : UNum → M (Unit {0})
name_ver (by_number n) = pure tt
name_ver (by_name s) = set_ver 8 8

abbrev pub read_unum : UNum → M (Unit {0})
read_unum u = do check_unum u; build_unum u; name_ver u

-- The text of a set has its last entry first, since the builder keeps the entries in reverse.
abbrev pub read_unum_set : UNumSet → M (Unit {0})
read_unum_set us = do read_all read_unum (reverse us); build_unum_set

abbrev pub read_point : Point → M (Unit {0})
read_point (point_simple x y) = build_point_simple x y
read_point (point_rel x y p) = do read_point p; build_point_rel x y
read_point point_ball = build_point_ball
read_point (point_player our_side u) = do check_unum u; build_point_player our_side u; name_ver u
read_point (point_arith p q o) = do read_point p; read_point q; build_point_arith o; set_ver 8 8

unfoldable mutual
  pub read_region : Region → M (Unit {0})
  read_region reg_null = build_reg_null
  read_region (reg_quad p q r s) = do
    read_point p
    read_point q
    read_point r
    read_point s
    build_reg_quad
    set_ver 7 7
  read_region (reg_arc p r1 r2 a1 a2) = do read_point p; build_reg_arc r1 r2 a1 a2
  read_region (reg_union rs) = do read_regions rs; build_reg_union
  read_region (reg_named name) = do check_size str_size name; build_reg_named name
  read_region (reg_point p) = do read_point p; build_reg_point
  read_region (reg_tri p q r) = do
    read_point p
    read_point q
    read_point r
    build_reg_tri
    set_ver 8 8
  read_region (reg_rec p q) = do read_point p; read_point q; build_reg_rec; set_ver 8 8

  pub read_regions : Regions → M (Unit {0})
  read_regions no_regions = pure tt
  read_regions (region r rs) = read_region r >> read_regions rs

-- The tokens that a set of ball moves is written with.
abbrev pub move_tokens : BallMove → List BallMoveToken
move_tokens m =
    token m.has_pass Syntax.pass
    ++ (token m.has_dribble Syntax.dribble
        ++ (token m.has_clear Syntax.clear ++ token m.has_score Syntax.score))
  where
    token : Bool → BallMoveToken → List BallMoveToken
    token true t = t ∷ []
    token false t = []

abbrev pub read_action : Action → M (Unit {0})
read_action (act_pos r) = do read_region r; build_act_pos
read_action (act_home r) = do read_region r; build_act_home
read_action (act_mark_line_reg r) = do read_region r; build_act_mark_line_reg
read_action (act_offsides_line r) = do read_region r; build_act_offside_line
read_action (act_pass_reg r) = do read_region r; build_act_pass_reg; set_ver 8 8
read_action (act_dribble r) = do read_region r; build_act_dribble; set_ver 8 8
read_action (act_clear r) = do read_region r; build_act_clear; set_ver 8 8
read_action (act_ball_to_reg r m) = do
  read_region r
  read_all build_ball_move_token (move_tokens m)
  build_act_ball_to_reg
read_action (act_ball_to_player us) = do read_unum_set us; build_act_ball_to_player
read_action (act_mark us) = do read_unum_set us; build_act_mark
read_action (act_mark_line_player us) = do read_unum_set us; build_act_mark_line_player
read_action (act_pass_unum us) = do read_unum_set us; build_act_pass_unum; set_ver 8 8
read_action (act_tackle us) = do read_unum_set us; build_act_tackle; set_ver 8 8
read_action (act_het_type type) = build_act_het_type type
read_action (act_named name) = do check_size str_size name; build_act_named name
read_action act_shoot = do build_act_shoot; set_ver 8 8
read_action act_hold = do build_act_hold; set_ver 8 8
read_action act_intercept = do build_act_intercept; set_ver 8 8

abbrev pub read_dir : Dir → M (Unit {0})
read_dir (dir_comm do_dont our_side us l) = do
  read_unum_set us
  read_all read_action l
  build_dir_comm do_dont our_side
read_dir (dir_named name) = do check_size str_size name; build_dir_named name

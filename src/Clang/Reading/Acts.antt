-- ===== src/Clang/Reading/Acts.antt =====
-- What the reading of an action or a directive leaves on the stack.
use rcssserver.Base.{◌≡◌, refl, subst, arith, Bool, List, [], ◌∷◌}
use rcssserver.Clang.Syntax.{
  UNumSet, BallMove, BallMoveToken, Region, Action, act_pos, act_home, act_mark_line_reg,
  act_offsides_line, act_pass_reg, act_dribble, act_clear, act_ball_to_reg, act_ball_to_player,
  act_mark, act_mark_line_player, act_pass_unum, act_tackle, act_het_type, act_named, act_shoot,
  act_hold, act_intercept, Dir, dir_comm, dir_named,
}
use rcssserver.Clang.Builder.Machine.{
  Item, action, dir, reg, unum_set, bmt, as_reg, as_action, as_bmt, as_unum_set, ◌>>◌, ◌>>=◌, add,
  check_and_get,
}
use rcssserver.Clang.Builder.Regions.{build_ball_move_token}
use rcssserver.Clang.Builder.Actions.{
  ball_move, build_act_ball_to_reg, build_act_pass_reg, build_act_dribble, build_act_clear,
  build_act_pass_unum, build_act_tackle, build_act_shoot, build_act_hold, build_act_intercept,
  build_dir_comm,
}
use rcssserver.Clang.Reading.Parts.{read_all, move_tokens, read_action, read_dir}
use rcssserver.Clang.Reading.Fits.{impossible, All, NonEmpty, FitsAction, FitsDir}
use rcssserver.Clang.Reading.Yields.{
  Yields, yields, built, then, then_take, then_both, set_ver_8, pushed, Clear-cons, Tidy, Tidy-cons,
  read_all-Yields, All-Unit,
}
use rcssserver.Clang.Reading.Points.{read_unum_set-Yields, read_region-Yields}

ball_move-tokens : (m : BallMove) → ball_move (move_tokens m) ≡ m
ball_move-tokens m = ground arith

read_moves-Yields :
    (ts : List BallMoveToken) (is : List Item)
    → Yields (read_all build_ball_move_token ts) is (pushed bmt ts is)
read_moves-Yields ts is =
    read_all-Yields build_ball_move_token bmt (λ x. Unit) (λ x. Unit)
      (λ x is _ _. yields (λ k. refl)) (λ x is. tt) ts (All-Unit ts) is tt

build_act_ball_to_reg-Yields :
    (r : Region) (ts : List BallMoveToken) (is : List Item)
    → NonEmpty ts
    → Yields build_act_ball_to_reg
        (pushed bmt ts (reg r ∷ is))
        (action (act_ball_to_reg r (ball_move ts)) ∷ is)
build_act_ball_to_reg-Yields r [] is fits = impossible fits
build_act_ball_to_reg-Yields r (t ∷ ts) is fits =
    then_take as_bmt bmt (λ x. refl)
      (λ l. check_and_get as_reg >>= λ r. add (action (act_ball_to_reg r (ball_move l)))) t ts
      (Clear-cons as_bmt (reg r) is refl) (yields (λ k. refl))

read_ball_to_reg-Yields :
    (r : Region) (m : BallMove) (is : List Item)
    → NonEmpty (move_tokens m)
    → Yields
        (read_all build_ball_move_token (move_tokens m) >> build_act_ball_to_reg)
        (reg r ∷ is)
        (action (act_ball_to_reg r m) ∷ is)
read_ball_to_reg-Yields r m is fits = then (read_moves-Yields (move_tokens m) (reg r ∷ is)) (
    subst
      (λ m'.
        Yields build_act_ball_to_reg (pushed bmt (move_tokens m) (reg r ∷ is))
          (action (act_ball_to_reg r m') ∷ is))
      (ball_move-tokens m) (build_act_ball_to_reg-Yields r (move_tokens m) is fits))

pub read_action-Yields :
    (a : Action) (is : List Item)
    → FitsAction a
    → Tidy is
    → Yields (read_action a) is (action a ∷ is)
read_action-Yields (act_pos r) is fits tidy =
    then (read_region-Yields r is fits tidy.2) (yields (λ k. refl))
read_action-Yields (act_home r) is fits tidy =
    then (read_region-Yields r is fits tidy.2) (yields (λ k. refl))
read_action-Yields (act_mark_line_reg r) is fits tidy =
    then (read_region-Yields r is fits tidy.2) (yields (λ k. refl))
read_action-Yields (act_offsides_line r) is fits tidy =
    then (read_region-Yields r is fits tidy.2) (yields (λ k. refl))
read_action-Yields (act_pass_reg r) is fits tidy =
    then (read_region-Yields r is fits tidy.2)
      (then (built build_act_pass_reg (λ k. refl)) (set_ver_8 _))
read_action-Yields (act_dribble r) is fits tidy =
    then (read_region-Yields r is fits tidy.2)
      (then (built build_act_dribble (λ k. refl)) (set_ver_8 _))
read_action-Yields (act_clear r) is fits tidy =
    then (read_region-Yields r is fits tidy.2)
      (then (built build_act_clear (λ k. refl)) (set_ver_8 _))
read_action-Yields (act_ball_to_player us) is fits tidy =
    then (read_unum_set-Yields us is fits tidy.0) (yields (λ k. refl))
read_action-Yields (act_mark us) is fits tidy =
    then (read_unum_set-Yields us is fits tidy.0) (yields (λ k. refl))
read_action-Yields (act_mark_line_player us) is fits tidy =
    then (read_unum_set-Yields us is fits tidy.0) (yields (λ k. refl))
read_action-Yields (act_pass_unum us) is fits tidy =
    then (read_unum_set-Yields us is fits tidy.0)
      (then (built build_act_pass_unum (λ k. refl)) (set_ver_8 _))
read_action-Yields (act_tackle us) is fits tidy =
    then (read_unum_set-Yields us is fits tidy.0)
      (then (built build_act_tackle (λ k. refl)) (set_ver_8 _))
read_action-Yields (act_ball_to_reg r m) is fits tidy =
    then (read_region-Yields r is fits.0 tidy.2) (read_ball_to_reg-Yields r m is fits.1)
read_action-Yields (act_het_type type) is fits tidy = yields (λ k. refl)
read_action-Yields (act_named name) is fits tidy = then_both name fits (yields (λ k. refl))
read_action-Yields act_shoot is fits tidy = then (built build_act_shoot (λ k. refl)) (set_ver_8 _)
read_action-Yields act_hold is fits tidy = then (built build_act_hold (λ k. refl)) (set_ver_8 _)
read_action-Yields act_intercept is fits tidy =
    then (built build_act_intercept (λ k. refl)) (set_ver_8 _)

build_dir_comm-Yields :
    (do_dont our_side : Bool) (us : UNumSet) (l : List Action) (is : List Item)
    → NonEmpty l
    → Yields
        (build_dir_comm do_dont our_side)
        (pushed action l (unum_set us ∷ is))
        (dir (dir_comm do_dont our_side us l) ∷ is)
build_dir_comm-Yields do_dont our_side us [] is fits = impossible fits
build_dir_comm-Yields do_dont our_side us (a ∷ l) is fits =
    then_take as_action action (λ x. refl)
      (λ l. check_and_get as_unum_set >>= λ us. add (dir (dir_comm do_dont our_side us l))) a l
      (Clear-cons as_action (unum_set us) is refl) (yields (λ k. refl))

pub read_dir-Yields :
    (d : Dir) (is : List Item) → FitsDir d → Tidy is → Yields (read_dir d) is (dir d ∷ is)
read_dir-Yields (dir_comm do_dont our_side us l) is fits tidy =
    then (read_unum_set-Yields us is fits.0 tidy.0) (
      then
        (read_all-Yields read_action action FitsAction Tidy read_action-Yields
          (λ x is. Tidy-cons (action x) is refl refl refl) l fits.2 (unum_set us ∷ is)
          (Tidy-cons (unum_set us) is refl refl refl))
        (build_dir_comm-Yields do_dont our_side us l is fits.1))
read_dir-Yields (dir_named name) is fits tidy = then_both name fits (yields (λ k. refl))

pub read_dirs-Yields :
    (ds : List Dir) (is : List Item)
    → All FitsDir ds
    → Tidy is
    → Yields (read_all read_dir ds) is (pushed dir ds is)
read_dirs-Yields ds is fits tidy =
    read_all-Yields read_dir dir FitsDir Tidy read_dir-Yields
      (λ x is. Tidy-cons (dir x) is refl refl refl) ds fits is tidy

-- ===== src/Clang/Reading/Conds.antt =====
-- What the reading of a condition leaves on the stack.
use rcssserver.Base.{◌≡◌, refl, subst, ap, true, false, List, [], ◌∷◌, ◌++◌}
use mathlib.Core.List.{append_assoc, append-nil}
use rcssserver.Clang.Syntax.{
  UNum, by_number, by_name, Cond, cond_bool, cond_player_pos, cond_ball_pos, cond_ball_owner,
  cond_play_mode, cond_and, cond_or, cond_not, cond_named, cond_time, cond_opp_goal, cond_our_goal,
  cond_goal_diff, cond_unum, Conds, no_conds, cond, cond_list, conds,
}
use rcssserver.Clang.Builder.Machine
use rcssserver.Clang.Builder.Machine.{Item, unum_set, str_size, M, ◌>>◌, ◌>>=◌}
use rcssserver.Clang.Builder.Conditions.{
  build_cond_time, build_cond_opp_goal, build_cond_our_goal, build_cond_goal_diff, build_cond_unum,
  build_create_cond_list, build_add_to_cond_list, build_cond_and, build_cond_or,
}
use rcssserver.Clang.Reading.Parts.{check_unum}
use rcssserver.Clang.Reading.Rules.{read_cond, read_more_conds}
use rcssserver.Clang.Reading.Fits.{impossible, FitsVariable, FitsCond, FitsConds}
use rcssserver.Clang.Reading.Yields.{
  Yields, yields, built, then, then_size, then_both, set_ver_8, Tidy, Tidy-cons,
}
use rcssserver.Clang.Reading.Points.{read_unum_set-Yields, read_region-Yields}

conds-cond_list : (cs : Conds) → conds (cond_list cs) ≡ cs
conds-cond_list no_conds = refl
conds-cond_list (cond c cs) = ap (cond c) (conds-cond_list cs)

build_cond_and-Yields :
    (c : Cond) (cs : Conds) (is : List Item)
    → Yields build_cond_and
        (Machine.cond_list (c ∷ cond_list cs) ∷ is)
        (Machine.cond (cond_and (cond c cs)) ∷ is)
build_cond_and-Yields c cs is = yields (λ k. rw (conds-cond_list cs))

build_cond_or-Yields :
    (c : Cond) (cs : Conds) (is : List Item)
    → Yields build_cond_or
        (Machine.cond_list (c ∷ cond_list cs) ∷ is)
        (Machine.cond (cond_or (cond c cs)) ∷ is)
build_cond_or-Yields c cs is = yields (λ k. rw (conds-cond_list cs))

check_variable-Yields :
    (u : UNum) {m : M (Unit {0})} {is js : List Item}
    → FitsVariable u
    → Yields m is js
    → Yields (check_unum u >> m) is js
check_variable-Yields (by_number n) fits p = impossible fits
check_variable-Yields (by_name s) fits p = then_size str_size s fits p

mutual
  unfolding read_cond FitsCond

  read_cond-yields :
      (c : Cond) (is : List Item)
      → FitsCond c
      → Tidy is
      → Yields (read_cond c) is (Machine.cond c ∷ is)
  read_cond-yields (cond_bool true) is fits tidy = yields (λ k. refl)
  read_cond-yields (cond_bool false) is fits tidy = yields (λ k. refl)
  read_cond-yields (cond_player_pos our_side us lo hi r) is fits tidy =
      then (read_unum_set-Yields us is fits.0 tidy.0) (
        then (read_region-Yields r _ fits.1 (Tidy-cons (unum_set us) is refl refl refl).2)
          (yields (λ k. refl)))
  read_cond-yields (cond_ball_pos r) is fits tidy =
      then (read_region-Yields r is fits tidy.2) (yields (λ k. refl))
  read_cond-yields (cond_ball_owner our_side us) is fits tidy =
      then (read_unum_set-Yields us is fits tidy.0) (yields (λ k. refl))
  read_cond-yields (cond_play_mode pm) is fits tidy = yields (λ k. refl)
  read_cond-yields (cond_and no_conds) is fits tidy = impossible fits
  read_cond-yields (cond_and (cond c cs)) is fits tidy =
      then
        (then (read_cond-yields c is fits.0 tidy) (
          then (built build_create_cond_list (λ k. refl))
            (read_more_conds-yields cs (c ∷ []) is fits.1)))
        (build_cond_and-Yields c cs is)
  read_cond-yields (cond_or no_conds) is fits tidy = impossible fits
  read_cond-yields (cond_or (cond c cs)) is fits tidy =
      then
        (then (read_cond-yields c is fits.0 tidy) (
          then (built build_create_cond_list (λ k. refl))
            (read_more_conds-yields cs (c ∷ []) is fits.1)))
        (build_cond_or-Yields c cs is)
  read_cond-yields (cond_not c) is fits tidy =
      then (read_cond-yields c is fits tidy) (yields (λ k. refl))
  read_cond-yields (cond_named name) is fits tidy = then_both name fits (yields (λ k. refl))
  read_cond-yields (cond_time k comp) is fits tidy =
      then (built (build_cond_time k comp) (λ k. refl)) (set_ver_8 _)
  read_cond-yields (cond_opp_goal k comp) is fits tidy =
      then (built (build_cond_opp_goal k comp) (λ k. refl)) (set_ver_8 _)
  read_cond-yields (cond_our_goal k comp) is fits tidy =
      then (built (build_cond_our_goal k comp) (λ k. refl)) (set_ver_8 _)
  read_cond-yields (cond_goal_diff k comp) is fits tidy =
      then (built (build_cond_goal_diff k comp) (λ k. refl)) (set_ver_8 _)
  read_cond-yields (cond_unum u us) is fits tidy =
      then (read_unum_set-Yields us is fits.1 tidy.0) (
        check_variable-Yields u fits.0 (then (built (build_cond_unum u) (λ k. refl)) (set_ver_8 _)))

  read_more_conds-yields :
      (cs : Conds) (l : List Cond) (is : List Item)
      → FitsConds cs
      → Yields
          (read_more_conds cs)
          (Machine.cond_list l ∷ is)
          (Machine.cond_list (l ++ cond_list cs) ∷ is)
  read_more_conds-yields no_conds l is fits = yields (λ k. rw (append-nil l))
  read_more_conds-yields (cond c cs) l is fits =
      then (read_cond-yields c _ fits.0 (Tidy-cons (Machine.cond_list l) is refl refl refl)) (
        then (built build_add_to_cond_list (λ k. refl)) (
          subst
            (λ l'.
              Yields (read_more_conds cs) (Machine.cond_list (l ++ (c ∷ [])) ∷ is)
                (Machine.cond_list l' ∷ is))
            (append_assoc l (c ∷ []) (cond_list cs))
            (read_more_conds-yields cs (l ++ (c ∷ [])) is fits.1)))

pub read_cond-Yields :
    (c : Cond) (is : List Item)
    → FitsCond c
    → Tidy is
    → Yields (read_cond c) is (Machine.cond c ∷ is)
read_cond-Yields c is fits tidy = read_cond-yields c is fits tidy

-- ===== src/Scenarios/Messages.antt =====
-- Messages of the coach language: tests of the builder, and the theorems at concrete texts.
use rcssserver.Base.{some, ◌≡◌, refl, true, false, List, [], ◌∷◌, pos}
use rcssserver.Clang.Syntax
use rcssserver.Clang.Syntax.{
  Str, Body, rule_msg, define_msg, Point, point_simple, point_rel, point_ball, point_player,
  point_arith, plus, Region, reg_point, reg_tri, reg_union, reg_named, Regions, no_regions, region,
  UNumSet, by_number, by_name, def_reg, def_dir, def_cond, Def, dir_comm, act_pos, act_ball_to_reg,
  cond_and, cond_bool, cond_player_pos, Conds, no_conds,
}
use rcssserver.Clang.Builder.Machine.{
  ok, err, no_items, wrong_item, parse_error, reg, unum_set, new_builder, take_items, set_versions,
  check_and_take, ◌>>◌,
}
use rcssserver.Clang.Builder.Regions.{build_unum_set, build_reg_point}
use rcssserver.Clang.Builder.Messages.{build_info_msg}
use rcssserver.Clang.Reading.Parts.{read_all, read_unum, read_region}
use rcssserver.Clang.Reading.Rules.{read_message}
use rcssserver.Clang.Reading.Fits.{FitsMessage, FitsRegion, FitsCond}
use rcssserver.Clang.Reading.Yields.{Range, unset, only_8, versions, at}
use rcssserver.Clang.Reading.Points.{append_members}
use rcssserver.Clang.Reading.Message.{read_message-holds}
use rcssserver.Clang.Reading.Faults.{
  read_message-long_name, build_unum_set-reverse, read_region-nested_union,
}

abbrev at_ball : Point
at_ball = point_arith (point_rel 1 2 point_ball) (point_player true (by_name (97 ∷ []))) plus

abbrev two_regions : Region
two_regions =
    reg_union
      (region (reg_tri point_ball at_ball point_ball) (region (reg_point at_ball) no_regions))

two_regions-FitsRegion : FitsRegion two_regions
unfolding FitsRegion
two_regions-FitsRegion = ((tt, (tt, refl), tt), ((tt, refl), refl, tt))

-- A definition of a region, a directive and a condition.
abbrev definitions : List Def
definitions =
    def_reg (97 ∷ []) two_regions
    ∷ def_dir (98 ∷ []) (
        dir_comm true true (by_number (pos 1) ∷ by_number (pos 2) ∷ []) (
          act_pos (reg_named (97 ∷ []))
          ∷ act_ball_to_reg two_regions
              record { has_pass = true; has_dribble = false; has_clear = true; has_score = false }
          ∷ []))
    ∷ def_cond (99 ∷ []) (
        cond_and (
          Syntax.cond (cond_bool true) (
            Syntax.cond (cond_player_pos true (by_number (pos 3) ∷ []) (pos 1) (pos 2) two_regions)
              no_conds)))
    ∷ []

read_message-holds_example :
    (k : Range) × (read_message (define_msg definitions) new_builder
      ≡ ok (
        tt,
        record {
          items = [];
          ver = versions k;
          msg = some (record { body = define_msg definitions; ver = versions k });
        },
      ))
unfolding FitsMessage FitsRegion FitsCond
read_message-holds_example = read_message-holds (define_msg definitions) (
  tt,
  (
    (refl, two_regions-FitsRegion),
    (
      (refl, ((tt, (tt, (tt, tt))), tt, (refl, ((two_regions-FitsRegion, tt), tt)))),
      ((refl, (tt, (((tt, (tt, tt)), two_regions-FitsRegion), tt))), tt),
    ),
  ),
)

abbrev nine_bytes : Str
nine_bytes = 1 ∷ 2 ∷ 3 ∷ 4 ∷ 5 ∷ 6 ∷ 7 ∷ 8 ∷ 9 ∷ []

abbrev long_name : Def
long_name = def_reg nine_bytes two_regions

read_message-long_name_example :
    read_message
      (define_msg (def_reg (97 ∷ []) (reg_point at_ball) ∷ long_name ∷ definitions))
      new_builder
    ≡ err parse_error
unfolding FitsRegion
read_message-long_name_example =
    read_message-long_name (def_reg (97 ∷ []) (reg_point at_ball) ∷ []) long_name definitions
      ((refl, (tt, refl)), tt) two_regions-FitsRegion refl

build_unum_set-reverse_example :
    (k : Range) × ((read_all read_unum (by_number (pos 1) ∷ by_name (97 ∷ []) ∷ [])
          >> build_unum_set)
        (at [] unset)
      ≡ ok (tt, at (unum_set (by_name (97 ∷ []) ∷ by_number (pos 1) ∷ []) ∷ []) k))
build_unum_set-reverse_example =
    build_unum_set-reverse (by_number (pos 1)) (by_name (97 ∷ []) ∷ []) (tt, (refl, tt)) unset

-- A name of nine bytes in the place of a number does not parse.
long_number : read_unum (by_name nine_bytes) new_builder ≡ err parse_error
long_number = refl

-- The union of a region, of another, of the union of a third, and of a fourth.
abbrev one_region : Region
one_region = reg_point point_ball

read_region-nested_union_example :
    (k : Range) × (read_region
        (reg_union (
          region one_region (
            region one_region (
              region
                (reg_union (region (reg_point at_ball) no_regions))
                (region one_region no_regions)))))
        (at [] unset)
      ≡ ok (
        tt,
        at
            (reg (
                reg_union (
                  region
                    (reg_union (
                      region one_region
                        (region one_region (region (reg_point at_ball) no_regions))))
                    (region one_region no_regions)))
              ∷ [])
            k,
      ))
unfolding FitsRegion append_members
read_region-nested_union_example =
    read_region-nested_union one_region (reg_point at_ball) (region one_region no_regions)
      no_regions (region one_region no_regions) tt (tt, refl, tt) (tt, refl) refl tt (tt, refl, tt)
      unset

-- An operation wants an item of its type.
refused :
    (build_info_msg new_builder ≡ err no_items)
    × (build_reg_point (at (reg two_regions ∷ []) unset) ≡ err wrong_item)
unfolding check_and_take
refused = (refl, refl)

-- A union of a point that is moved is for version 8 only.
versions_8 : read_region two_regions (at [] unset) ≡ ok (tt, at (reg two_regions ∷ []) only_8)
unfolding read_region take_items check_and_take set_versions
versions_8 = refl

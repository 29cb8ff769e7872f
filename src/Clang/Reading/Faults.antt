-- ===== src/Clang/Reading/Faults.antt =====
-- Texts that the builder refuses, and texts that it reads as another value.
use rcssserver.Base.{◌≡◌, refl, subst, true, false, ltb, length, reverse, List, [], ◌∷◌, ◌++◌}
use rcssserver.Clang.Syntax.{
  Str, UNum, UNumSet, Region, reg_union, Regions, region, region_list, Def, def_cond, def_dir,
  def_reg, def_act, def_rule, define_msg,
}
use rcssserver.Clang.Builder.Machine.{
  ok, err, parse_error, str_size, Item, def, unum_set, reg, new_builder, M, ◌>>◌, ◌>>=◌,
}
use rcssserver.Clang.Builder.Regions.{build_unum_set, build_reg_union}
use rcssserver.Clang.Reading.Parts.{check_size, read_all, read_unum, read_region}
use rcssserver.Clang.Reading.Rules.{read_def, read_message}
use rcssserver.Clang.Reading.Fits.{
  All, FitsUNum, FitsDef, FitsDefined, def_name, is_union, FitsRegion, FitsMembers,
}
use rcssserver.Clang.Reading.Yields.{
  Range, unset, at, pushed, Yields, then, Tidy, Tidy-cons, Tidy-nil,
}
use rcssserver.Clang.Reading.Acts.{read_action-Yields, read_dir-Yields}
use rcssserver.Clang.Reading.Points.{
  read_region-Yields, build_reg_union-Yields, read_members-Yields, read_all-unums,
  build_unum_set-Yields, append_members, append_members-Yields, append_members-pushed,
}
use rcssserver.Clang.Reading.Conds.{read_cond-Yields}
use rcssserver.Clang.Reading.Nested.{read_rule-Yields}
use rcssserver.Clang.Reading.Whole.{read_def-Yields}

-- `m` raises the error on the stack, whatever the versions.
record Fails (m : M (Unit {0})) (is : List Item) : Type 0 where
  raises : (k : Range) → m (at is k) ≡ err parse_error

then-Fails :
    {m m' : M (Unit {0})} {is js : List Item} → Yields m is js → Fails m' js → Fails (m >> m') is
then-Fails p q = record { raises = λ k. rw ((p.lands k).1, ◌>>◌, ◌>>=◌) (q.raises (p.lands k).0) }

Fails-then :
    {m : M (Unit {0})} (m' : M (Unit {0})) {is : List Item} → Fails m is → Fails (m >> m') is
Fails-then m' p = record { raises = λ k. rw (p.raises k, ◌>>◌, ◌>>=◌) }

long-Fails :
    (name : Str) (m : M (Unit {0})) {is : List Item}
    → ltb str_size (length name) ≡ true
    → Fails (check_size str_size name >> m) is
long-Fails name m long = record { raises = λ k. rw (long, ◌>>◌, ◌>>=◌) refl }

read_def-Fails :
    (d : Def) (is : List Item)
    → FitsDefined d
    → ltb str_size (length (def_name d)) ≡ true
    → Tidy is
    → Fails (read_def d) is
read_def-Fails (def_cond name c) is fits long tidy =
    then-Fails (read_cond-Yields c is fits tidy) (long-Fails _ _ long)
read_def-Fails (def_dir name d) is fits long tidy =
    then-Fails (read_dir-Yields d is fits tidy) (long-Fails _ _ long)
read_def-Fails (def_reg name r) is fits long tidy =
    then-Fails (read_region-Yields r is fits tidy.2) (long-Fails _ _ long)
read_def-Fails (def_act name a) is fits long tidy =
    then-Fails (read_action-Yields a is fits tidy) (long-Fails _ _ long)
read_def-Fails (def_rule name r true) is fits long tidy =
    then-Fails (read_rule-Yields r is fits tidy) (long-Fails _ _ long)
read_def-Fails (def_rule name r false) is fits long tidy =
    then-Fails (read_rule-Yields r is fits tidy) (long-Fails _ _ long)

read_defs-Fails :
    (ds : List Def) (d : Def) (rest : List Def) (is : List Item)
    → All FitsDef ds
    → FitsDefined d
    → ltb str_size (length (def_name d)) ≡ true
    → Tidy is
    → Fails (read_all read_def (ds ++ (d ∷ rest))) is
read_defs-Fails [] d rest is fits fits' long tidy =
    Fails-then (read_all read_def rest) (read_def-Fails d is fits' long tidy)
read_defs-Fails (x ∷ ds) d rest is fits fits' long tidy =
    then-Fails (read_def-Yields x is fits.0 tidy) (
      read_defs-Fails ds d rest (def x ∷ is) fits.1 fits' long
        (Tidy-cons (def x) is refl refl refl))

-- A text of definitions that fit, then one that fits but for its name of more than eight bytes, and
-- then any others, does not parse: the grammar refuses the name, and no message is built.
pub read_message-long_name :
    (ds : List Def) (d : Def) (rest : List Def)
    → All FitsDef ds
    → FitsDefined d
    → ltb str_size (length (def_name d)) ≡ true
    → read_message (define_msg (ds ++ (d ∷ rest))) new_builder ≡ err parse_error
read_message-long_name ds d rest fits fits' long =
    (Fails-then _ (read_defs-Fails ds d rest [] fits fits' long Tidy-nil)).raises unset

-- A set of numbers, and of names of at most eight bytes, whose text is not empty, is stored in the reverse
-- of the order of the text, where the reading starts on the empty stack.
pub build_unum_set-reverse :
    (u : UNum) (us : UNumSet)
    → All FitsUNum (u ∷ us)
    → (k : Range)
    → (k' : Range) × ((read_all read_unum (u ∷ us) >> build_unum_set) (at [] k)
        ≡ ok (tt, at (unum_set (reverse (u ∷ us)) ∷ []) k'))
build_unum_set-reverse u us fits k =
    (then (read_all-unums (u ∷ us) [] fits) (build_unum_set-Yields u us Tidy-nil.0)).lands k

-- In a union a member that is a union of its own, and is not the first, takes the members before it. The text
-- of a union with the members `r` and `rs`, then the union of `q` and `qs`, then `ts`, where of all these
-- members only `r` may be a union, is read on the empty stack as a union with the union of `r`, `rs`, `q`
-- and `qs` as its first member and `ts` after it.
pub read_region-nested_union :
    (r q : Region) (rs qs ts : Regions)
    → FitsRegion r
    → FitsMembers rs
    → FitsRegion q
    → is_union q ≡ false
    → FitsMembers qs
    → FitsMembers ts
    → (k : Range)
    → (k' : Range) × (read_region
          (reg_union (region r (append_members rs (region (reg_union (region q qs)) ts))))
          (at [] k)
        ≡ ok (
          tt,
          at
              (reg (reg_union (region (reg_union (region r (append_members rs (region q qs)))) ts))
                ∷ [])
              k',
        ))
unfolding read_region FitsRegion
read_region-nested_union r q rs qs ts first before fits plain members after k =
    let taken = append_members rs (region q qs) in
    let inner : Yields (read_region (reg_union (region q qs)))
        (pushed reg (region_list rs) (reg r ∷ [])) (reg (reg_union (region r taken)) ∷ []) =
      then (read_members-Yields (region q qs) _ (fits, plain, members)) (
        subst (λ js. Yields build_reg_union js (reg (reg_union (region r taken)) ∷ []))
          (append_members-pushed rs (region q qs) (reg r ∷ []))
          (build_reg_union-Yields r taken Tidy-nil.2)) in
    (then
        (then (read_region-Yields r [] first Tidy-nil.2) (
          append_members-Yields rs (region (reg_union (region q qs)) ts) (reg r ∷ []) _ before
            (then inner (read_members-Yields ts _ after))))
        (build_reg_union-Yields (reg_union (region r taken)) ts Tidy-nil.2)).lands
      k

-- ===== src/Clang/Reading/Points.antt =====
-- What the reading of a point, a set of numbers or a region leaves on the stack.
use rcssserver.Base.{◌≡◌, refl, sym, subst, ap, ◌∙◌, true, false, List, [], ◌∷◌, reverse}
use mathlib.Core.List.{reverse-reverse}
use rcssserver.Clang.Syntax.{
  UNum, by_number, by_name, UNumSet, Point, point_simple, point_rel, point_ball, point_player,
  point_arith, Region, reg_null, reg_quad, reg_arc, reg_union, reg_named, reg_point, reg_tri,
  reg_rec, Regions, no_regions, region, regions, region_list,
}
use rcssserver.Clang.Builder.Machine.{
  Item, reg, point, unum, unum_set, as_reg, as_unum, M, str_size, ◌>>◌, add,
}
use rcssserver.Clang.Builder.Regions.{
  build_unum, build_unum_set, build_point_player, build_point_arith, build_reg_quad, build_reg_tri,
  build_reg_rec, build_reg_union,
}
use rcssserver.Clang.Reading.Parts.{
  read_all, check_unum, name_ver, read_unum, read_unum_set, read_point, read_region, read_regions,
}
use rcssserver.Clang.Reading.Fits.{
  impossible, All, NonEmpty, FitsUNum, FitsSet, FitsPoint, is_union, FitsRegion, FitsMembers,
}
use rcssserver.Clang.Reading.Yields.{
  Yields, yields, built, then, then_take, then_size, then_both, set_ver_7, set_ver_8, pushed, Clear,
  read_all-Yields,
}

name_ver-Yields : (u : UNum) (is : List Item) → Yields (name_ver u) is is
name_ver-Yields (by_number n) is = yields (λ k. refl)
name_ver-Yields (by_name s) is = set_ver_8 is

check_unum-Yields :
    (u : UNum) {m : M (Unit {0})} {is js : List Item}
    → FitsUNum u
    → Yields m is js
    → Yields (check_unum u >> m) is js
check_unum-Yields (by_number n) fits p = then (built (check_unum (by_number n)) (λ k. refl)) p
check_unum-Yields (by_name s) fits p = then_size str_size s fits p

read_point-Yields :
    (p : Point) (is : List Item) → FitsPoint p → Yields (read_point p) is (point p ∷ is)
read_point-Yields (point_simple x y) is fits = yields (λ k. refl)
read_point-Yields (point_rel x y p) is fits =
    then (read_point-Yields p is fits) (yields (λ k. refl))
read_point-Yields point_ball is fits = yields (λ k. refl)
read_point-Yields (point_player our_side u) is fits =
    check_unum-Yields u fits
      (then (built (build_point_player our_side u) (λ k. refl)) (name_ver-Yields u _))
read_point-Yields (point_arith p q o) is fits = then (read_point-Yields p is fits.0) (
    then (read_point-Yields q _ fits.1)
      (then (built (build_point_arith o) (λ k. refl)) (set_ver_8 _)))

read_unum-Yields : (u : UNum) (is : List Item) → FitsUNum u → Yields (read_unum u) is (unum u ∷ is)
read_unum-Yields u is fits =
    check_unum-Yields u fits (then (built (build_unum u) (λ k. refl)) (name_ver-Yields u _))

pub read_all-unums :
    (us : UNumSet) (is : List Item)
    → All FitsUNum us
    → Yields (read_all read_unum us) is (pushed unum us is)
read_all-unums us is fits =
    read_all-Yields read_unum unum FitsUNum (λ x. Unit) (λ x is f _. read_unum-Yields x is f)
      (λ x is. tt) us fits is tt

pub build_unum_set-Yields :
    (u : UNum) (us : UNumSet) {is : List Item}
    → Clear as_unum is
    → Yields build_unum_set (pushed unum (u ∷ us) is) (unum_set (reverse (u ∷ us)) ∷ is)
build_unum_set-Yields u us clear =
    then_take as_unum unum (λ x. refl) (λ l. add (unum_set (reverse l))) u us clear
      (yields (λ k. refl))

read_in_reverse :
    (vs us : UNumSet) (is : List Item)
    → reverse vs ≡ us
    → NonEmpty us
    → All FitsUNum vs
    → Clear as_unum is
    → Yields (read_all read_unum vs >> build_unum_set) is (unum_set us ∷ is)
read_in_reverse [] us is e fits names clear = impossible (subst NonEmpty (sym e) fits)
read_in_reverse (v ∷ vs) us is e fits names clear =
    subst (λ l. Yields (read_all read_unum (v ∷ vs) >> build_unum_set) is (unum_set l ∷ is)) e
      (then (read_all-unums (v ∷ vs) is names) (build_unum_set-Yields v vs clear))

-- A set is read on a stack that has no number on its top.
pub read_unum_set-Yields :
    (us : UNumSet) (is : List Item)
    → FitsSet us
    → Clear as_unum is
    → Yields (read_unum_set us) is (unum_set us ∷ is)
read_unum_set-Yields us is fits =
    read_in_reverse (reverse us) us is (reverse-reverse us) fits.0 fits.1

-- A union is read on a stack that has no region on its top.
abbrev Ready : Region → List Item → Type 0
Ready r is = is_union r ≡ true → Clear as_reg is

regions-region_list : (rs : Regions) → regions (region_list rs) ≡ rs
regions-region_list no_regions = refl
regions-region_list (region r rs) = ap (region r) (regions-region_list rs)

pub build_reg_union-Yields :
    (r : Region) (rs : Regions) {is : List Item}
    → Clear as_reg is
    → Yields build_reg_union
        (pushed reg (r ∷ region_list rs) is)
        (reg (reg_union (region r rs)) ∷ is)
build_reg_union-Yields r rs {is} clear =
    then_take as_reg reg (λ x. refl) (λ l. add (reg (reg_union (regions l)))) r (region_list rs)
      clear (yields (λ k. rw (regions-region_list rs)))

not-Ready : (r : Region) (is : List Item) → is_union r ≡ false → Ready r is
not-Ready r is e e' = impossible (sym e' ∙ e)

mutual
  unfolding read_region FitsRegion

  read_region-yields :
      (r : Region) (is : List Item)
      → FitsRegion r
      → Ready r is
      → Yields (read_region r) is (reg r ∷ is)
  read_region-yields reg_null is fits ready = yields (λ k. refl)
  read_region-yields (reg_quad p q r s) is fits ready = then (read_point-Yields p is fits.0) (
      then (read_point-Yields q _ fits.1) (
        then (read_point-Yields r _ fits.2) (
          then (read_point-Yields s _ fits.3)
            (then (built build_reg_quad (λ k. refl)) (set_ver_7 _)))))
  read_region-yields (reg_arc p r1 r2 a1 a2) is fits ready =
      then (read_point-Yields p is fits) (yields (λ k. refl))
  read_region-yields (reg_union no_regions) is fits ready = impossible fits
  read_region-yields (reg_union (region r rs)) is fits ready =
      then
        (then (read_region-yields r is fits.0 (λ _. ready refl)) (read_members-yields rs _ fits.1))
        (build_reg_union-Yields r rs (ready refl))
  read_region-yields (reg_named name) is fits ready = then_both name fits (yields (λ k. refl))
  read_region-yields (reg_point p) is fits ready =
      then (read_point-Yields p is fits) (yields (λ k. refl))
  read_region-yields (reg_tri p q r) is fits ready = then (read_point-Yields p is fits.0) (
      then (read_point-Yields q _ fits.1) (
        then (read_point-Yields r _ fits.2) (then (built build_reg_tri (λ k. refl)) (set_ver_8 _))))
  read_region-yields (reg_rec p q) is fits ready =
      then (read_point-Yields p is fits.0)
        (then (read_point-Yields q _ fits.1) (then (built build_reg_rec (λ k. refl)) (set_ver_8 _)))

  read_members-yields :
      (rs : Regions) (is : List Item)
      → FitsMembers rs
      → Yields (read_regions rs) is (pushed reg (region_list rs) is)
  read_members-yields no_regions is fits = yields (λ k. refl)
  read_members-yields (region r rs) is fits =
      then (read_region-yields r is fits.0 (not-Ready r is fits.1))
        (read_members-yields rs _ fits.2)

pub read_region-Yields :
    (r : Region) (is : List Item)
    → FitsRegion r
    → Clear as_reg is
    → Yields (read_region r) is (reg r ∷ is)
read_region-Yields r is fits clear = read_region-yields r is fits (λ _. clear)

pub read_members-Yields :
    (rs : Regions) (is : List Item)
    → FitsMembers rs
    → Yields (read_regions rs) is (pushed reg (region_list rs) is)
read_members-Yields rs is fits = read_members-yields rs is fits

-- The members of one list and of another after it.
unfoldable pub append_members : Regions → Regions → Regions
append_members no_regions ts = ts
append_members (region r rs) ts = region r (append_members rs ts)

pub append_members-Yields :
    (rs ts : Regions) (is ls : List Item)
    → FitsMembers rs
    → Yields (read_regions ts) (pushed reg (region_list rs) is) ls
    → Yields (read_regions (append_members rs ts)) is ls
unfolding read_region FitsRegion append_members
append_members-Yields no_regions ts is ls fits p = p
append_members-Yields (region r rs) ts is ls fits p =
    then (read_region-yields r is fits.0 (not-Ready r is fits.1))
      (append_members-Yields rs ts (reg r ∷ is) ls fits.2 p)

pub append_members-pushed :
    (rs ts : Regions) (is : List Item)
    → pushed reg (region_list (append_members rs ts)) is
      ≡ pushed reg (region_list ts) (pushed reg (region_list rs) is)
unfolding append_members
append_members-pushed no_regions ts is = refl
append_members-pushed (region r rs) ts is = append_members-pushed rs ts (reg r ∷ is)

-- ===== src/Clang/Reading/Nested.antt =====
-- What the reading of a list of rule IDs or a rule leaves on the stack.
use rcssserver.Base.{◌≡◌, refl, ap, List, [], ◌∷◌}
use rcssserver.Clang.Syntax.{
  Str, Cond, Dir, RuleIdList, Rule, simple_rule, nested_rule, id_list_rule, Rules, no_rules, rule,
  rules, rule_list,
}
use rcssserver.Clang.Builder.Machine
use rcssserver.Clang.Builder.Machine.{
  Item, cond, dir, rid, rid_list, as_rid, as_dir, as_rule, as_cond, M, ◌>>◌, ◌>>=◌, add,
  check_and_get,
}
use rcssserver.Clang.Builder.Rules.{build_rule_id_list, build_simple_rule, build_nested_rule}
use rcssserver.Clang.Reading.Rules.{read_id, read_id_list, read_rule, read_rules}
use rcssserver.Clang.Reading.Fits.{impossible, All, NonEmpty, FitsName, FitsRule, FitsRules}
use rcssserver.Clang.Reading.Yields.{
  Yields, yields, then, then_take, then_both, pushed, Clear, Clear-cons, Tidy, Tidy-cons,
  read_all-Yields,
}
use rcssserver.Clang.Reading.Acts.{read_dirs-Yields}
use rcssserver.Clang.Reading.Conds.{read_cond-Yields}

build_rule_id_list-Yields :
    (id : Str) (ids : RuleIdList) {is : List Item}
    → Clear as_rid is
    → Yields build_rule_id_list (pushed rid (id ∷ ids) is) (rid_list (id ∷ ids) ∷ is)
build_rule_id_list-Yields id ids clear =
    then_take as_rid rid (λ x. refl) (λ l. add (rid_list l)) id ids clear (yields (λ k. refl))

pub read_id_list-Yields :
    (ids : RuleIdList) (is : List Item)
    → All FitsName ids
    → Tidy is
    → Yields (read_id_list ids) is (rid_list ids ∷ is)
read_id_list-Yields [] is fits tidy = yields (λ k. refl)
read_id_list-Yields (id ∷ ids) is fits tidy =
    then
      (read_all-Yields read_id rid FitsName (λ _. Unit)
        (λ x is h _. then_both x h (yields (λ k. refl))) (λ x is. tt) (id ∷ ids) fits is tt)
      (build_rule_id_list-Yields id ids tidy.1)

build_simple_rule-Yields :
    (c : Cond) (ds : List Dir) (is : List Item)
    → NonEmpty ds
    → Yields build_simple_rule (pushed dir ds (cond c ∷ is)) (Machine.rule (simple_rule c ds) ∷ is)
build_simple_rule-Yields c [] is fits = impossible fits
build_simple_rule-Yields c (d ∷ ds) is fits =
    then_take as_dir dir (λ x. refl)
      (λ l. check_and_get as_cond >>= λ c. add (Machine.rule (simple_rule c l))) d ds
      (Clear-cons as_dir (cond c) is refl) (yields (λ k. refl))

rules-rule_list : (rs : Rules) → rules (rule_list rs) ≡ rs
rules-rule_list no_rules = refl
rules-rule_list (rule r rs) = ap (rule r) (rules-rule_list rs)

build_nested_rule-Yields :
    (c : Cond) (r : Rule) (rs : Rules) (is : List Item)
    → Yields build_nested_rule
        (pushed Machine.rule (r ∷ rule_list rs) (cond c ∷ is))
        (Machine.rule (nested_rule c (rule r rs)) ∷ is)
build_nested_rule-Yields c r rs is =
    then_take as_rule Machine.rule (λ x. refl)
      (λ l. check_and_get as_cond >>= λ c. add (Machine.rule (nested_rule c (rules l)))) r
      (rule_list rs) (Clear-cons as_rule (cond c) is refl) (yields (λ k. rw (rules-rule_list rs)))

mutual
  unfolding read_rule FitsRule

  read_rule-yields :
      (r : Rule) (is : List Item)
      → FitsRule r
      → Tidy is
      → Yields (read_rule r) is (Machine.rule r ∷ is)
  read_rule-yields (simple_rule c ds) is fits tidy = then (read_cond-Yields c is fits.0 tidy) (
      then (read_dirs-Yields ds (cond c ∷ is) fits.2 (Tidy-cons (cond c) is refl refl refl))
        (build_simple_rule-Yields c ds is fits.1))
  read_rule-yields (nested_rule c no_rules) is fits tidy = impossible fits
  read_rule-yields (nested_rule c (rule r rs)) is fits tidy =
      then (read_cond-Yields c is fits.0 tidy) (
        then
          (then (read_rule-yields r (cond c ∷ is) fits.1 (Tidy-cons (cond c) is refl refl refl))
            (read_rules-yields rs r (cond c ∷ is) fits.2))
          (build_nested_rule-Yields c r rs is))
  read_rule-yields (id_list_rule ids) is fits tidy =
      then (read_id_list-Yields ids is fits tidy) (yields (λ k. refl))

  -- The rules after a first one.
  read_rules-yields :
      (rs : Rules) (r : Rule) (is : List Item)
      → FitsRules rs
      → Yields
          (read_rules rs)
          (Machine.rule r ∷ is)
          (pushed Machine.rule (rule_list rs) (Machine.rule r ∷ is))
  read_rules-yields no_rules r is fits = yields (λ k. refl)
  read_rules-yields (rule r' rs) r is fits =
      then (read_rule-yields r' _ fits.0 (Tidy-cons (Machine.rule r) is refl refl refl))
        (read_rules-yields rs r' (Machine.rule r ∷ is) fits.1)

pub read_rule-Yields :
    (r : Rule) (is : List Item)
    → FitsRule r
    → Tidy is
    → Yields (read_rule r) is (Machine.rule r ∷ is)
read_rule-Yields r is fits tidy = read_rule-yields r is fits tidy

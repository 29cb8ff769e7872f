-- ===== src/Clang/Reading/Whole.antt =====
-- What the reading of definitions, tokens and the other parts of messages leaves on the stack.
use rcssserver.Base.{refl, true, false, ℤ, List, [], ◌∷◌}
use rcssserver.Clang.Syntax.{
  Cond, Dir, Def, def_cond, def_dir, def_reg, def_act, def_rule, Token, tok_rule, tok_clear,
  ActivateRules, activate, MetaToken, meta_token_ver,
}
use rcssserver.Clang.Builder.Machine
use rcssserver.Clang.Builder.Machine.{
  Item, cond, dir, token, def, meta, as_dir, as_cond, M, ◌>>◌, ◌>>=◌, add, check_and_get, set_ver,
  str_size,
}
use rcssserver.Clang.Builder.Rules.{
  build_token_rule, build_define_model_rule, build_define_directive_rule,
}
use rcssserver.Clang.Reading.Parts.{read_all}
use rcssserver.Clang.Reading.Rules.{read_def, read_token, read_activate, read_meta_token}
use rcssserver.Clang.Reading.Fits.{impossible, NonEmpty, FitsDef, FitsToken, FitsActivate, All}
use rcssserver.Clang.Reading.Yields.{
  Yields, yields, built, then, then_take, then_size, then_both, set_ver_8, pushed, Clear-cons, Tidy,
  Tidy-nil, Tidy-cons, read_all-Yields, All-Unit,
}
use rcssserver.Clang.Reading.Acts.{read_action-Yields, read_dir-Yields, read_dirs-Yields}
use rcssserver.Clang.Reading.Points.{read_region-Yields}
use rcssserver.Clang.Reading.Conds.{read_cond-Yields}
use rcssserver.Clang.Reading.Nested.{read_id_list-Yields, read_rule-Yields}

pub read_def-Yields :
    (d : Def) (is : List Item) → FitsDef d → Tidy is → Yields (read_def d) is (def d ∷ is)
read_def-Yields (def_cond name c) is fits tidy =
    then (read_cond-Yields c is fits.1 tidy) (then_both name fits.0 (yields (λ k. refl)))
read_def-Yields (def_dir name d) is fits tidy =
    then (read_dir-Yields d is fits.1 tidy) (then_both name fits.0 (yields (λ k. refl)))
read_def-Yields (def_reg name r) is fits tidy =
    then (read_region-Yields r is fits.1 tidy.2) (then_both name fits.0 (yields (λ k. refl)))
read_def-Yields (def_act name a) is fits tidy =
    then (read_action-Yields a is fits.1 tidy) (then_both name fits.0 (yields (λ k. refl)))
read_def-Yields (def_rule name r true) is fits tidy = then (read_rule-Yields r is fits.1 tidy) (
    then_size str_size name fits.0
      (then (built (build_define_model_rule name) (λ k. rw (fits.0))) (set_ver_8 _)))
read_def-Yields (def_rule name r false) is fits tidy = then (read_rule-Yields r is fits.1 tidy) (
    then_size str_size name fits.0
      (then (built (build_define_directive_rule name) (λ k. rw (fits.0))) (set_ver_8 _)))

build_token_rule-Yields :
    (ttl : ℤ) (c : Cond) (ds : List Dir) (is : List Item)
    → NonEmpty ds
    → Yields (build_token_rule ttl) (pushed dir ds (cond c ∷ is)) (token (tok_rule ttl c ds) ∷ is)
build_token_rule-Yields ttl c [] is fits = impossible fits
build_token_rule-Yields ttl c (d ∷ ds) is fits =
    then_take as_dir dir (λ x. refl)
      (λ l. check_and_get as_cond >>= λ c. add (token (tok_rule ttl c l))) d ds
      (Clear-cons as_dir (cond c) is refl) (yields (λ k. refl))

read_token-Yields :
    (t : Token) (is : List Item) → FitsToken t → Tidy is → Yields (read_token t) is (token t ∷ is)
read_token-Yields (tok_rule ttl c ds) is fits tidy = then (read_cond-Yields c is fits.0 tidy) (
    then (read_dirs-Yields ds (cond c ∷ is) fits.2 (Tidy-cons (cond c) is refl refl refl))
      (build_token_rule-Yields ttl c ds is fits.1))
read_token-Yields tok_clear is fits tidy = yields (λ k. refl)

read_activate-Yields :
    (a : ActivateRules) (is : List Item)
    → FitsActivate a
    → Tidy is
    → Yields (read_activate a) is (Machine.activate a ∷ is)
read_activate-Yields (activate on ids) is fits tidy =
    then (read_id_list-Yields ids is fits tidy) (yields (λ k. refl))

read_meta_token-Yields :
    (m : MetaToken) (is : List Item) → Yields (read_meta_token m) is (meta m ∷ is)
read_meta_token-Yields (meta_token_ver ver) is = yields (λ k. refl)

-- The lists of a message are read on the empty stack.
pub read_defs-Yields :
    (ds : List Def) → All FitsDef ds → Yields (read_all read_def ds) [] (pushed def ds [])
read_defs-Yields ds fits =
    read_all-Yields read_def def FitsDef Tidy read_def-Yields
      (λ x is. Tidy-cons (def x) is refl refl refl) ds fits [] Tidy-nil

pub read_tokens-Yields :
    (ts : List Token) → All FitsToken ts → Yields (read_all read_token ts) [] (pushed token ts [])
read_tokens-Yields ts fits =
    read_all-Yields read_token token FitsToken Tidy read_token-Yields
      (λ x is. Tidy-cons (token x) is refl refl refl) ts fits [] Tidy-nil

pub read_activations-Yields :
    (l : List ActivateRules)
    → All FitsActivate l
    → Yields (read_all read_activate l) [] (pushed Machine.activate l [])
read_activations-Yields l fits =
    read_all-Yields read_activate Machine.activate FitsActivate Tidy read_activate-Yields
      (λ x is. Tidy-cons (Machine.activate x) is refl refl refl) l fits [] Tidy-nil

pub read_meta_tokens-Yields :
    (l : List MetaToken) → Yields (read_all read_meta_token l) [] (pushed meta l [])
read_meta_tokens-Yields l =
    read_all-Yields read_meta_token meta (λ _. Unit) (λ _. Unit)
      (λ x is _ _. read_meta_token-Yields x is) (λ x is. tt) l (All-Unit l) [] tt

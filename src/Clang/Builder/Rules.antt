-- ===== src/Clang/Builder/Rules.antt =====
-- The operations of `MsgBuilder` (rcss/clang/clangmsgbuilder.cpp) that end the reading of rules, definitions and tokens.
use rcssserver.Base.{Bool, true, false, ℤ, []}
use rcssserver.Clang.Syntax
use rcssserver.Clang.Syntax.{
  Str, Double, simple_rule, nested_rule, id_list_rule, def_cond, def_dir, def_reg, def_act,
  def_rule, tok_rule, tok_clear, meta_token_ver, rules,
}
use rcssserver.Clang.Builder.Machine.{
  meta, token, def, rid_list, activate, rule, rid, as_action, as_dir, as_cond, as_reg, as_rid_list,
  as_rule, as_rid, M, ◌>>=◌, ◌>>◌, add, check_and_get, check_and_take, check_name, pop_rids,
}

abbrev pub build_meta_token_ver : Double → M (Unit {0})
build_meta_token_ver ver = add (meta (meta_token_ver ver))

abbrev pub build_define_cond : Str → M (Unit {0})
build_define_cond name = do check_name name; x ← check_and_get as_cond; add (def (def_cond name x))

abbrev pub build_define_dir : Str → M (Unit {0})
build_define_dir name = do check_name name; x ← check_and_get as_dir; add (def (def_dir name x))

abbrev pub build_define_reg : Str → M (Unit {0})
build_define_reg name = do check_name name; x ← check_and_get as_reg; add (def (def_reg name x))

abbrev pub build_define_act : Str → M (Unit {0})
build_define_act name = do check_name name; x ← check_and_get as_action; add (def (def_act name x))

abbrev pub build_token_rule : ℤ → M (Unit {0})
build_token_rule ttl = do
  l ← check_and_take as_dir
  c ← check_and_get as_cond
  add (token (tok_rule ttl c l))

abbrev pub build_token_clear : M (Unit {0})
build_token_clear = add (token tok_clear)

abbrev build_activate_all_rules : Bool → M (Unit {0})
build_activate_all_rules on = add (activate (Syntax.activate on []))

abbrev pub build_activate_rules : Bool → M (Unit {0})
build_activate_rules on = do rids ← pop_rids; add (activate (Syntax.activate on rids))

abbrev pub build_rule_id : Str → M (Unit {0})
build_rule_id id = do check_name id; add (rid id)

abbrev pub build_rule_id_list : M (Unit {0})
build_rule_id_list = do l ← check_and_take as_rid; add (rid_list l)

abbrev pub build_rule_id_list_all : M (Unit {0})
build_rule_id_list_all = add (rid_list [])

abbrev pub build_define_model_rule : Str → M (Unit {0})
build_define_model_rule id = do
  check_name id
  r ← check_and_get as_rule
  add (def (def_rule id r true))

abbrev pub build_define_directive_rule : Str → M (Unit {0})
build_define_directive_rule id = do
  check_name id
  r ← check_and_get as_rule
  add (def (def_rule id r false))

abbrev pub build_simple_rule : M (Unit {0})
build_simple_rule = do
  l ← check_and_take as_dir
  c ← check_and_get as_cond
  add (rule (simple_rule c l))

abbrev pub build_nested_rule : M (Unit {0})
build_nested_rule = do
  l ← check_and_take as_rule
  c ← check_and_get as_cond
  add (rule (nested_rule c (rules l)))

abbrev pub build_id_rule : M (Unit {0})
build_id_rule = do rids ← check_and_get as_rid_list; add (rule (id_list_rule rids))

-- ===== src/Clang/Reading/Rules.antt =====
-- The calls that reading a condition, a rule, a definition, a token or a whole message makes
-- (rcss/clang/coach_lang_parser.ypp).
use rcssserver.Base.{true, false}
use rcssserver.Clang.Syntax.{
  Str, Cond, cond_bool, cond_player_pos, cond_ball_pos, cond_ball_owner, cond_play_mode, cond_and,
  cond_or, cond_not, cond_named, cond_time, cond_opp_goal, cond_our_goal, cond_goal_diff, cond_unum,
  Conds, no_conds, cond, RuleIdList, Rule, simple_rule, nested_rule, id_list_rule, Rules, no_rules,
  rule, Def, def_cond, def_dir, def_reg, def_act, def_rule, Token, tok_rule, tok_clear,
  ActivateRules, activate, MetaToken, meta_token_ver, Body, meta_msg, define_msg, freeform_msg,
  unsupp_msg, info_msg, advice_msg, rule_msg, del_msg,
}
use rcssserver.Base.{[], ◌∷◌}
use rcssserver.Clang.Builder.Machine.{M, ◌>>◌, pure, str_size, freeform_size, set_ver}
use rcssserver.Clang.Builder.Conditions.{
  build_cond_true, build_cond_false, build_cond_player_pos, build_cond_ball_pos,
  build_cond_ball_owner, build_cond_play_mode, build_cond_and, build_cond_or, build_cond_not,
  build_cond_named, build_cond_time, build_cond_opp_goal, build_cond_our_goal, build_cond_goal_diff,
  build_cond_unum, build_add_to_cond_list, build_create_cond_list,
}
use rcssserver.Clang.Builder.Rules.{
  build_meta_token_ver, build_define_cond, build_define_dir, build_define_reg, build_define_act,
  build_token_rule, build_token_clear, build_activate_rules, build_rule_id, build_rule_id_list,
  build_rule_id_list_all, build_define_model_rule, build_define_directive_rule, build_simple_rule,
  build_nested_rule, build_id_rule,
}
use rcssserver.Clang.Builder.Messages.{
  build_meta_msg, build_define_msg, build_freeform_msg, build_unsupp_msg, build_info_msg,
  build_advice_msg, build_rule_msg, build_del_msg,
}
use rcssserver.Clang.Reading.Parts.{
  check_size, check_unum, read_all, read_unum_set, read_region, read_action, read_dir,
}

unfoldable mutual
  unfolding read_region

  pub read_cond : Cond → M (Unit {0})
  read_cond (cond_bool true) = build_cond_true
  read_cond (cond_bool false) = build_cond_false
  read_cond (cond_player_pos our_side us lo hi r) = do
    read_unum_set us
    read_region r
    build_cond_player_pos our_side lo hi
  read_cond (cond_ball_pos r) = do read_region r; build_cond_ball_pos
  read_cond (cond_ball_owner our_side us) = do read_unum_set us; build_cond_ball_owner our_side
  read_cond (cond_play_mode pm) = build_cond_play_mode pm
  read_cond (cond_and cs) = do read_conds cs; build_cond_and
  read_cond (cond_or cs) = do read_conds cs; build_cond_or
  read_cond (cond_not c) = do read_cond c; build_cond_not
  read_cond (cond_named name) = do check_size str_size name; build_cond_named name
  read_cond (cond_time k comp) = do build_cond_time k comp; set_ver 8 8
  read_cond (cond_opp_goal k comp) = do build_cond_opp_goal k comp; set_ver 8 8
  read_cond (cond_our_goal k comp) = do build_cond_our_goal k comp; set_ver 8 8
  read_cond (cond_goal_diff k comp) = do build_cond_goal_diff k comp; set_ver 8 8
  read_cond (cond_unum u us) = do read_unum_set us; check_unum u; build_cond_unum u; set_ver 8 8

  pub read_conds : Conds → M (Unit {0})
  read_conds no_conds = pure tt
  read_conds (cond c cs) = do read_cond c; build_create_cond_list; read_more_conds cs

  -- The conditions after the first.
  pub read_more_conds : Conds → M (Unit {0})
  read_more_conds no_conds = pure tt
  read_more_conds (cond c cs) = do read_cond c; build_add_to_cond_list; read_more_conds cs

abbrev pub read_id : Str → M (Unit {0})
read_id id = do check_size str_size id; build_rule_id id

-- `id_list`: all rules, or the IDs.
abbrev pub read_id_list : RuleIdList → M (Unit {0})
read_id_list [] = build_rule_id_list_all
read_id_list (id ∷ ids) = do read_all read_id (id ∷ ids); build_rule_id_list

unfoldable mutual
  pub read_rule : Rule → M (Unit {0})
  read_rule (simple_rule c ds) = do read_cond c; read_all read_dir ds; build_simple_rule
  read_rule (nested_rule c rs) = do read_cond c; read_rules rs; build_nested_rule
  read_rule (id_list_rule ids) = do read_id_list ids; build_id_rule

  pub read_rules : Rules → M (Unit {0})
  read_rules no_rules = pure tt
  read_rules (rule r rs) = read_rule r >> read_rules rs

abbrev pub read_def : Def → M (Unit {0})
read_def (def_cond name c) = do read_cond c; check_size str_size name; build_define_cond name
read_def (def_dir name d) = do read_dir d; check_size str_size name; build_define_dir name
read_def (def_reg name r) = do read_region r; check_size str_size name; build_define_reg name
read_def (def_act name a) = do read_action a; check_size str_size name; build_define_act name
read_def (def_rule name r true) = do
  read_rule r
  check_size str_size name
  build_define_model_rule name
  set_ver 8 8
read_def (def_rule name r false) = do
  read_rule r
  check_size str_size name
  build_define_directive_rule name
  set_ver 8 8

abbrev pub read_token : Token → M (Unit {0})
read_token (tok_rule ttl c ds) = do read_cond c; read_all read_dir ds; build_token_rule ttl
read_token tok_clear = build_token_clear

abbrev pub read_activate : ActivateRules → M (Unit {0})
read_activate (activate on ids) = do read_id_list ids; build_activate_rules on

abbrev pub read_meta_token : MetaToken → M (Unit {0})
read_meta_token (meta_token_ver ver) = build_meta_token_ver ver

-- `message`: the versions are set once more when the message is there.
abbrev pub read_message : Body → M (Unit {0})
read_message (meta_msg l) = do read_all read_meta_token l; build_meta_msg; set_ver 7 7
read_message (define_msg l) = do read_all read_def l; build_define_msg; set_ver 8 7
read_message (freeform_msg str) = do
  check_size freeform_size str
  build_freeform_msg str
  set_ver 8 7
read_message unsupp_msg = do build_unsupp_msg; set_ver 8 7
read_message (info_msg l) = do read_all read_token l; build_info_msg; set_ver 7 7
read_message (advice_msg l) = do read_all read_token l; build_advice_msg; set_ver 7 7
read_message (rule_msg l) = do read_all read_activate l; build_rule_msg; set_ver 8 8
read_message (del_msg ids) = do read_id_list ids; build_del_msg; set_ver 8 8

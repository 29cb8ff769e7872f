-- ===== src/Clang/Builder/Messages.antt =====
-- The operations of `MsgBuilder` (rcss/clang/clangmsgbuilder.cpp) that end the reading of whole messages.
use rcssserver.Clang.Syntax.{
  Str, meta_msg, define_msg, freeform_msg, unsupp_msg, info_msg, advice_msg, rule_msg, del_msg,
}
use rcssserver.Clang.Builder.Machine.{
  as_meta, as_token, as_def, as_activate, M, ◌>>=◌, check_and_take, pop_rids, set_msg,
}

abbrev pub build_meta_msg : M (Unit {0})
build_meta_msg = do l ← check_and_take as_meta; set_msg (meta_msg l)

abbrev pub build_define_msg : M (Unit {0})
build_define_msg = do l ← check_and_take as_def; set_msg (define_msg l)

abbrev pub build_freeform_msg : Str → M (Unit {0})
build_freeform_msg str = set_msg (freeform_msg str)

abbrev pub build_unsupp_msg : M (Unit {0})
build_unsupp_msg = set_msg unsupp_msg

abbrev pub build_info_msg : M (Unit {0})
build_info_msg = do l ← check_and_take as_token; set_msg (info_msg l)

abbrev pub build_advice_msg : M (Unit {0})
build_advice_msg = do l ← check_and_take as_token; set_msg (advice_msg l)

abbrev pub build_rule_msg : M (Unit {0})
build_rule_msg = do l ← check_and_take as_activate; set_msg (rule_msg l)

abbrev pub build_del_msg : M (Unit {0})
build_del_msg = do rids ← pop_rids; set_msg (del_msg rids)

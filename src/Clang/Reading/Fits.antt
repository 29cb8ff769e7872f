-- ===== src/Clang/Reading/Fits.antt =====
-- What the builder (rcss/clang/clangmsgbuilder.cpp) and the lists of the grammar ask of a value.
use rcssserver.Base.{◌≡◌, Bool, true, false, ltb, length, reverse, List, [], ◌∷◌, arith}
use rcssserver.Clang.Syntax.{
  Str, UNum, by_number, by_name, UNumSet, Point, point_simple, point_rel, point_ball, point_player,
  point_arith, Region, reg_null, reg_quad, reg_arc, reg_point, reg_tri, reg_rec, reg_union,
  reg_named, Regions, no_regions, region, Action, act_pos, act_home, act_mark_line_reg,
  act_offsides_line, act_pass_reg, act_dribble, act_clear, act_ball_to_reg, act_ball_to_player,
  act_mark, act_mark_line_player, act_pass_unum, act_tackle, act_named, Dir, dir_comm, dir_named,
  Cond, cond_player_pos, cond_ball_pos, cond_ball_owner, cond_and, cond_or, cond_not, cond_named,
  cond_unum, Conds, no_conds, cond, Rule, simple_rule, nested_rule, id_list_rule, Rules, no_rules,
  rule, Def, def_cond, def_dir, def_reg, def_act, def_rule, Token, tok_rule, tok_clear,
  ActivateRules, activate, Body, meta_msg, define_msg, freeform_msg, unsupp_msg, info_msg,
  advice_msg, rule_msg, del_msg,
}
use rcssserver.Clang.Builder.Machine.{str_size, freeform_size}
use rcssserver.Clang.Reading.Parts.{move_tokens}

abbrev pub All : {A : Type 0} → (A → Type 0) → List A → Type 0
All P [] = Unit
All P (x ∷ xs) = P x × All P xs

-- A list of the grammar has an element.
abbrev pub NonEmpty : {A : Type 0} → List A → Type 0
NonEmpty [] = true ≡ false
NonEmpty (x ∷ xs) = Unit

pub impossible {ℓ} : {A : Type ℓ} → true ≡ false → A
impossible e = absurd (ground arith)

abbrev pub FitsName : Str → Type 0
FitsName name = ltb str_size (length name) ≡ false

abbrev pub FitsUNum : UNum → Type 0
FitsUNum (by_number n) = Unit
FitsUNum (by_name s) = FitsName s

-- The grammar has no condition on a number, only on a name.
abbrev pub FitsVariable : UNum → Type 0
FitsVariable (by_number n) = true ≡ false
FitsVariable (by_name s) = FitsName s

-- A set, by the entries of its text.
abbrev pub FitsSet : UNumSet → Type 0
FitsSet us = NonEmpty us × All FitsUNum (reverse us)

abbrev pub FitsPoint : Point → Type 0
FitsPoint (point_simple x y) = Unit
FitsPoint (point_rel x y p) = FitsPoint p
FitsPoint point_ball = Unit
FitsPoint (point_player our_side u) = FitsUNum u
FitsPoint (point_arith p q o) = FitsPoint p × FitsPoint q

abbrev pub is_union : Region → Bool
is_union (reg_union _) = true
is_union _ = false

-- In a union only the first member may be a union itself.
unfoldable mutual
  pub FitsRegion : Region → Type 0
  FitsRegion (reg_union no_regions) = true ≡ false
  FitsRegion (reg_union (region r rs)) = FitsRegion r × FitsMembers rs
  FitsRegion (reg_named name) = FitsName name
  FitsRegion reg_null = Unit
  FitsRegion (reg_quad p q r s) = FitsPoint p × FitsPoint q × FitsPoint r × FitsPoint s
  FitsRegion (reg_arc p r1 r2 a1 a2) = FitsPoint p
  FitsRegion (reg_point p) = FitsPoint p
  FitsRegion (reg_tri p q r) = FitsPoint p × FitsPoint q × FitsPoint r
  FitsRegion (reg_rec p q) = FitsPoint p × FitsPoint q

  pub FitsMembers : Regions → Type 0
  FitsMembers no_regions = Unit
  FitsMembers (region r rs) = FitsRegion r × (is_union r ≡ false) × FitsMembers rs

abbrev pub FitsAction : Action → Type 0
FitsAction (act_pos r) = FitsRegion r
FitsAction (act_home r) = FitsRegion r
FitsAction (act_mark_line_reg r) = FitsRegion r
FitsAction (act_offsides_line r) = FitsRegion r
FitsAction (act_pass_reg r) = FitsRegion r
FitsAction (act_dribble r) = FitsRegion r
FitsAction (act_clear r) = FitsRegion r
FitsAction (act_ball_to_reg r m) = FitsRegion r × NonEmpty (move_tokens m)
FitsAction (act_ball_to_player us) = FitsSet us
FitsAction (act_mark us) = FitsSet us
FitsAction (act_mark_line_player us) = FitsSet us
FitsAction (act_pass_unum us) = FitsSet us
FitsAction (act_tackle us) = FitsSet us
FitsAction (act_named name) = FitsName name
FitsAction _ = Unit

abbrev pub FitsDir : Dir → Type 0
FitsDir (dir_comm _ _ us l) = FitsSet us × NonEmpty l × All FitsAction l
FitsDir (dir_named name) = FitsName name

unfoldable mutual
  unfolding FitsRegion

  pub FitsCond : Cond → Type 0
  FitsCond (cond_player_pos _ us _ _ r) = FitsSet us × FitsRegion r
  FitsCond (cond_ball_pos r) = FitsRegion r
  FitsCond (cond_ball_owner _ us) = FitsSet us
  FitsCond (cond_and no_conds) = true ≡ false
  FitsCond (cond_and (cond c cs)) = FitsCond c × FitsConds cs
  FitsCond (cond_or no_conds) = true ≡ false
  FitsCond (cond_or (cond c cs)) = FitsCond c × FitsConds cs
  FitsCond (cond_not c) = FitsCond c
  FitsCond (cond_named name) = FitsName name
  FitsCond (cond_unum u us) = FitsVariable u × FitsSet us
  FitsCond _ = Unit

  pub FitsConds : Conds → Type 0
  FitsConds no_conds = Unit
  FitsConds (cond c cs) = FitsCond c × FitsConds cs

unfoldable mutual
  pub FitsRule : Rule → Type 0
  FitsRule (simple_rule c ds) = FitsCond c × NonEmpty ds × All FitsDir ds
  FitsRule (nested_rule c no_rules) = true ≡ false
  FitsRule (nested_rule c (rule r rs)) = FitsCond c × FitsRule r × FitsRules rs
  FitsRule (id_list_rule ids) = All FitsName ids

  pub FitsRules : Rules → Type 0
  FitsRules no_rules = Unit
  FitsRules (rule r rs) = FitsRule r × FitsRules rs

abbrev pub FitsDef : Def → Type 0
FitsDef (def_cond name c) = FitsName name × FitsCond c
FitsDef (def_dir name d) = FitsName name × FitsDir d
FitsDef (def_reg name r) = FitsName name × FitsRegion r
FitsDef (def_act name a) = FitsName name × FitsAction a
FitsDef (def_rule name r _) = FitsName name × FitsRule r

abbrev pub def_name : Def → Str
def_name (def_cond name c) = name
def_name (def_dir name d) = name
def_name (def_reg name r) = name
def_name (def_act name a) = name
def_name (def_rule name r _) = name

-- What is defined fits, whatever the name.
abbrev pub FitsDefined : Def → Type 0
FitsDefined (def_cond name c) = FitsCond c
FitsDefined (def_dir name d) = FitsDir d
FitsDefined (def_reg name r) = FitsRegion r
FitsDefined (def_act name a) = FitsAction a
FitsDefined (def_rule name r _) = FitsRule r

abbrev pub FitsToken : Token → Type 0
FitsToken (tok_rule ttl c ds) = FitsCond c × NonEmpty ds × All FitsDir ds
FitsToken tok_clear = Unit

abbrev pub FitsActivate : ActivateRules → Type 0
FitsActivate (activate _ ids) = All FitsName ids

unfoldable pub FitsMessage : Body → Type 0
FitsMessage (meta_msg l) = NonEmpty l
FitsMessage (define_msg l) = NonEmpty l × All FitsDef l
FitsMessage (freeform_msg str) = ltb freeform_size (length str) ≡ false
FitsMessage unsupp_msg = Unit
FitsMessage (info_msg l) = NonEmpty l × All FitsToken l
FitsMessage (advice_msg l) = NonEmpty l × All FitsToken l
FitsMessage (rule_msg l) = NonEmpty l × All FitsActivate l
FitsMessage (del_msg ids) = All FitsName ids

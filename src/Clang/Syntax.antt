-- ===== src/Clang/Syntax.antt =====
-- The values that messages of the coach language are built into: the classes of
-- rcss/clang/region.h, cond.h, clangaction.h, coach_lang_comp.h, rule.h and the headers of the
-- messages. A pointer that the code may hold as null is never null in a value that it builds.
use rcssserver.Base.{ℕ, Bool, true, false, List, [], ◌∷◌, ℤ}

-- The bytes of a `std::string`.
abbrev pub Str : Type 0
Str = List ℕ

-- The bit pattern of a `double`, which the builder stores and does not compute with.
abbrev pub Double : Type 0
Double = ℕ

-- `UNum`: a number, or the name of a variable. An empty name does not occur.
pub data UNum : Type 0 where
  by_number : ℤ → UNum
  by_name : Str → UNum

-- The entries in the order of the vector.
abbrev pub UNumSet : Type 0
UNumSet = List UNum

pub data ArithOp : Type 0 where
  plus minus mult div : ArithOp

pub data CompOp : Type 0 where
  less less_equal equal not_equal greater_equal greater : CompOp

-- `PlayMode` of rcss/clang/clangutil.h.
pub data PlayMode : Type 0 where
  pm_none before_kick_off time_over play_on : PlayMode
  kick_off_our kick_off_opp kick_in_our kick_in_opp free_kick_our free_kick_opp : PlayMode
  corner_kick_our corner_kick_opp goal_kick_our goal_kick_opp : PlayMode
  goalie_catch_our goalie_catch_opp after_goal_our after_goal_opp : PlayMode

pub data BallMoveToken : Type 0 where
  bmt_none pass dribble clear score bmt_all : BallMoveToken

-- `BallMove`: the four bits of `M_entries` that are used.
pub record BallMove : Type 0 where
  pub has_pass : Bool
  pub has_dribble : Bool
  pub has_clear : Bool
  pub has_score : Bool

abbrev pub no_moves : BallMove
no_moves = record { has_pass = false; has_dribble = false; has_clear = false; has_score = false }

-- `BallMove::addToken`. `TOKEN_MAX` is 4 and `BMT_All` is 5, so that `BMT_All` adds nothing.
abbrev pub add_token : BallMoveToken → BallMove → BallMove
add_token pass m = record m { has_pass = true }
add_token dribble m = record m { has_dribble = true }
add_token clear m = record m { has_clear = true }
add_token score m = record m { has_score = true }
add_token _ m = m

pub data Point : Type 0 where
  point_simple : Double → Double → Point
  point_rel : Double → Double → Point → Point
  point_ball : Point
  point_player : Bool → UNum → Point
  point_arith : Point → Point → ArithOp → Point

mutual
  pub data Region : Type 0 where
    reg_null : Region
    reg_quad : Point → Point → Point → Point → Region
    reg_arc : Point → Double → Double → Double → Double → Region
    reg_union : Regions → Region
    reg_named : Str → Region
    reg_point : Point → Region
    reg_tri : Point → Point → Point → Region
    reg_rec : Point → Point → Region

  pub data Regions : Type 0 where
    no_regions : Regions
    region : Region → Regions → Regions

mutual
  pub data Cond : Type 0 where
    cond_bool : Bool → Cond
    cond_player_pos : Bool → UNumSet → ℤ → ℤ → Region → Cond
    cond_ball_pos : Region → Cond
    cond_ball_owner : Bool → UNumSet → Cond
    cond_play_mode : PlayMode → Cond
    cond_and cond_or : Conds → Cond
    cond_not : Cond → Cond
    cond_named : Str → Cond
    cond_time cond_opp_goal cond_our_goal cond_goal_diff : ℤ → CompOp → Cond
    cond_unum : UNum → UNumSet → Cond

  pub data Conds : Type 0 where
    no_conds : Conds
    cond : Cond → Conds → Conds

pub data Action : Type 0 where
  act_pos act_home act_mark_line_reg act_offsides_line : Region → Action
  act_pass_reg act_dribble act_clear : Region → Action
  act_ball_to_reg : Region → BallMove → Action
  act_ball_to_player act_mark act_mark_line_player act_pass_unum act_tackle : UNumSet → Action
  act_het_type : ℤ → Action
  act_named : Str → Action
  act_shoot act_hold act_intercept : Action

pub data Dir : Type 0 where
  dir_comm : Bool → Bool → UNumSet → List Action → Dir
  dir_named : Str → Dir

-- `RuleIDList`: the empty list stands for all rules.
abbrev pub RuleIdList : Type 0
RuleIdList = List Str

mutual
  pub data Rule : Type 0 where
    simple_rule : Cond → List Dir → Rule
    nested_rule : Cond → Rules → Rule
    id_list_rule : RuleIdList → Rule

  pub data Rules : Type 0 where
    no_rules : Rules
    rule : Rule → Rules → Rules

pub data Def : Type 0 where
  def_cond : Str → Cond → Def
  def_dir : Str → Dir → Def
  def_reg : Str → Region → Def
  def_act : Str → Action → Def
  def_rule : Str → Rule → Bool → Def

pub data Token : Type 0 where
  tok_rule : ℤ → Cond → List Dir → Token
  tok_clear : Token

pub data ActivateRules : Type 0 where
  activate : Bool → RuleIdList → ActivateRules

-- `MetaTokenVer` is the only class of `MetaToken`.
pub data MetaToken : Type 0 where
  meta_token_ver : Double → MetaToken

pub data Body : Type 0 where
  meta_msg : List MetaToken → Body
  define_msg : List Def → Body
  freeform_msg : Str → Body
  unsupp_msg : Body
  info_msg advice_msg : List Token → Body
  rule_msg : List ActivateRules → Body
  del_msg : RuleIdList → Body

-- The lists inside a value, as lists.
abbrev pub region_list : Regions → List Region
region_list no_regions = []
region_list (region r rs) = r ∷ region_list rs

abbrev pub regions : List Region → Regions
regions [] = no_regions
regions (r ∷ rs) = region r (regions rs)

abbrev pub cond_list : Conds → List Cond
cond_list no_conds = []
cond_list (cond c cs) = c ∷ cond_list cs

abbrev pub conds : List Cond → Conds
conds [] = no_conds
conds (c ∷ cs) = cond c (conds cs)

abbrev pub rule_list : Rules → List Rule
rule_list no_rules = []
rule_list (rule r rs) = r ∷ rule_list rs

abbrev pub rules : List Rule → Rules
rules [] = no_rules
rules (r ∷ rs) = rule r (rules rs)

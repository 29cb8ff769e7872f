-- ===== src/Clang/Builder/Machine.antt =====
-- The state of `MsgBuilder` (rcss/clang/clangmsgbuilder.cpp) and what its operations are made of:
-- the typed pops, the loops that pop all items of one type, and the versions. A thrown
-- `BuilderErr` is an error result.
use rcssserver.Base.{
  ℕ, Bool, true, false, ◌&&◌, ltb, ◌==◌, if◌then◌else◌, Option, none, some, List, [], ◌∷◌, length,
}
use rcssserver.Clang.Syntax.{
  Str, UNum, UNumSet, BallMoveToken, Point, Region, Cond, Action, Dir, RuleIdList, Rule, Def, Token,
  ActivateRules, MetaToken, Body,
}

-- What the three handlers `onNoItems`, `onWrongItem` and `onNotEmpty` throw, and the tests on names.
pub data Error : Type 0 where
  no_items wrong_item not_empty over_string_size : Error
  -- `YYERROR` of the grammar
  parse_error : Error

pub data Result {ℓ} (A : Type ℓ) : Type ℓ where
  ok : A → Result A
  err : Error → Result A

-- `ItemType`, by its `m_type`. The types `NONE` and `STR` are never pushed.
pub data Item : Type 0 where
  meta : MetaToken → Item
  action : Action → Item
  dir : Dir → Item
  cond : Cond → Item
  cond_list : List Cond → Item
  token : Token → Item
  def : Def → Item
  reg : Region → Item
  point : Point → Item
  unum : UNum → Item
  bmt : BallMoveToken → Item
  unum_set : UNumSet → Item
  rid_list : RuleIdList → Item
  activate : ActivateRules → Item
  rule : Rule → Item
  rid : Str → Item

abbrev pub as_meta : Item → Option MetaToken
as_meta (meta x) = some x
as_meta _ = none

abbrev pub as_action : Item → Option Action
as_action (action x) = some x
as_action _ = none

abbrev pub as_dir : Item → Option Dir
as_dir (dir x) = some x
as_dir _ = none

abbrev pub as_cond : Item → Option Cond
as_cond (cond x) = some x
as_cond _ = none

abbrev pub as_cond_list : Item → Option (List Cond)
as_cond_list (cond_list x) = some x
as_cond_list _ = none

abbrev pub as_token : Item → Option Token
as_token (token x) = some x
as_token _ = none

abbrev pub as_def : Item → Option Def
as_def (def x) = some x
as_def _ = none

abbrev pub as_reg : Item → Option Region
as_reg (reg x) = some x
as_reg _ = none

abbrev pub as_point : Item → Option Point
as_point (point x) = some x
as_point _ = none

abbrev pub as_unum : Item → Option UNum
as_unum (unum x) = some x
as_unum _ = none

abbrev pub as_bmt : Item → Option BallMoveToken
as_bmt (bmt x) = some x
as_bmt _ = none

abbrev pub as_unum_set : Item → Option UNumSet
as_unum_set (unum_set x) = some x
as_unum_set _ = none

abbrev pub as_rid_list : Item → Option RuleIdList
as_rid_list (rid_list x) = some x
as_rid_list _ = none

abbrev pub as_activate : Item → Option ActivateRules
as_activate (activate x) = some x
as_activate _ = none

abbrev pub as_rule : Item → Option Rule
as_rule (rule x) = some x
as_rule _ = none

abbrev pub as_rid : Item → Option Str
as_rid (rid x) = some x
as_rid _ = none

-- `M_min_ver` and `M_max_ver`, in the builder and in a message.
pub record Versions : Type 0 where
  pub min_ver : ℕ
  pub max_ver : ℕ

-- `(unsigned int)-1` and 0.
abbrev pub no_versions : Versions
no_versions = record { min_ver = 4294967295; max_ver = 0 }

-- `setVer( min, max )` for `min == max`.
abbrev restrict_ver : ℕ → Versions → Versions
restrict_ver ver v =
    if ltb ver v.max_ver
    then record v { min_ver = ver }
    else if ltb v.min_ver ver
    then record v { max_ver = ver }
    else if ltb v.max_ver v.min_ver
    then record { min_ver = ver; max_ver = ver }
    else v

-- The other branch: the last test reads what the first two have set.
abbrev widen_ver : ℕ → ℕ → Versions → Versions
widen_ver lo hi v =
    let low = if ltb lo v.min_ver then lo else v.min_ver in
    let high = if ltb v.max_ver hi then hi else v.max_ver in
    if (ltb hi lo && ltb high low) && (ltb high lo && ltb hi low)
    then record { min_ver = lo; max_ver = hi }
    else record { min_ver = low; max_ver = high }

-- `setVer`, the same in `MsgBuilder` and in `Msg` (rcss/clang/clangmsg.cpp).
unfoldable pub set_versions : ℕ → ℕ → Versions → Versions
set_versions lo hi v = if lo == hi then restrict_ver lo v else widen_ver lo hi v

-- A message: what it says and the versions it is for.
pub record Msg : Type 0 where
  pub body : Body
  pub ver : Versions

pub record MsgBuilder : Type 0 where
  pub items : List Item
  pub ver : Versions
  pub msg : Option Msg

abbrev pub M : Type 0 → Type 0
M A = MsgBuilder → Result (A × MsgBuilder)

infixl 5 ◌>>=◌ ◌>>◌
abbrev pub ◌>>=◌ : {A B : Type 0} → M A → (A → M B) → M B
◌>>=◌ m f b = elim (m b) [ ok (a, b') ↦ f a b' | err e ↦ err e ]

abbrev pub ◌>>◌ : {B : Type 0} → M (Unit {0}) → M B → M B
m >> k = m >>= λ _. k

abbrev pub pure : {A : Type 0} → A → M A
pure a b = ok (a, b)

abbrev pub throw : {A : Type 0} → Error → M A
throw e b = err e

-- `add` of each type.
abbrev pub add : Item → M (Unit {0})
add i b = ok (tt, record b { items = i ∷ b.items })

-- `checkIsItem` and the typed pop, of a list of items.
abbrev pub pop_items : {A : Type 0} → (Item → Option A) → List Item → Result (A × List Item)
pop_items type [] = err no_items
pop_items type (i ∷ is) = elim (type i) [ none ↦ err wrong_item | some a ↦ ok (a, is) ]

-- `checkAndGet` of each type.
abbrev pub check_and_get : {A : Type 0} → (Item → Option A) → M A
check_and_get type b = elim (pop_items type b.items) [
  | ok (a, is) ↦ ok (a, record b { items = is })
  | err e ↦ err e
]

-- The loop `while ( isItem( type ) ) l.push_front( get() )`.
unfoldable pub take_items :
    {A : Type 0} → (Item → Option A) → List A → List Item → List A × List Item
take_items type acc [] = (acc, [])
take_items type acc (i ∷ is) = elim (type i) [
  | none ↦ (acc, i ∷ is)
  | some a ↦ take_items type (a ∷ acc) is
]

-- `checkIsItem( type )`, and then the loop.
unfoldable pub check_and_take : {A : Type 0} → (Item → Option A) → M (List A)
unfolding take_items
check_and_take type b = elim (pop_items type b.items) [
  | ok _ ↦ let (l, is) = take_items type [] b.items in ok (l, record b { items = is })
  | err e ↦ err e
]

-- `isItem( type )`.
abbrev is_item : {A : Type 0} → (Item → Option A) → MsgBuilder → Bool
is_item type b = elim (pop_items type b.items) [ ok _ ↦ true | err _ ↦ false ]

-- `STR_SIZE`.
abbrev pub str_size : ℕ
str_size = 8

abbrev pub freeform_size : ℕ
freeform_size = 128

-- The test on a name at the head of an operation.
abbrev pub check_name : Str → M (Unit {0})
check_name name = if ltb str_size (length name) then throw over_string_size else pure tt

-- `M_msg->setVer`, where there is a message.
abbrev set_msg_ver : ℕ → ℕ → Option Msg → Option Msg
set_msg_ver lo hi none = none
set_msg_ver lo hi (some m) = some (record m { ver = set_versions lo hi m.ver })

-- `MsgBuilder::setVer`.
abbrev pub set_ver : ℕ → ℕ → M (Unit {0})
set_ver lo hi b =
    ok (tt, record b { ver = set_versions lo hi b.ver; msg = set_msg_ver lo hi b.msg })

-- `MsgBuilder::checkItemsEmpty`.
abbrev check_items_empty : M (Unit {0})
check_items_empty b = elim b.items [ [] ↦ ok (tt, b) | _ ∷ _ ↦ err not_empty ]

-- `MsgBuilder::setMsg`.
abbrev pub set_msg : Body → M (Unit {0})
set_msg body b =
    let m = record b { msg = some (record { body = body; ver = no_versions }) } in
    (set_ver b.ver.min_ver b.ver.max_ver >> check_items_empty) m

abbrev one_rid : M RuleIdList
one_rid = do id ← check_and_get as_rid; pure (id ∷ [])

-- The rule IDs of `buildActivateRules` and `buildDelMsg`: one ID, or a list.
abbrev pub pop_rids : M RuleIdList
pop_rids b = if is_item as_rid b then one_rid b else check_and_get as_rid_list b

-- The builder as it is made.
abbrev pub new_builder : MsgBuilder
new_builder = record { items = []; ver = no_versions; msg = none }

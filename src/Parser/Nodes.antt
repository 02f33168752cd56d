-- ===== src/Parser/Nodes.antt =====
-- AQSIOSCoordinator/include/parser/nodes.h: the parse tree of a command. Each union
-- member that a field of the grammar can hold is a type; a `N_LIST` chain is a list and a pointer
-- that may be null is an option. Numbers and floats of a query are only copied: an `ival`, `fval`
-- or `bval` is its bit pattern.
use p.Common.{ℕ, Bool, Option, List, String}
use p.Metadata.Types.{Kind, ArithOp, CompOp, AggrFn}

pub data RelToStrOp : Type 0 where
  istream dstream rstream : RelToStrOp

pub data TimeUnit : Type 0 where
  no_time_unit second minute hour day : TimeUnit

-- `N_ATTR_REF`
pub record AttrRef : Type 0 where
  pub rel_var_name : Option String
  pub attr_name : String

-- `N_CONST_VAL`, by its type
pub data Value : Type 0 where
  int_val : ℕ → Value
  float_val : ℕ → Value
  byte_val : ℕ → Value
  char_val : String → Value

-- The nodes in the place of an expression; `other_node` is a node of a kind that is no expression.
pub data Node : Type 0 where
  const_val : Value → Node
  attr_ref : AttrRef → Node
  arith_expr : ArithOp → Node → Node → Node
  aggr_expr : AggrFn → Option AttrRef → Node
  other_node : Node

-- `N_CONDN`
pub record Condn : Type 0 where
  pub op : CompOp
  pub left_expr : Node
  pub right_expr : Node

-- `N_TIME_SPEC`
pub record TimeSpec : Type 0 where
  pub unit : TimeUnit
  pub len : ℕ

-- `N_WINDOW_SPEC`, by its type
pub data Window : Type 0 where
  row_win : ℕ → Window
  time_win : TimeSpec → Window
  now_win : Window
  unbounded_win : Window
  part_win : List AttrRef → ℕ → Window

-- `N_REL_VAR`
pub record RelVar : Type 0 where
  pub rel_name : String
  pub var_name : Option String
  pub window_spec : Option Window

-- `N_SELECT_CLAUSE`; no term at all is `SELECT *`.
pub record SelectClause : Type 0 where
  pub b_distinct : Bool
  pub proj_term_list : List Node

-- `N_SFW_BLOCK`
pub record SfwBlock : Type 0 where
  pub select_clause : SelectClause
  pub rel_list : List RelVar
  pub condition_list : List Condn
  pub group_list : List AttrRef

-- `N_UNION` and `N_EXCEPT`, with the names of the two tables
pub data BinOp : Type 0 where
  union_node except_node : String → String → BinOp

pub data Body : Type 0 where
  sfw_block : SfwBlock → Body
  bin_op : BinOp → Body

-- `N_CONT_QUERY`
pub record ContQuery : Type 0 where
  pub body : Body
  pub reltostr_op : Option RelToStrOp

-- `N_ATTR_SPEC`
pub record AttrSpec : Type 0 where
  pub attr_name : String
  pub attr_type : Kind
  pub len : ℕ

-- `N_REL_SPEC` and `N_STR_SPEC`, which have the same members
pub record TableSpec : Type 0 where
  pub name : String
  pub attr_list : List AttrSpec

-- What the parser returns.
pub data Tree : Type 0 where
  cont_query : ContQuery → Tree
  rel_spec str_spec : TableSpec → Tree

-- ===== src/Semantic/Query.antt =====
-- AQSIOSCoordinator/include/querygen/query.h: the internal form of a query. The used part of each
-- array is a list, whose length is the count beside the array.
use p.Common.{ℕ, Bool, List}
use p.Metadata.Types.{Kind, ArithOp, CompOp, AggrFn}
use p.Parser.Nodes.{Value, int_val, float_val, byte_val, char_val}

pub record Attr : Type 0 where
  pub var_id : ℕ
  pub attr_id : ℕ

abbrev pub max_partn_attrs : ℕ
max_partn_attrs = 10

pub data WindowSpec : Type 0 where
  range : ℕ → WindowSpec
  row : ℕ → WindowSpec
  partition : ℕ → List Attr → WindowSpec
  now : WindowSpec
  unbounded : WindowSpec

-- The `type` of a constant is that of its value.
pub data Expr : Type 0 where
  const_val : Value → Expr
  attr_ref : Kind → Attr → Expr
  aggr_expr : Kind → AggrFn → Attr → Expr
  comp_expr : Kind → ArithOp → Expr → Expr → Expr

abbrev pub kind_of_value : Value → Kind
kind_of_value (int_val n) = Kind.int
kind_of_value (float_val n) = Kind.float
kind_of_value (byte_val n) = Kind.byte
kind_of_value (char_val s) = Kind.char

-- The field `type`
abbrev pub type_of : Expr → Kind
type_of (const_val v) = kind_of_value v
type_of (attr_ref k a) = k
type_of (aggr_expr k f a) = k
type_of (comp_expr k op l r) = k

pub record BExpr : Type 0 where
  pub op : CompOp
  pub left : Expr
  pub right : Expr

abbrev pub max_pred : ℕ
max_pred = 10

abbrev pub max_proj : ℕ
max_proj = 50

abbrev pub max_group_attrs : ℕ
max_group_attrs = 10

pub data QueryType : Type 0 where
  sfw_query binary_op : QueryType

pub data R2SOp : Type 0 where
  istream dstream rstream : R2SOp

pub data BinaryOp : Type 0 where
  union except : BinaryOp

-- `num_ref_tables` and the other counts are the lengths.
pub record Query : Type 0 where
  pub kind : QueryType
  pub ref_tables : List ℕ
  pub from_clause_tables : List ℕ
  pub win_spec : List WindowSpec
  pub preds : List BExpr
  pub proj_exprs : List Expr
  pub b_distinct : Bool
  pub gby_attrs : List Attr
  pub b_rel_to_str : Bool
  pub r2s_op : R2SOp
  pub bin_op : BinaryOp
  pub left_table : ℕ
  pub right_table : ℕ

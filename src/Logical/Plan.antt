-- ===== src/Logical/Plan.antt =====
-- AQSIOSCoordinator/include/querygen/logop.h: attributes, expressions and operators of a logical
-- plan. An operator's kind and the union member that goes with it are one value; the used part of
-- an array is a list.
use p.Common.{ℕ, Bool, false, Option, List, ◌==◌, ◌&&◌}
use p.Metadata.Types.{Kind, ArithOp, CompOp, AggrFn, fn_code}
use p.Parser.Nodes.{Value}
use p.Semantic.Query.{kind_of_value}

pub data Attr : Type 0 where
  unnamed : Kind → Attr
  named : ℕ → ℕ → ℕ → Attr
  aggr : ℕ → ℕ → ℕ → AggrFn → Attr

pub data Expr : Type 0 where
  const_val : Value → Expr
  attr_ref : Attr → Kind → Expr
  comp_expr : Kind → ArithOp → Expr → Expr → Expr

-- The field `type`
abbrev pub type_of : Expr → Kind
type_of (const_val v) = kind_of_value v
type_of (attr_ref a k) = k
type_of (comp_expr k op l r) = k

-- The sides may be null pointers.
pub record BExpr : Type 0 where
  pub op : CompOp
  pub left : Option Expr
  pub right : Option Expr

abbrev pub max_input_ops : ℕ
max_input_ops = 10

abbrev pub max_group_attrs : ℕ
max_group_attrs = 10

abbrev pub max_aggr_attrs : ℕ
max_aggr_attrs = 10

pub data OperatorKind : Type 0 where
  stream_source : ℕ → ℕ → OperatorKind
  reln_source : ℕ → ℕ → OperatorKind
  row_win : ℕ → OperatorKind
  range_win : ℕ → OperatorKind
  now_win : OperatorKind
  partn_win : List Attr → ℕ → OperatorKind
  select : BExpr → OperatorKind
  project : List Expr → OperatorKind
  cross : OperatorKind
  group_aggr : List Attr → List Attr → List AggrFn → OperatorKind
  distinct : OperatorKind
  istream : OperatorKind
  dstream : OperatorKind
  rstream : OperatorKind
  stream_cross : OperatorKind
  union : OperatorKind
  except : OperatorKind

-- A pointer to an operator is its position in the pool; `none` is null.
pub record Operator : Type 0 where
  pub kind : OperatorKind
  pub out_attrs : List Attr
  pub b_stream : Bool
  pub output : Option ℕ
  pub inputs : List ℕ

-- `operator==` on attributes: an unnamed attribute equals none.
abbrev pub same_attr : Attr → Attr → Bool
same_attr (named v t a) (named v' t' a') = v == v' && t == t' && a == a'
same_attr (aggr v t a f) (aggr v' t' a' f') =
    v == v' && t == t' && a == a' && fn_code f == fn_code f'
same_attr x y = false

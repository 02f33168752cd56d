-- ===== src/Semantic/Exprs.antt =====
-- AQSIOSCoordinator/src/querygen/sem_interp.cc, the expressions and the conditions. The pool of
-- expressions is the number of those in use; an expression is written once, when it is complete,
-- so that a pointer to it is its value. `newExpr` returns null from a full pool, and nobody looks:
-- the write through that pointer is a `fault`.
pub mod Typing
use p.Common.{
  ℕ, Bool, true, false, Option, none, some, List, ◌+◌, ◌==◌, Result, ok, err, fault, fail, type_err,
  ◌>>=◌, ◌>>◌, return_if, or_fault, get_elem?, if◌then◌else◌, not,
}
use p.Metadata.Types.{AggrFn, Kind, get_output_type, same_kind, fn_code}
use p.Metadata.Tables.{TableManager, get_attr_type}
use p.Parser.Nodes.{AttrRef, Node, Condn}
use p.Semantic.Query.{Attr, Expr, BExpr, type_of, kind_of_value}
use p.Semantic.Scope.{Entry, interpret_attr}

-- `NUM_EXPRS`
abbrev pub num_exprs : ℕ
num_exprs = 1000

-- `newExpr`: whether the pointer is not null, and the number of expressions in use.
abbrev pub new_expr : ℕ → Bool × ℕ
new_expr n = if n == num_exprs then (false, n) else (true, n + 1)

-- A write through the pointer of `newExpr`.
abbrev pub write : Bool → Expr → ℕ → Result (Expr × ℕ)
write true e n = ok (e, n)
write false e n = fault

-- `interpretAttr` at a pointer
abbrev interpret_attr_at : TableManager → List Entry → Option AttrRef → Result Attr
interpret_attr_at m symbols none = fault
interpret_attr_at m symbols (some a) = interpret_attr m symbols a

-- `tableMgr -> getAttrType(symbolTable[attr.varId].tableId, attr.attrId)`
pub type_of_attr : TableManager → List Entry → Attr → Result Kind
type_of_attr m symbols a = do
  e ← or_fault (get_elem? symbols a.var_id)
  get_attr_type m e.table_id a.attr_id

-- The attribute of an aggregation: of a count it is the first of the first table.
abbrev pub interpret_aggr_attr : TableManager → List Entry → AggrFn → Option AttrRef → Result Attr
interpret_aggr_attr m symbols fn attr =
    if fn_code fn == fn_code AggrFn.count
    then ok (record { var_id = 0; attr_id = 0 })
    else interpret_attr_at m symbols attr

-- `interpretExpr`, at `n` expressions in use
pub interpret_expr : TableManager → List Entry → Node → ℕ → Result (Expr × ℕ)
interpret_expr m symbols (Node.arith_expr op left right) n = do
  l ← interpret_expr m symbols left (new_expr n).1
  r ← interpret_expr m symbols right l.1
  return_if (not (same_kind (type_of l.0) (type_of r.0))) type_err
  write (new_expr n).0 (Expr.comp_expr (type_of l.0) op l.0 r.0) r.1
interpret_expr m symbols (Node.aggr_expr fn attr) n = do
  a ← interpret_aggr_attr m symbols fn attr
  k ← type_of_attr m symbols a
  write (new_expr n).0 (Expr.aggr_expr (get_output_type fn k) fn a) (new_expr n).1
interpret_expr m symbols (Node.const_val v) n =
    write (new_expr n).0 (Expr.const_val v) (new_expr n).1
interpret_expr m symbols (Node.attr_ref attr) n = do
  a ← interpret_attr m symbols attr
  k ← type_of_attr m symbols a
  write (new_expr n).0 (Expr.attr_ref k a) (new_expr n).1
interpret_expr m symbols Node.other_node n = err fail

-- `interpretCondn`
pub interpret_condn : TableManager → List Entry → Condn → ℕ → Result (BExpr × ℕ)
interpret_condn m symbols c n = do
  l ← interpret_expr m symbols c.left_expr n
  r ← interpret_expr m symbols c.right_expr l.1
  return_if (not (same_kind (type_of l.0) (type_of r.0))) type_err
  ok (record { op = c.op; left = l.0; right = r.0 }, r.1)

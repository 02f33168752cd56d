-- ===== src/Semantic/Clauses.antt =====
-- AQSIOSCoordinator/src/querygen/sem_interp.cc, the WHERE, GROUP BY and SELECT clauses, and the
-- interpretation of a whole query. The query object of the caller is filled in; the fields that a
-- call leaves alone keep their values, and so does the local variable `semWin`, whose first value
-- is undefined: both are arguments. What is in the query object after an error code is dropped.
pub mod Bounds
pub mod Star
pub mod Compatible
pub mod Whole
pub mod Binary
use p.Common.{
  ℕ, zero, suc, ◌+◌, Bool, true, false, Option, none, some, List, [], ◌∷◌, ◌++◌, ◌==◌, leb, Result,
  ok, err, fail, unknown_table_err, schema_mismatch_err, ◌>>=◌, ◌>>◌, return_if, or_err, or_fault,
  get_elem?, length, not, if◌then◌else◌, String,
}
use p.Metadata.Types.{same_kind}
use p.Metadata.Tables.{TableManager, get_table_id, get_num_attrs, get_attr_type}
use p.Parser.Nodes.{
  AttrRef, Node, Condn, SelectClause, SfwBlock, BinOp, union_node, except_node, Body, sfw_block,
  bin_op, ContQuery, RelToStrOp,
}
use p.Semantic.Query.{
  Attr, Expr, BExpr, WindowSpec, Query, R2SOp, max_pred, max_proj, max_group_attrs, sfw_query,
  binary_op, BinaryOp,
}
use p.Semantic.Scope.{Entry, interpret_attr, add_symbols, tables_of}
use p.Semantic.Exprs.{interpret_expr, interpret_condn, new_expr, write}
use p.Semantic.Windows.{from_clause}

-- The loop of `interpretWhereClause`
pub where_clause : TableManager → List Entry → List Condn → List BExpr → ℕ → Result (List BExpr × ℕ)
where_clause m symbols [] done n = ok (done, n)
where_clause m symbols (c ∷ cs) done n = do
  b ← interpret_condn m symbols c n
  return_if (leb max_pred (length done)) fail
  where_clause m symbols cs (done ++ b.0 ∷ []) b.1

-- The loop of `interpretGroupByClause`
pub group_by_clause : TableManager → List Entry → List AttrRef → List Attr → Result (List Attr)
group_by_clause m symbols [] done = ok done
group_by_clause m symbols (r ∷ rs) done = do
  a ← interpret_attr m symbols r
  return_if (leb max_group_attrs (length done)) fail
  group_by_clause m symbols rs (done ++ a ∷ [])

-- The inner loop of `interpretStarInSelect`: `k` attributes are left, from `id` on.
pub star_attrs : TableManager → ℕ → ℕ → ℕ → ℕ → List Expr → ℕ → Result (List Expr × ℕ)
star_attrs m v table zero id done n = ok (done, n)
star_attrs m v table (suc k) id done n = do
  return_if (leb max_proj (length done)) fail
  t ← get_attr_type m table id
  e ← write (new_expr n).0 (Expr.attr_ref t (record { var_id = v; attr_id = id })) (new_expr n).1
  star_attrs m v table k (suc id) (done ++ e.0 ∷ []) e.1

-- The outer loop, over the variables of the FROM clause.
pub star : TableManager → List ℕ → List ℕ → List Expr → ℕ → Result (List Expr × ℕ)
star m ref_tables [] done n = ok (done, n)
star m ref_tables (v ∷ vs) done n = do
  table ← or_fault (get_elem? ref_tables v)
  k ← get_num_attrs m table
  r ← star_attrs m v table k 0 done n
  star m ref_tables vs r.0 r.1

-- The loop of `interpretSelectClause`
pub proj_terms : TableManager → List Entry → List Node → List Expr → ℕ → Result (List Expr × ℕ)
proj_terms m symbols [] done n = ok (done, n)
proj_terms m symbols (e ∷ es) done n = do
  r ← interpret_expr m symbols e n
  return_if (leb max_proj (length done)) fail
  proj_terms m symbols es (done ++ r.0 ∷ []) r.1

-- `interpretSelectClause`: with no term the query was a `SELECT *`.
pub select_clause : TableManager → List Entry → List ℕ → List Node → ℕ → Result (List Expr × ℕ)
select_clause m symbols vars [] n = star m (tables_of symbols) vars [] n
select_clause m symbols vars (e ∷ es) n = proj_terms m symbols (e ∷ es) [] n

-- `interpretR2SOp`
pub interpret_r2s_op : Option RelToStrOp → Query → Query
interpret_r2s_op (some RelToStrOp.istream) q = record q {
  b_rel_to_str = true;
  r2s_op = R2SOp.istream;
}
interpret_r2s_op (some RelToStrOp.dstream) q = record q {
  b_rel_to_str = true;
  r2s_op = R2SOp.dstream;
}
interpret_r2s_op (some RelToStrOp.rstream) q = record q {
  b_rel_to_str = true;
  r2s_op = R2SOp.rstream;
}
interpret_r2s_op none q = record q { b_rel_to_str = false }

-- The loop of `schemaCompatible`: `k` attributes are left, from `a` on.
pub same_types : TableManager → ℕ → ℕ → ℕ → ℕ → Result Bool
same_types m table1 table2 zero a = ok true
same_types m table1 table2 (suc k) a = do
  t ← get_attr_type m table1 a
  u ← get_attr_type m table2 a
  let rest = same_types m table1 table2 k (suc a)
  if same_kind t u then rest else ok false

pub schema_compatible : TableManager → ℕ → ℕ → Result Bool
unfolding same_types
schema_compatible m table1 table2 = do
  n ← get_num_attrs m table1
  k ← get_num_attrs m table2
  if n == k then same_types m table1 table2 n 0 else ok false

-- `interpretQuery` on a select-from-where block
pub interpret_sfw : TableManager → WindowSpec → SfwBlock → Option RelToStrOp → Query → Result Query
interpret_sfw m sem_win b r2s q = do
  symbols ← add_symbols m [] b.rel_list
  from ← from_clause m symbols b.rel_list [] [] sem_win
  preds ← where_clause m symbols b.condition_list [] 0
  gby ← group_by_clause m symbols b.group_list []
  proj ← select_clause m symbols from.0 b.select_clause.proj_term_list preds.1
  let q' = interpret_r2s_op r2s q
  ok (record q' {
    kind = sfw_query;
    ref_tables = tables_of symbols;
    from_clause_tables = from.0;
    win_spec = from.1;
    preds = preds.0;
    gby_attrs = gby;
    proj_exprs = proj.0;
    b_distinct = b.select_clause.b_distinct;
  })

abbrev operand_names : BinOp → String × String × BinaryOp
operand_names (union_node l r) = (l, r, BinaryOp.union)
operand_names (except_node l r) = (l, r, BinaryOp.except)

-- `interpretQuery` on a binary operator
pub interpret_bin_op : TableManager → BinOp → Option RelToStrOp → Query → Result Query
interpret_bin_op m b r2s q = do
  left ← or_err (get_table_id m (operand_names b).0) unknown_table_err
  right ← or_err (get_table_id m (operand_names b).1) unknown_table_err
  same ← schema_compatible m left right
  return_if (not same) schema_mismatch_err
  let q' = interpret_r2s_op r2s q
  ok (record q' {
    kind = binary_op;
    ref_tables = left ∷ right ∷ [];
    left_table = 0;
    right_table = 1;
    bin_op = (operand_names b).2;
  })

-- `SemanticInterpreter::interpretQuery`
pub interpret_query : TableManager → WindowSpec → ContQuery → Query → Result Query
interpret_query m sem_win c q = elim c.body [
  | sfw_block b ↦ interpret_sfw m sem_win b c.reltostr_op q
  | bin_op b ↦ interpret_bin_op m b c.reltostr_op q
]

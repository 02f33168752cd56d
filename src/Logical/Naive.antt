-- ===== src/Logical/Naive.antt =====
-- AQSIOSCoordinator/src/querygen/log_naive_plan_gen.cc: the translation of attributes and
-- expressions, the FROM and WHERE clauses, and the aggregations that a query names. `l_Query` and
-- `l_tableMgr` are arguments.
pub mod Bounds
pub mod Aggregations
pub mod Translate
pub mod Quiet
use p.Common.{
  ℕ, zero, suc, ◌+◌, Bool, true, false, Option, none, some, List, [], ◌∷◌, ◌++◌, ◌==◌, Result, ok,
  err, fault, fail, or_fault, length, get_elem?, if◌then◌else◌, ◌&&◌, ltb,
}
use p.Metadata.Types.{Kind, AggrFn, fn_code}
use p.Metadata.Tables.{TableManager, is_stream}
use p.Parser.Nodes.{Value}
use p.Semantic.Query as Semantic
use p.Semantic.Query.{Query, WindowSpec, R2SOp, BinaryOp, sfw_query, binary_op}
use p.Logical.Plan
use p.Logical.Plan.{Attr, named, aggr, Expr, BExpr, same_attr, max_aggr_attrs}
use p.Logical.Pool.{
  M, Ptr, Pool, pure, fails, faults, lift, empty_pool, mk_const_expr, mk_attr_expr, mk_comp_expr,
  ◌>>=◌, ◌>>◌,
}
use p.Logical.Operators.{
  mk_stream_source, mk_reln_source, mk_range_window, mk_row_window, mk_now_window, mk_partn_window,
  mk_select, mk_project, mk_group_aggr, mk_distinct, mk_istream, mk_dstream, mk_rstream,
  partn_window_add_attr, add_project_expr, add_group_attr, add_aggr, mk_cross, cross_add_input,
}
use p.Logical.Joins.{mk_union, mk_except}

-- `transformAttr`: `refs` is `refTables`.
unfoldable pub transform_attr : List ℕ → Semantic.Attr → M Attr
transform_attr refs a =
    lift (or_fault (get_elem? refs a.var_id)) >>= λ t. pure (named a.var_id t a.attr_id)

-- `transformAggrAttr`
unfoldable pub transform_aggr_attr : List ℕ → AggrFn → Semantic.Attr → M Attr
transform_aggr_attr refs fn a =
    lift (or_fault (get_elem? refs a.var_id)) >>= λ t. pure (aggr a.var_id t a.attr_id fn)

-- `transformExpr`, with `transformConstVal`; `none` is null.
unfoldable pub transform_expr : List ℕ → Semantic.Expr → M (Option Expr)
transform_expr refs (Semantic.const_val v) = mk_const_expr v
transform_expr refs (Semantic.attr_ref k a) = transform_attr refs a >>= λ x. mk_attr_expr x k
transform_expr refs (Semantic.aggr_expr k fn a) =
    transform_aggr_attr refs fn a >>= λ x. mk_attr_expr x k
transform_expr refs (Semantic.comp_expr k op l r) =
    transform_expr refs l >>= λ x. transform_expr refs r >>= λ y. mk_comp_expr op x y

-- `transformBExpr`
unfoldable pub transform_bexpr : List ℕ → Semantic.BExpr → M BExpr
transform_bexpr refs b = transform_expr refs b.left >>= λ l.
    transform_expr refs b.right >>= λ r. pure (record { op = b.op; left = l; right = r })

-- `return (op)? 0 : -1;`
abbrev pub or_fail : Ptr → M Ptr
or_fail none = fails fail
or_fail (some p) = pure (some p)

-- `getSource_n`
unfoldable pub get_source : TableManager → ℕ → ℕ → M Ptr
get_source m v t = lift (is_stream m t) >>= λ flag.
    (if flag then mk_stream_source m v t else mk_reln_source m v t) >>= or_fail

-- The attributes of a partition window; what `partn_window_add_attr` returns is ignored.
pub add_partn_attrs : List ℕ → Ptr → List Semantic.Attr → M Ptr
add_partn_attrs refs p [] = pure p
add_partn_attrs refs p (a ∷ attrs) =
    transform_attr refs a >>= λ x. partn_window_add_attr p x >>= λ q. add_partn_attrs refs p attrs

-- `applyWindow_n`
unfoldable pub apply_window : List ℕ → WindowSpec → Ptr → M Ptr
apply_window refs (WindowSpec.range n) input = mk_range_window input n
apply_window refs (WindowSpec.row n) input = mk_row_window input n
apply_window refs (WindowSpec.partition n attrs) input =
    mk_partn_window input n >>= λ p. add_partn_attrs refs p attrs
apply_window refs WindowSpec.now input = mk_now_window input
apply_window refs WindowSpec.unbounded input = pure input

-- The plan of one table of the FROM clause.
unfoldable pub table_plan : TableManager → List ℕ → ℕ → WindowSpec → M Ptr
table_plan m refs v win = lift (or_fault (get_elem? refs v)) >>= λ t. get_source m v t >>= λ src.
    lift (is_stream m t) >>= λ flag. if flag then apply_window refs win src else pure src

-- The loop of `joinTables_n`
unfoldable pub cross_tables : TableManager → List ℕ → Ptr → List ℕ → List WindowSpec → M Ptr
cross_tables m refs c [] wins = pure c
cross_tables m refs c (v ∷ vs) [] = faults
cross_tables m refs c (v ∷ vs) (win ∷ wins) = table_plan m refs v win >>= λ p.
    (cross_add_input c p >>= or_fail) >>= λ c'. cross_tables m refs c' vs wins

-- `joinTables_n`
unfoldable pub join_tables : TableManager → List ℕ → List ℕ → List WindowSpec → M Ptr
join_tables m refs [] wins = faults
join_tables m refs (v ∷ []) [] = faults
join_tables m refs (v ∷ []) (win ∷ wins) = table_plan m refs v win
join_tables m refs (v ∷ u ∷ vs) wins =
    (mk_cross >>= or_fail) >>= λ c. cross_tables m refs c (v ∷ u ∷ vs) wins

-- `applyPreds_n`
unfoldable pub apply_preds : List ℕ → List Semantic.BExpr → Ptr → M Ptr
apply_preds refs [] p = pure p
apply_preds refs (b ∷ bs) p =
    transform_bexpr refs b >>= λ x. (mk_select p x >>= or_fail) >>= λ q. apply_preds refs bs q

-- Whether the list of aggregations has an entry.
abbrev pub has_aggr : AggrFn → Attr → List (AggrFn × Attr) → Bool
has_aggr fn a [] = false
has_aggr fn a ((g, b) ∷ rest) =
    if same_attr b a && fn_code g == fn_code fn then true else has_aggr fn a rest

-- `collectAggrs`
unfoldable pub collect_aggrs :
    List ℕ → Semantic.Expr → List (AggrFn × Attr) → M (List (AggrFn × Attr))
collect_aggrs refs (Semantic.const_val v) done = pure done
collect_aggrs refs (Semantic.attr_ref k a) done = pure done
collect_aggrs refs (Semantic.aggr_expr k fn a) done = transform_attr refs a >>= λ x.
    if has_aggr fn x done
    then pure done
    else if length done == max_aggr_attrs
    then fails fail
    else pure (done ++ (fn, x) ∷ [])
collect_aggrs refs (Semantic.comp_expr k op l r) done =
    collect_aggrs refs l done >>= λ d. collect_aggrs refs r d

unfoldable pub collect_all :
    List ℕ → List Semantic.Expr → List (AggrFn × Attr) → M (List (AggrFn × Attr))
collect_all refs [] done = pure done
collect_all refs (e ∷ es) done = collect_aggrs refs e done >>= λ d. collect_all refs es d

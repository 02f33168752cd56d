-- ===== src/Logical/Generate.antt =====
-- AQSIOSCoordinator/src/querygen/log_naive_plan_gen.cc: the operators over the join, and the naive
-- plan of a whole query. A plan is a pointer, which may be null although the call succeeds.
pub mod Bounds
pub mod Project
use p.Common.{
  ℕ, Bool, true, false, Option, none, some, List, [], ◌∷◌, ◌==◌, ok, err, fault, fail, or_fault,
  length, get_elem?, if◌then◌else◌, ◌&&◌,
}
use p.Metadata.Types.{AggrFn}
use p.Metadata.Tables.{TableManager}
use p.Semantic.Query as Semantic
use p.Semantic.Query.{Query, R2SOp, BinaryOp, sfw_query, binary_op}
use p.Logical.Plan.{Attr}
use p.Logical.Pool.{M, Ptr, Pool, pure, fails, lift, empty_pool, ◌>>=◌}
use p.Logical.Operators.{
  mk_project, mk_group_aggr, mk_distinct, mk_istream, mk_dstream, mk_rstream, add_project_expr,
  add_group_attr, add_aggr,
}
use p.Logical.Joins.{mk_union, mk_except}
use p.Logical.Naive.{
  transform_attr, transform_expr, or_fail, get_source, join_tables, apply_preds, collect_all,
}

unfoldable pub add_groups : List ℕ → List Semantic.Attr → Ptr → M Ptr
add_groups refs [] p = pure p
add_groups refs (a ∷ attrs) p =
    transform_attr refs a >>= λ x. add_group_attr p x >>= λ q. add_groups refs attrs q

unfoldable pub add_aggrs : List (AggrFn × Attr) → Ptr → M Ptr
add_aggrs [] p = pure p
add_aggrs ((fn, a) ∷ rest) p = add_aggr p fn a >>= λ q. add_aggrs rest q

-- `applyAggr_n`
unfoldable pub apply_aggr : List ℕ → List Semantic.Attr → List Semantic.Expr → Ptr → M Ptr
apply_aggr refs groups es p = collect_all refs es [] >>= λ aggrs.
    if length aggrs == 0 && length groups == 0
    then pure p
    else (mk_group_aggr p >>= or_fail) >>= λ q. add_groups refs groups q >>= λ r. add_aggrs aggrs r

-- The loop of `doProjs_n`; nobody looks whether `add_project_expr` returns null.
unfoldable pub add_projs : List ℕ → List Semantic.Expr → Ptr → M Ptr
add_projs refs [] p = pure p
add_projs refs (e ∷ es) p =
    transform_expr refs e >>= λ x. add_project_expr p x >>= λ q. add_projs refs es q

-- `doProjs_n`
unfoldable pub do_projs : List ℕ → List Semantic.Expr → Ptr → M Ptr
do_projs refs es p = (mk_project p >>= or_fail) >>= λ q. add_projs refs es q

-- `applyDistinct_n`
unfoldable pub apply_distinct : Bool → Ptr → M Ptr
apply_distinct true p = mk_distinct p >>= or_fail
apply_distinct false p = or_fail p

-- `applyR2SOps_n`
unfoldable pub apply_r2s_ops : Bool → R2SOp → Ptr → M Ptr
apply_r2s_ops false op p = pure p
apply_r2s_ops true R2SOp.istream p = mk_istream p >>= or_fail
apply_r2s_ops true R2SOp.dstream p = mk_dstream p >>= or_fail
apply_r2s_ops true R2SOp.rstream p = mk_rstream p >>= or_fail

-- `genSFWPlan_n`
unfoldable pub gen_sfw_plan : TableManager → Query → M Ptr
gen_sfw_plan m q = join_tables m q.ref_tables q.from_clause_tables q.win_spec >>= λ join.
    apply_preds q.ref_tables q.preds join >>= λ select.
    apply_aggr q.ref_tables q.gby_attrs q.proj_exprs select >>= λ aggr.
    do_projs q.ref_tables q.proj_exprs aggr >>= λ project.
    apply_distinct q.b_distinct project >>= λ distinct.
    apply_r2s_ops q.b_rel_to_str q.r2s_op distinct

-- `genBinOpPlan_n`: both sources get the variable 0.
pub gen_bin_op_plan : TableManager → Query → M Ptr
gen_bin_op_plan m q = lift (or_fault (get_elem? q.ref_tables 0)) >>= λ left.
    get_source m 0 left >>= λ l. lift (or_fault (get_elem? q.ref_tables 1)) >>= λ right.
    get_source m 0 right >>= λ r.
    (elim q.bin_op [ BinaryOp.union ↦ mk_union m l r | BinaryOp.except ↦ mk_except m l r ])
    >>= λ op. apply_r2s_ops q.b_rel_to_str q.r2s_op op

-- `LogPlanGen::genPlan_n`: both pools are emptied first.
unfoldable pub gen_plan : TableManager → Query → M Ptr
gen_plan m q s = elim q.kind [
  | sfw_query ↦ gen_sfw_plan m q empty_pool
  | binary_op ↦ gen_bin_op_plan m q empty_pool
]

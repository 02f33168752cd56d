-- ===== src/Logical/Generate/Bounds.antt =====
-- The plan of a whole query: the pool that it is built in is well formed, whatever the query.
use p.Common.{
  ℕ, ◌≡◌, refl, subst, Bool, true, false, List, [], ◌∷◌, ◌==◌, ◌&&◌, ok, or_fault, arith, length,
  get_elem?, Bool-cases, inl, inr,
}
use p.Metadata.Types.{AggrFn}
use p.Metadata.Tables.{TableManager}
use p.Metadata.Tables.Invariant.{IsValid}
use p.Semantic.Query as Semantic
use p.Semantic.Query.{Query, QueryType, R2SOp, BinaryOp}
use p.Logical.Plan.{Attr, OperatorKind}
use p.Logical.Pool.{M, Ptr, Pool, lift, empty_pool, ◌>>=◌}
use p.Logical.Pool.Invariant.{Points, Points-grow, IsPool, Keeps, Keeps->>=, Any}
use p.Logical.Operators.{
  mk_project, mk_group_aggr, mk_distinct, mk_istream, mk_dstream, mk_rstream, add_project_expr,
  add_group_attr, add_aggr,
}
use p.Logical.Operators.Bounds.{
  mk_over-Keeps, add_project_expr-Keeps, add_group_attr-Keeps, add_aggr-Keeps,
}
use p.Logical.Joins.{mk_union, mk_except}
use p.Logical.Joins.Bounds.{mk_union-Keeps, mk_except-Keeps}
use p.Logical.Naive.{
  transform_attr, transform_expr, or_fail, get_source, join_tables, apply_preds, collect_all,
}
use p.Logical.Naive.Aggregations.{collect_all-Keeps}
use p.Logical.Naive.Bounds.{
  lift-Keeps, or_fail-Keeps, then_or_fail-Keeps, transform_attr-Keeps, transform_expr-Keeps,
  apply_preds-Keeps, get_source-Keeps, join_tables-Keeps,
}
use p.Logical.Generate.{
  add_groups, add_aggrs, apply_aggr, add_projs, do_projs, apply_distinct, apply_r2s_ops,
  gen_sfw_plan, gen_bin_op_plan, gen_plan,
}

add_groups-Keeps :
    (refs : List ℕ) (attrs : List Semantic.Attr) (p : Ptr) (s : Pool)
    → IsPool s
    → Points (length s.ops) p
    → Keeps Points s (add_groups refs attrs p s)
unfolding add_groups
add_groups-Keeps refs [] p s h q = (h, omega arith, q)
add_groups-Keeps refs (a ∷ attrs) p s h q =
    Keeps->>= Any Points s (transform_attr refs a) _ (transform_attr-Keeps refs a s h)
      λ x t h' le _.
        Keeps->>= Points Points t (add_group_attr p x) _
          (add_group_attr-Keeps p t h' (Points-grow _ _ p le q) x)
          λ r u h'' le' q'. add_groups-Keeps refs attrs r u h'' q'

add_aggrs-Keeps :
    (aggrs : List (AggrFn × Attr)) (p : Ptr) (s : Pool)
    → IsPool s
    → Points (length s.ops) p
    → Keeps Points s (add_aggrs aggrs p s)
unfolding add_aggrs
add_aggrs-Keeps [] p s h q = (h, omega arith, q)
add_aggrs-Keeps ((fn, a) ∷ rest) p s h q =
    Keeps->>= Points Points s (add_aggr p fn a) _ (add_aggr-Keeps p s h q fn a)
      λ r t h' le q'. add_aggrs-Keeps rest r t h' q'

apply_aggr-Keeps :
    (refs : List ℕ) (groups : List Semantic.Attr) (es : List Semantic.Expr) (p : Ptr) (s : Pool)
    → IsPool s
    → Points (length s.ops) p
    → Keeps Points s (apply_aggr refs groups es p s)
unfolding apply_aggr
apply_aggr-Keeps refs groups es p s h q =
    Keeps->>= Any Points s (collect_all refs es []) _ (collect_all-Keeps refs es [] s h)
      λ aggrs t h1 le _. elim (Bool-cases (length aggrs == 0 && length groups == 0)) [
        | inl none_at_all ↦ rw none_at_all (h1, omega arith, Points-grow _ _ p le q)
        | inr some_of ↦ rw some_of (
            Keeps->>= Points Points t (mk_group_aggr p >>= or_fail) _
              (then_or_fail-Keeps (mk_group_aggr p) t (
                mk_over-Keeps (OperatorKind.group_aggr [] [] []) _ _ p t
                  (λ xs few. (omega arith, (omega arith, omega arith, refl, omega arith))) h1
                  (Points-grow _ _ p le q)))
              λ r u h2 _ q2.
                Keeps->>= Points Points u (add_groups refs groups r) _
                  (add_groups-Keeps refs groups r u h2 q2)
                  λ x w h3 _ q3. add_aggrs-Keeps aggrs x w h3 q3)
      ]

add_projs-Keeps :
    (refs : List ℕ) (es : List Semantic.Expr) (p : Ptr) (s : Pool)
    → IsPool s
    → Points (length s.ops) p
    → Keeps Points s (add_projs refs es p s)
unfolding add_projs
add_projs-Keeps refs [] p s h q = (h, omega arith, q)
add_projs-Keeps refs (e ∷ es) p s h q =
    Keeps->>= Any Points s (transform_expr refs e) _ (transform_expr-Keeps refs e s h)
      λ x t h' le _.
        Keeps->>= Points Points t (add_project_expr p x) _
          (add_project_expr-Keeps p t h' (Points-grow _ _ p le q) x)
          λ r u h'' le' q'. add_projs-Keeps refs es r u h'' q'

do_projs-Keeps :
    (refs : List ℕ) (es : List Semantic.Expr) (p : Ptr) (s : Pool)
    → IsPool s
    → Points (length s.ops) p
    → Keeps Points s (do_projs refs es p s)
unfolding do_projs
do_projs-Keeps refs es p s h q =
    Keeps->>= Points Points s (mk_project p >>= or_fail) _
      (then_or_fail-Keeps (mk_project p) s (
        mk_over-Keeps (OperatorKind.project []) _ _ p s (λ xs few. (omega arith, omega arith)) h q))
      λ r t h' le q'. add_projs-Keeps refs es r t h' q'

module _ (p : Ptr) (s : Pool) (h : IsPool s) (q : Points (length s.ops) p) where
  apply_distinct-Keeps : (b : Bool) → Keeps Points s (apply_distinct b p s)
  unfolding apply_distinct
  apply_distinct-Keeps true =
      then_or_fail-Keeps (mk_distinct p) s
        (mk_over-Keeps OperatorKind.distinct _ _ p s (λ xs few. (few, tt)) h q)
  apply_distinct-Keeps false = or_fail-Keeps p s h q

  apply_r2s_ops-Keeps : (b : Bool) (op : R2SOp) → Keeps Points s (apply_r2s_ops b op p s)
  unfolding apply_r2s_ops
  apply_r2s_ops-Keeps false op = (h, omega arith, q)
  apply_r2s_ops-Keeps true R2SOp.istream =
      then_or_fail-Keeps (mk_istream p) s
        (mk_over-Keeps OperatorKind.istream _ _ p s (λ xs few. (few, tt)) h q)
  apply_r2s_ops-Keeps true R2SOp.dstream =
      then_or_fail-Keeps (mk_dstream p) s
        (mk_over-Keeps OperatorKind.dstream _ _ p s (λ xs few. (few, tt)) h q)
  apply_r2s_ops-Keeps true R2SOp.rstream =
      then_or_fail-Keeps (mk_rstream p) s
        (mk_over-Keeps OperatorKind.rstream _ _ p s (λ xs few. (few, tt)) h q)

empty_pool-IsPool : IsPool empty_pool
empty_pool-IsPool = record { few_ops = omega arith; few_exprs = omega arith; each = tt }

module _ (m : TableManager) (valid : IsValid m) (q : Query) (s : Pool) (h : IsPool s) where
  gen_sfw_plan-Keeps : Keeps Points s (gen_sfw_plan m q s)
  unfolding gen_sfw_plan
  gen_sfw_plan-Keeps =
      Keeps->>= Points Points s (join_tables m q.ref_tables q.from_clause_tables q.win_spec) _
        (join_tables-Keeps m valid q.ref_tables q.from_clause_tables q.win_spec s h)
        λ join s1 h1 _ p1.
          Keeps->>= Points Points s1 (apply_preds q.ref_tables q.preds join) _
            (apply_preds-Keeps q.ref_tables q.preds join s1 h1 p1)
            λ select s2 h2 _ p2.
              Keeps->>= Points Points s2 (apply_aggr q.ref_tables q.gby_attrs q.proj_exprs select) _
                (apply_aggr-Keeps q.ref_tables q.gby_attrs q.proj_exprs select s2 h2 p2)
                λ aggr s3 h3 _ p3.
                  Keeps->>= Points Points s3 (do_projs q.ref_tables q.proj_exprs aggr) _
                    (do_projs-Keeps q.ref_tables q.proj_exprs aggr s3 h3 p3)
                    λ project s4 h4 _ p4.
                      Keeps->>= Points Points s4 (apply_distinct q.b_distinct project) _
                        (apply_distinct-Keeps project s4 h4 p4 q.b_distinct)
                        λ distinct s5 h5 _ p5.
                          apply_r2s_ops-Keeps distinct s5 h5 p5 q.b_rel_to_str q.r2s_op

  gen_bin_op_plan-Keeps : Keeps Points s (gen_bin_op_plan m q s)
  unfolding gen_bin_op_plan
  gen_bin_op_plan-Keeps =
      Keeps->>= Any Points s (lift (or_fault (get_elem? q.ref_tables 0))) _ (lift-Keeps _ s h)
        λ left s1 h1 _ _.
          Keeps->>= Points Points s1 (get_source m 0 left) _ (get_source-Keeps m valid 0 left s1 h1)
            λ l s2 h2 _ p2.
              Keeps->>= Any Points s2 (lift (or_fault (get_elem? q.ref_tables 1))) _
                (lift-Keeps _ s2 h2)
                λ right s3 h3 le3 _.
                  Keeps->>= Points Points s3 (get_source m 0 right) _
                    (get_source-Keeps m valid 0 right s3 h3)
                    λ r s4 h4 le4 p4.
                      Keeps->>= Points Points s4
                        (elim q.bin_op as (λ _. M Ptr) [
                          | BinaryOp.union ↦ mk_union m l r
                          | BinaryOp.except ↦ mk_except m l r
                        ])
                        _
                        (joined q.bin_op l r s4 h4 (Points-grow _ _ l (omega (arith, le3, le4)) p2)
                          p4)
                        λ op s5 h5 _ p5. apply_r2s_ops-Keeps op s5 h5 p5 q.b_rel_to_str q.r2s_op
    where
      joined :
          (b : BinaryOp) (l r : Ptr) (t : Pool)
          → IsPool t
          → Points (length t.ops) l
          → Points (length t.ops) r
          → Keeps Points t (
              (elim b as (λ _. M Ptr) [
                | BinaryOp.union ↦ mk_union m l r
                | BinaryOp.except ↦ mk_except m l r
              ])
                t)
      joined BinaryOp.union l r t h p p' = mk_union-Keeps m l r t h p p'
      joined BinaryOp.except l r t h p p' = mk_except-Keeps m l r t h p p'

pub gen_plan-Keeps :
    (m : TableManager) (q : Query) (s : Pool) → IsValid m → Keeps Points empty_pool (gen_plan m q s)
unfolding gen_plan
gen_plan-Keeps m q s valid = kept q.kind
  where
    kept :
        (k : QueryType)
        → Keeps Points empty_pool (elim k [
          | QueryType.sfw_query ↦ gen_sfw_plan m q empty_pool
          | QueryType.binary_op ↦ gen_bin_op_plan m q empty_pool
        ])
    kept QueryType.sfw_query = gen_sfw_plan-Keeps m valid q empty_pool empty_pool-IsPool
    kept QueryType.binary_op = gen_bin_op_plan-Keeps m valid q empty_pool empty_pool-IsPool

-- Over a well-formed registry, whatever the query and whatever the pools hold before, a naive
-- plan that is returned stands in a well-formed pool: there are no more operators and expressions
-- than the pools hold, every input and output of an operator is one of the operators of the pool,
-- no array of an operator is overrun, and the plan itself is null or one of the operators of the
-- pool.
pub gen_plan-IsPool :
    (m : TableManager) (q : Query) (s s' : Pool) (p : Ptr)
    → IsValid m
    → gen_plan m q s ≡ ok (p, s')
    → IsPool s' × Points (length s'.ops) p
gen_plan-IsPool m q s s' p valid e =
    let k = subst (Keeps Points empty_pool) e (gen_plan-Keeps m q s valid) in (k.0, k.2)

-- ===== src/Logical/Naive/Aggregations.antt =====
-- Collecting the aggregations of a query keeps the invariant of the pool.
use p.Common.{ℕ, List, [], ◌∷◌, ◌==◌, arith, length, Bool-cases, inl, inr}
use p.Metadata.Types.{AggrFn}
use p.Semantic.Query as Semantic
use p.Logical.Plan.{Attr, max_aggr_attrs}
use p.Logical.Pool.{Pool}
use p.Logical.Pool.Invariant.{IsPool, Keeps, Keeps->>=, Any}
use p.Logical.Naive.{transform_attr, collect_aggrs, collect_all, has_aggr}
use p.Logical.Naive.Bounds.{transform_attr-Keeps}

collect_aggrs-Keeps :
    (refs : List ℕ) (e : Semantic.Expr) (done : List (AggrFn × Attr)) (s : Pool)
    → IsPool s
    → Keeps Any s (collect_aggrs refs e done s)
unfolding collect_aggrs
collect_aggrs-Keeps refs (Semantic.const_val v) done s h = (h, omega arith, tt)
collect_aggrs-Keeps refs (Semantic.attr_ref k a) done s h = (h, omega arith, tt)
collect_aggrs-Keeps refs (Semantic.aggr_expr k fn a) done s h =
    Keeps->>= Any Any s (transform_attr refs a) _ (transform_attr-Keeps refs a s h) λ x t h' le _.
      elim (Bool-cases (has_aggr fn x done)) [
        | inl known ↦ rw known (h', omega arith, tt)
        | inr new ↦ elim (Bool-cases (length done == max_aggr_attrs)) [
          | inl full ↦ rw (new, full) tt
          | inr room ↦ rw (new, room) (h', omega arith, tt)
        ]
      ]
collect_aggrs-Keeps refs (Semantic.comp_expr k op l r) done s h =
    Keeps->>= Any Any s (collect_aggrs refs l done) _ (collect_aggrs-Keeps refs l done s h)
      λ d t h' le _. collect_aggrs-Keeps refs r d t h'

pub collect_all-Keeps :
    (refs : List ℕ) (es : List Semantic.Expr) (done : List (AggrFn × Attr)) (s : Pool)
    → IsPool s
    → Keeps Any s (collect_all refs es done s)
unfolding collect_all
collect_all-Keeps refs [] done s h = (h, omega arith, tt)
collect_all-Keeps refs (e ∷ es) done s h =
    Keeps->>= Any Any s (collect_aggrs refs e done) _ (collect_aggrs-Keeps refs e done s h)
      λ d t h' le _. collect_all-Keeps refs es d t h'

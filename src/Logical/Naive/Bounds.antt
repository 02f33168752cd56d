-- ===== src/Logical/Naive/Bounds.antt =====
-- The plans of the FROM and WHERE clauses keep the invariant of the pool.
use p.Common.{
  ℕ, Bool, true, false, none, some, List, [], ◌∷◌, Result, ok, err, fault, or_fault, arith, length,
  get_elem?, if◌then◌else◌,
}
use p.Metadata.Types.{AggrFn}
use p.Metadata.Tables.{TableManager, is_stream}
use p.Metadata.Tables.Invariant.{IsValid}
use p.Logical.Plan.{Expr, OperatorKind}
use p.Logical.Pool.{M, Ptr, Pool, pure, lift, ◌>>=◌}
use p.Logical.Pool.Invariant.{Points, Points-grow, IsPool, Keeps, Keeps->>=, new_expr-Keeps, Any}
use p.Semantic.Query as Semantic
use p.Semantic.Query.{WindowSpec}
use p.Logical.Operators.{
  mk_partn_window, mk_stream_source, mk_reln_source, mk_cross, cross_add_input, mk_select,
  partn_window_add_attr,
}
use p.Logical.Operators.Bounds.{mk_over-Keeps, partn_window_add_attr-Keeps}
use p.Logical.Operators.Inputs.{
  mk_stream_source-Keeps, mk_reln_source-Keeps, mk_cross-Keeps, cross_add_input-Keeps,
}
use p.Logical.Naive.{
  transform_attr, transform_aggr_attr, transform_expr, transform_bexpr, or_fail, get_source,
  add_partn_attrs, apply_window, table_plan, cross_tables, join_tables, apply_preds,
}

-- A call that leaves the pool alone, whatever it returns.
pub lift-Keeps : {A : Type 0} (r : Result A) (s : Pool) → IsPool s → Keeps Any s (lift r s)
lift-Keeps (ok a) s h = (h, omega arith, tt)
lift-Keeps (err e) s h = tt
lift-Keeps fault s h = tt

pub or_fail-Keeps :
    (p : Ptr) (s : Pool) → IsPool s → Points (length s.ops) p → Keeps Points s (or_fail p s)
or_fail-Keeps none s h q = tt
or_fail-Keeps (some i) s h q = (h, omega arith, q)

-- `return (op)? 0 : -1;` after a constructor.
pub then_or_fail-Keeps :
    (m : M Ptr) (s : Pool) → Keeps Points s (m s) → Keeps Points s ((m >>= or_fail) s)
then_or_fail-Keeps m s k = Keeps->>= Points Points s m or_fail k λ p t h le q. or_fail-Keeps p t h q

pub transform_attr-Keeps :
    (refs : List ℕ) (a : Semantic.Attr) (s : Pool)
    → IsPool s
    → Keeps Any s (transform_attr refs a s)
unfolding transform_attr
transform_attr-Keeps refs a s h =
    Keeps->>= Any Any s (lift (or_fault (get_elem? refs a.var_id))) _ (lift-Keeps _ s h)
      λ t u h' le _. (h', omega arith, tt)

transform_aggr_attr-Keeps :
    (refs : List ℕ) (fn : AggrFn) (a : Semantic.Attr) (s : Pool)
    → IsPool s
    → Keeps Any s (transform_aggr_attr refs fn a s)
unfolding transform_aggr_attr
transform_aggr_attr-Keeps refs fn a s h =
    Keeps->>= Any Any s (lift (or_fault (get_elem? refs a.var_id))) _ (lift-Keeps _ s h)
      λ t u h' le _. (h', omega arith, tt)

pub transform_expr-Keeps :
    (refs : List ℕ) (e : Semantic.Expr) (s : Pool)
    → IsPool s
    → Keeps Any s (transform_expr refs e s)
unfolding transform_expr
transform_expr-Keeps refs (Semantic.const_val v) s h = new_expr-Keeps (ok (Expr.const_val v)) s h
transform_expr-Keeps refs (Semantic.attr_ref k a) s h =
    Keeps->>= Any Any s (transform_attr refs a) _ (transform_attr-Keeps refs a s h)
      λ x t h' le _. new_expr-Keeps (ok (Expr.attr_ref x k)) t h'
transform_expr-Keeps refs (Semantic.aggr_expr k fn a) s h =
    Keeps->>= Any Any s (transform_aggr_attr refs fn a) _ (transform_aggr_attr-Keeps refs fn a s h)
      λ x t h' le _. new_expr-Keeps (ok (Expr.attr_ref x k)) t h'
transform_expr-Keeps refs (Semantic.comp_expr k op l r) s h =
    Keeps->>= Any Any s (transform_expr refs l) _ (transform_expr-Keeps refs l s h) λ x t h' le _.
      Keeps->>= Any Any t (transform_expr refs r) _ (transform_expr-Keeps refs r t h')
        λ y u h'' le' _. new_expr-Keeps _ u h''

transform_bexpr-Keeps :
    (refs : List ℕ) (b : Semantic.BExpr) (s : Pool)
    → IsPool s
    → Keeps Any s (transform_bexpr refs b s)
unfolding transform_bexpr
transform_bexpr-Keeps refs b s h =
    Keeps->>= Any Any s (transform_expr refs b.left) _ (transform_expr-Keeps refs b.left s h)
      λ x t h' le _.
        Keeps->>= Any Any t (transform_expr refs b.right) _ (transform_expr-Keeps refs b.right t h')
          λ y u h'' le' _. (h'', omega arith, tt)

pub apply_preds-Keeps :
    (refs : List ℕ) (bs : List Semantic.BExpr) (p : Ptr) (s : Pool)
    → IsPool s
    → Points (length s.ops) p
    → Keeps Points s (apply_preds refs bs p s)
unfolding apply_preds
apply_preds-Keeps refs [] p s h q = (h, omega arith, q)
apply_preds-Keeps refs (b ∷ bs) p s h q =
    Keeps->>= Any Points s (transform_bexpr refs b) _ (transform_bexpr-Keeps refs b s h)
      λ x t h' le _.
        Keeps->>= Points Points t (mk_select p x >>= or_fail) _
          (then_or_fail-Keeps (mk_select p x) t (
            mk_over-Keeps (OperatorKind.select x) _ _ p t (λ xs few. (few, tt)) h'
              (Points-grow _ _ p le q)))
          λ r u h'' le' q'. apply_preds-Keeps refs bs r u h'' q'

add_partn_attrs-Keeps :
    (refs : List ℕ) (p : Ptr) (attrs : List Semantic.Attr) (s : Pool)
    → IsPool s
    → Points (length s.ops) p
    → Keeps Points s (add_partn_attrs refs p attrs s)
unfolding add_partn_attrs
add_partn_attrs-Keeps refs p [] s h q = (h, omega arith, q)
add_partn_attrs-Keeps refs p (a ∷ attrs) s h q =
    Keeps->>= Any Points s (transform_attr refs a) _ (transform_attr-Keeps refs a s h)
      λ x t h' le _.
        Keeps->>= Points Points t (partn_window_add_attr p x) _
          (partn_window_add_attr-Keeps p t h' (Points-grow _ _ p le q) x)
          λ r u h'' le' _.
            add_partn_attrs-Keeps refs p attrs u h'' (Points-grow _ _ p (omega (arith, le, le')) q)

apply_window-Keeps :
    (refs : List ℕ) (w : WindowSpec) (p : Ptr) (s : Pool)
    → IsPool s
    → Points (length s.ops) p
    → Keeps Points s (apply_window refs w p s)
unfolding apply_window
apply_window-Keeps refs (WindowSpec.range n) p s h q =
    mk_over-Keeps (OperatorKind.range_win n) _ _ p s (λ xs few. (few, tt)) h q
apply_window-Keeps refs (WindowSpec.row n) p s h q =
    mk_over-Keeps (OperatorKind.row_win n) _ _ p s (λ xs few. (few, tt)) h q
apply_window-Keeps refs (WindowSpec.partition n attrs) p s h q =
    Keeps->>= Points Points s (mk_partn_window p n) _
      (mk_over-Keeps (OperatorKind.partn_win [] n) _ _ p s (λ xs few. (few, omega arith)) h q)
      λ r t h' le q'. add_partn_attrs-Keeps refs r attrs t h' q'
apply_window-Keeps refs WindowSpec.now p s h q =
    mk_over-Keeps OperatorKind.now_win _ _ p s (λ xs few. (few, tt)) h q
apply_window-Keeps refs WindowSpec.unbounded p s h q = (h, omega arith, q)

module _ (m : TableManager) (valid : IsValid m) where
  pub get_source-Keeps : (v t : ℕ) (s : Pool) → IsPool s → Keeps Points s (get_source m v t s)
  unfolding get_source
  get_source-Keeps v t s h =
      Keeps->>= Any Points s (lift (is_stream m t)) _ (lift-Keeps _ s h)
        λ flag u h' le _. of flag u h'
    where
      of :
          (flag : Bool) (u : Pool)
          → IsPool u
          → Keeps Points u
              (((if flag then mk_stream_source m v t else mk_reln_source m v t) >>= or_fail) u)
      of true u h =
          then_or_fail-Keeps (mk_stream_source m v t) u (mk_stream_source-Keeps m v t u valid h)
      of false u h =
          then_or_fail-Keeps (mk_reln_source m v t) u (mk_reln_source-Keeps m v t u valid h)

  table_plan-Keeps :
      (refs : List ℕ) (v : ℕ) (w : WindowSpec) (s : Pool)
      → IsPool s
      → Keeps Points s (table_plan m refs v w s)
  unfolding table_plan
  table_plan-Keeps refs v w s h =
      Keeps->>= Any Points s (lift (or_fault (get_elem? refs v))) _ (lift-Keeps _ s h)
        λ t s1 h1 _ _.
          Keeps->>= Points Points s1 (get_source m v t) _ (get_source-Keeps v t s1 h1)
            λ src s2 h2 _ q.
              Keeps->>= Any Points s2 (lift (is_stream m t)) _ (lift-Keeps _ s2 h2)
                λ flag s3 h3 le _. windowed flag src s3 h3 (Points-grow _ _ src le q)
    where
      windowed :
          (flag : Bool) (src : Ptr) (u : Pool)
          → IsPool u
          → Points (length u.ops) src
          → Keeps Points u ((if flag then apply_window refs w src else pure src) u)
      windowed true src u h q = apply_window-Keeps refs w src u h q
      windowed false src u h q = (h, omega arith, q)

  cross_tables-Keeps :
      (refs : List ℕ) (c : Ptr) (vs : List ℕ) (ws : List WindowSpec) (s : Pool)
      → IsPool s
      → Points (length s.ops) c
      → Keeps Points s (cross_tables m refs c vs ws s)
  unfolding cross_tables
  cross_tables-Keeps refs c [] ws s h q = (h, omega arith, q)
  cross_tables-Keeps refs c (v ∷ vs) [] s h q = tt
  cross_tables-Keeps refs c (v ∷ vs) (w ∷ ws) s h q =
      Keeps->>= Points Points s (table_plan m refs v w) _ (table_plan-Keeps refs v w s h)
        λ p t h' le r.
          Keeps->>= Points Points t (cross_add_input c p >>= or_fail) _
            (then_or_fail-Keeps (cross_add_input c p) t
              (cross_add_input-Keeps c p t h' (Points-grow _ _ c le q) r))
            λ c' u h'' le' q'. cross_tables-Keeps refs c' vs ws u h'' q'

  pub join_tables-Keeps :
      (refs vs : List ℕ) (ws : List WindowSpec) (s : Pool)
      → IsPool s
      → Keeps Points s (join_tables m refs vs ws s)
  unfolding join_tables
  join_tables-Keeps refs [] ws s h = tt
  join_tables-Keeps refs (v ∷ []) [] s h = tt
  join_tables-Keeps refs (v ∷ []) (w ∷ ws) s h = table_plan-Keeps refs v w s h
  join_tables-Keeps refs (v ∷ u ∷ vs) ws s h =
      Keeps->>= Points Points s (mk_cross >>= or_fail) _
        (then_or_fail-Keeps mk_cross s (mk_cross-Keeps s h))
        λ c t h' le q. cross_tables-Keeps refs c (v ∷ u ∷ vs) ws t h' q

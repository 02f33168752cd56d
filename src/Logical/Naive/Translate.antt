-- ===== src/Logical/Naive/Translate.antt =====
-- The translation of expressions against a translation that keeps no pool, and of well-typed
-- expressions to expressions of the same type.
use p.Common.{
  ℕ, suc, ◌+◌, ◌≤◌, ◌≡◌, refl, ap, ◌∙◌, false, Option, none, some, List, ◌==◌, Result, ok, fault,
  arith, get_elem?, Option-cases, inl, inr, get_elem?-map-some,
}
use p.Metadata.Tables.{TableManager}
use p.Semantic.Query as Semantic
use p.Semantic.Scope.{Entry, tables_of}
use p.Semantic.Exprs.Typing.{IsTyped}
use p.Logical.Plan.{named, aggr, Expr, type_of}
use p.Logical.Pool.{Pool, max_expr, new_expr, ◌>>=◌}
use p.Logical.Naive.{transform_attr, transform_aggr_attr, transform_expr}

-- The number of expressions that a translation takes from the pool.
abbrev pub size : Semantic.Expr → ℕ
size (Semantic.comp_expr k op l r) = suc (size l + size r)
size e = 1

abbrev joined : (Expr → Expr → Expr) → Option Expr → Option Expr → Option Expr
joined f none y = none
joined f (some l) none = none
joined f (some l) (some r) = some (f l r)

-- The translation: a variable is replaced by its table, and an aggregation by the attribute that
-- holds its result. There is none if a variable is out of range.
pub translate : List ℕ → Semantic.Expr → Option Expr
translate refs (Semantic.const_val v) = some (Expr.const_val v)
translate refs (Semantic.attr_ref k a) = elim (get_elem? refs a.var_id) [
  | none ↦ none
  | some t ↦ some (Expr.attr_ref (named a.var_id t a.attr_id) k)
]
translate refs (Semantic.aggr_expr k fn a) = elim (get_elem? refs a.var_id) [
  | none ↦ none
  | some t ↦ some (Expr.attr_ref (aggr a.var_id t a.attr_id fn) k)
]
translate refs (Semantic.comp_expr k op l r) =
    joined (λ x y. Expr.comp_expr (type_of x) op x y) (translate refs l) (translate refs r)

-- What the code returns for a translation that takes `n` expressions.
abbrev pub taken : ℕ → Pool → Option Expr → Result (Option Expr × Pool)
taken n s none = fault
taken n s (some x) = ok (some x, record s { expr_ptr = s.expr_ptr + n })

new_expr-taken :
    (e : Expr) (s : Pool) → s.expr_ptr + 1 ≤ max_expr → new_expr (ok e) s ≡ taken 1 s (some e)
new_expr-taken e s h = let room : (s.expr_ptr == max_expr) ≡ false = ground arith in rw room refl

-- With room in the pool for the expressions that it takes, translating an expression is the
-- translation that replaces every variable by its table and keeps no pool: it takes one
-- expression of the pool for each node, writes no operator, and faults exactly when a variable is
-- out of range.
pub transform_expr-translate :
    (refs : List ℕ) (e : Semantic.Expr) (s : Pool)
    → s.expr_ptr + size e ≤ max_expr
    → transform_expr refs e s ≡ taken (size e) s (translate refs e)
unfolding transform_expr transform_attr transform_aggr_attr translate
transform_expr-translate refs (Semantic.const_val v) s room =
    new_expr-taken (Expr.const_val v) s room
transform_expr-translate refs (Semantic.attr_ref k a) s room =
    elim (Option-cases (get_elem? refs a.var_id)) [
      | inl gone ↦ rw (gone, translate) refl
      | inr (t, here) ↦
          rw (here, translate)
            (new_expr-taken (Expr.attr_ref (named a.var_id t a.attr_id) k) s room)
    ]
transform_expr-translate refs (Semantic.aggr_expr k fn a) s room =
    elim (Option-cases (get_elem? refs a.var_id)) [
      | inl gone ↦ rw (gone, translate) refl
      | inr (t, here) ↦
          rw (here, translate)
            (new_expr-taken (Expr.attr_ref (aggr a.var_id t a.attr_id fn) k) s room)
    ]
transform_expr-translate refs (Semantic.comp_expr k op l r) s room =
    rw (transform_expr-translate refs l s (omega (arith, room)), transform_expr, ◌>>=◌)
      (elim (Option-cases (translate refs l)) [
        | inl gone ↦ rw (gone, translate) refl
        | inr (x, left) ↦
            rw
              (
                left,
                transform_expr-translate refs r (record s { expr_ptr = s.expr_ptr + size l })
                    (omega (arith, room)),
                ◌>>=◌,
              )
              (elim (Option-cases (translate refs r)) [
                | inl gone ↦ rw (gone, translate) refl
                | inr (y, right) ↦
                    rw (right, translate)
                      (new_expr-taken (Expr.comp_expr (type_of x) op x y)
                          (record s { expr_ptr = s.expr_ptr + size l + size r })
                          (omega (arith, room))
                        ∙ ap
                            (λ n.
                              ok (
                                some (Expr.comp_expr (type_of x) op x y),
                                record s { expr_ptr = n },
                              ))
                            (omega arith))
              ])
      ])

module _ (m : TableManager) (symbols : List Entry) where
  translate-type :
      (e : Semantic.Expr)
      → IsTyped m symbols e
      → (x : Expr) × (translate (tables_of symbols) e ≡ some x) × (type_of x ≡ Semantic.type_of e)
  unfolding translate
  translate-type (Semantic.const_val v) t = (Expr.const_val v, refl, refl)
  translate-type (Semantic.attr_ref k a) t =
      let here = get_elem?-map-some (λ x. x.table_id) symbols a.var_id t.entry_at in
      (Expr.attr_ref (named a.var_id t.entry.table_id a.attr_id) k, rw (translate, here) refl, refl)
  translate-type (Semantic.aggr_expr k fn a) t =
      let here = get_elem?-map-some (λ x. x.table_id) symbols a.var_id t.1.entry_at in
      (
        Expr.attr_ref (aggr a.var_id t.1.entry.table_id a.attr_id fn) k,
        rw (translate, here) refl,
        refl,
      )
  translate-type (Semantic.comp_expr k op l r) t =
      let (x, left, kx) = translate-type l t.0 in
      let (y, right, ky) = translate-type r t.1 in
      (Expr.comp_expr (type_of x) op x y, rw (translate, left, right) refl, kx ∙ t.2)

  -- An expression that is well typed over the symbol table, for which the pool has room, is
  -- translated to an expression of the same type, and takes one expression of the pool for each
  -- node.
  pub transform_expr-type_of :
      (e : Semantic.Expr) (s : Pool)
      → IsTyped m symbols e
      → s.expr_ptr + size e ≤ max_expr
      → (x : Expr) × (transform_expr (tables_of symbols) e s
          ≡ ok (some x, record s { expr_ptr = s.expr_ptr + size e }))
        × (type_of x ≡ Semantic.type_of e)
  transform_expr-type_of e s t room =
      let (x, done, k) = translate-type e t in
      (x, transform_expr-translate (tables_of symbols) e s room ∙ ap (taken (size e) s) done, k)

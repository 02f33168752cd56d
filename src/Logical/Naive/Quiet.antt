-- ===== src/Logical/Naive/Quiet.antt =====
-- Translating expressions returns no error code, and leaves the operators alone.
use p.Common.{
  ℕ, ◌+◌, ◌≡◌, ◌≢◌, refl, ◌∙◌, Option, none, some, List, ◌==◌, Result, ok, err, fault, Error,
  or_fault, get_elem?, Bool-cases, inl, inr,
}
use p.Metadata.Types.{ArithOp}
use p.Semantic.Query as Semantic
use p.Logical.Plan.{Expr}
use p.Logical.Pool.{M, Pool, pure, lift, ◌>>=◌, max_expr, new_expr, mk_comp_expr}
use p.Logical.Naive.{transform_attr, transform_aggr_attr, transform_expr}

-- A call that returns no error code and leaves the operators alone.
abbrev pub Quiet : {A : Type 0} → Pool → Result (A × Pool) → Type 0
Quiet s (ok r) = r.1.ops ≡ s.ops
Quiet s (err e) = ⊥
Quiet s fault = Unit

Quiet->>= :
    {A B : Type 0} (s : Pool) (m : M A) (f : A → M B)
    → Quiet s (m s)
    → ((a : A) (s' : Pool) → Quiet s' (f a s'))
    → Quiet s ((m >>= f) s)
Quiet->>= {A} {B} s m f h k = bind (m s) h
  where
    widen : (s' : Pool) (r : Result (B × Pool)) → s'.ops ≡ s.ops → Quiet s' r → Quiet s r
    widen s' (ok r) e q = q ∙ e
    widen s' (err x) e q = q
    widen s' fault e q = q

    bind :
        (r : Result (A × Pool))
        → Quiet s r
        → Quiet s (elim r [ ok x ↦ f x.0 x.1 | err e ↦ err e | fault ↦ fault ])
    bind (ok x) q = widen x.1 (f x.0 x.1) q (k x.0 x.1)
    bind (err e) q = q
    bind fault q = q

lift-Quiet : {A : Type 0} (o : Option A) (s : Pool) → Quiet s (lift (or_fault o) s)
lift-Quiet none s = tt
lift-Quiet (some a) s = refl

new_expr-Quiet : (e : Result Expr) (s : Pool) → ((x : Error) → e ≢ err x) → Quiet s (new_expr e s)
new_expr-Quiet e s h = elim (Bool-cases (s.expr_ptr == max_expr)) [
  | inl full ↦ rw full refl
  | inr room ↦ rw room (built e h)
]
  where
    built :
        (e : Result Expr)
        → ((x : Error) → e ≢ err x)
        → Quiet s ((lift e >>= λ a. pure (some a)) (record s { expr_ptr = s.expr_ptr + 1 }))
    built (ok a) h = refl
    built (err x) h = h x refl
    built fault h = tt

comp-Quiet : (op : ArithOp) (x y : Option Expr) (s : Pool) → Quiet s (mk_comp_expr op x y s)
comp-Quiet op none y s = new_expr-Quiet fault s (λ x e. cc)
comp-Quiet op (some l) none s = new_expr-Quiet fault s (λ x e. cc)
comp-Quiet op (some l) (some r) s = new_expr-Quiet (ok _) s (λ x e. cc)

pub transform_expr-Quiet :
    (refs : List ℕ) (e : Semantic.Expr) (s : Pool) → Quiet s (transform_expr refs e s)
unfolding transform_expr transform_attr transform_aggr_attr
transform_expr-Quiet refs (Semantic.const_val v) s = new_expr-Quiet (ok _) s (λ x e. cc)
transform_expr-Quiet refs (Semantic.attr_ref k a) s =
    Quiet->>= s (transform_attr refs a) _
      (Quiet->>= s (lift (or_fault (get_elem? refs a.var_id))) _ (lift-Quiet _ s) λ t s'. refl)
      λ x s'. new_expr-Quiet (ok _) s' (λ x e. cc)
transform_expr-Quiet refs (Semantic.aggr_expr k fn a) s =
    Quiet->>= s (transform_aggr_attr refs fn a) _
      (Quiet->>= s (lift (or_fault (get_elem? refs a.var_id))) _ (lift-Quiet _ s) λ t s'. refl)
      λ x s'. new_expr-Quiet (ok _) s' (λ x e. cc)
transform_expr-Quiet refs (Semantic.comp_expr k op l r) s =
    Quiet->>= s (transform_expr refs l) _ (transform_expr-Quiet refs l s) λ x s'.
      Quiet->>= s' (transform_expr refs r) _ (transform_expr-Quiet refs r s')
        λ y s''. comp-Quiet op x y s''

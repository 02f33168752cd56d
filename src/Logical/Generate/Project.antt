-- ===== src/Logical/Generate/Project.antt =====
-- The SELECT clause of a plan: how many projections it can have.
use p.Common.{
  ℕ, suc, ◌+◌, ◌<◌, ◌≤◌, ◌≡◌, ◌≢◌, refl, sym, ap, ◌∙◌, subst, Option, none, some, List, [], ◌∷◌,
  Result, ok, err, fault, arith, length, get_elem?,
}
use p.Metadata.Types.{max_attrs}
use p.Semantic.Query as Semantic
use p.Logical.Plan.{Expr, Operator}
use p.Logical.Pool.{Ptr, Pool, ◌>>=◌, max_operator}
use p.Logical.Operators.{mk_project, add_project_expr}
use p.Logical.Naive.{transform_expr, or_fail}
use p.Logical.Naive.Quiet.{Quiet, transform_expr-Quiet}
use p.Logical.Operators.Project.{
  IsProject, Added, add_project_expr-Added, add_project_expr-null, mk_project-IsProject,
}
use p.Logical.Generate.{add_projs, do_projs}

-- The rest of the loop, after a projection has been translated.
abbrev step : List ℕ → List Semantic.Expr → Ptr → Result (Option Expr × Pool) → Result (Ptr × Pool)
step refs es p r = elim r [
  | ok x ↦ (add_project_expr p x.0 >>= λ q. add_projs refs es q) x.1
  | err e ↦ err e
  | fault ↦ fault
]

-- Only the operators count.
moved : {s s' : Pool} {i n : ℕ} → IsProject s i n → s'.ops ≡ s.ops → IsProject s' i n
moved {i = i} p e = record {
  op = p.op;
  exprs = p.exprs;
  at = ap (λ ops. get_elem? ops i) e ∙ p.at;
  kind = p.kind;
  size = p.size;
}

-- A null projection operator is followed as soon as there is another projection.
add_projs-null :
    (refs : List ℕ) (es : List Semantic.Expr) (s : Pool)
    → 0 < length es
    → add_projs refs es none s ≡ fault
unfolding add_projs
add_projs-null refs [] s h = absurd (omega arith)
add_projs-null refs (e ∷ es) s h = go (transform_expr refs e s) (transform_expr-Quiet refs e s)
  where
    go : (r : Result (Option Expr × Pool)) → Quiet s r → step refs es none r ≡ fault
    go (ok x) q = rw (add_project_expr-null x.0 x.1, ◌>>=◌)
    go (err e) q = absurd q
    go fault q = refl

-- More projections than fit, from an operator that has `n` of them.
add_projs-fault :
    (refs : List ℕ) (es : List Semantic.Expr) (s : Pool) (i n : ℕ)
    → IsProject s i n
    → n ≤ max_attrs
    → suc max_attrs < n + length es
    → add_projs refs es (some i) s ≡ fault
unfolding add_projs
add_projs-fault refs [] s i n p n≤ many = absurd (omega (arith, n≤, many))
add_projs-fault refs (e ∷ es) s i n p n≤ many =
    go (add_projs-fault refs es) (transform_expr refs e s) (transform_expr-Quiet refs e s)
  where
    More : Type 0
    More =
        (s' : Pool) (j k : ℕ)
        → IsProject s' j k
        → k ≤ max_attrs
        → suc max_attrs < k + length es
        → add_projs refs es (some j) s' ≡ fault

    added :
        More
        → (r : Result (Ptr × Pool)) → Added i n r
        → (elim r [ ok x ↦ add_projs refs es x.0 x.1 | err e ↦ err e | fault ↦ fault ]) ≡ fault
    added more (ok (none, s')) a = add_projs-null refs es s' (omega (arith, a, many))
    added more (ok (some j, s')) a =
        subst (λ k. add_projs refs es (some k) s' ≡ fault) (sym a.0)
          (more s' i (suc n) a.1 (omega (arith, n≤, a.2)) (omega (arith, many)))
    added more (err e) a = absurd a
    added more fault a = refl

    go : More → (r : Result (Option Expr × Pool)) → Quiet s r → step refs es (some i) r ≡ fault
    go more (ok x) q =
        added more (add_project_expr (some i) x.0 x.1)
          (add_project_expr-Added x.1 i n x.0 (moved p q))
    go more (err e) q = absurd q
    go more fault q = refl

-- Over an existing operator, and with room for one more in the pool, translating a SELECT clause
-- of twelve or more terms follows a null pointer.
pub do_projs-fault :
    (refs : List ℕ) (es : List Semantic.Expr) (s : Pool) (i : ℕ) (src : Operator)
    → get_elem? s.ops i ≡ some src
    → length s.ops ≢ max_operator
    → suc max_attrs < length es
    → do_projs refs es (some i) s ≡ fault
unfolding do_projs
do_projs-fault refs es s i src at room many =
    rw (made.1, ◌>>=◌, or_fail)
      (add_projs-fault refs es made.0 _ 0 made.2 (omega arith) (omega (arith, many)))
  where
    made :
        (s' : Pool) × (mk_project (some i) s ≡ ok (some (length s.ops), s'))
        × IsProject s' (length s.ops) 0
    made = mk_project-IsProject s i src at room

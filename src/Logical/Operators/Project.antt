-- ===== src/Logical/Operators/Project.antt =====
-- The projection operator: what is added to it.
use p.Common.{
  ℕ, suc, ◌≡◌, ◌≢◌, refl, sym, ◌∙◌, false, Option, none, some, List, [], ◌∷◌, ◌++◌, ◌==◌, Result,
  ok, err, fault, arith, length, get_elem?, set, Bool-cases, inl, inr, length-append,
  get_elem?-set_self, get_elem?-append_self, get_elem?-lt, get_elem?-append_left, get_elem?-set_ne,
  ==_iff,
}
use p.Metadata.Types.{max_attrs}
use p.Logical.Plan.{Expr, Operator, OperatorKind}
use p.Logical.Pool.{Ptr, Pool, ◌>>=◌, max_operator, new_op}
use p.Logical.Operators.{mk_project, mk_over, add_project_expr, project_attr, link}

-- The operator `i` is a projection with `n` projections.
pub record IsProject (s : Pool) (i n : ℕ) : Type 0 where
  pub op : Operator
  pub exprs : List Expr
  pub at : get_elem? s.ops i ≡ some op
  pub kind : op.kind ≡ OperatorKind.project exprs
  pub size : length op.out_attrs ≡ n

-- What adding one projection to an operator with `n` of them returns.
abbrev pub Added : ℕ → ℕ → Result (Ptr × Pool) → Type 0
Added i n (ok (none, s)) = n ≡ max_attrs
Added i n (ok (some j, s)) = (j ≡ i) × IsProject s i (suc n) × (n ≢ max_attrs)
Added i n (err e) = ⊥
Added i n fault = Unit

pub add_project_expr-Added :
    (s : Pool) (i n : ℕ) (x : Option Expr)
    → IsProject s i n
    → Added i n (add_project_expr (some i) x s)
unfolding add_project_expr
add_project_expr-Added s i n none h =
    rw (h.at, Added)
      (elim (Bool-cases (length h.op.out_attrs == max_attrs)) [
        | inl full ↦ rw (full, Added) (sym h.size ∙ (==_iff _ _).0 full)
        | inr room ↦ rw (room, h.kind, Added) tt
      ])
add_project_expr-Added s i n (some e) h =
    rw (h.at, Added)
      (elim (Bool-cases (length h.op.out_attrs == max_attrs)) [
        | inl full ↦ rw (full, Added) (sym h.size ∙ (==_iff _ _).0 full)
        | inr room ↦
            rw (room, h.kind, Added)
              (
                refl,
                record {
                  op = record h.op {
                    kind = OperatorKind.project (h.exprs ++ e ∷ []);
                    out_attrs = h.op.out_attrs ++ project_attr e ∷ [];
                  };
                  exprs = h.exprs ++ e ∷ [];
                  at = get_elem?-set_self s.ops i _ (get_elem?-lt s.ops i h.at);
                  kind = refl;
                  size = omega (arith, length-append h.op.out_attrs (project_attr e ∷ []), h.size);
                },
                λ f. cc (room, (==_iff _ _).1 (h.size ∙ f)),
              )
      ])

-- Through a null pointer nothing is added.
pub add_project_expr-null : (x : Option Expr) (s : Pool) → add_project_expr none x s ≡ fault
unfolding add_project_expr
add_project_expr-null x s = refl

-- A new projection operator has none.
pub mk_project-IsProject :
    (s : Pool) (i : ℕ) (src : Operator)
    → get_elem? s.ops i ≡ some src
    → length s.ops ≢ max_operator
    → (s' : Pool) × (mk_project (some i) s ≡ ok (some (length s.ops), s'))
      × IsProject s' (length s.ops) 0
unfolding mk_over
mk_project-IsProject s i src at room = (
  made,
  rw (not_full, at, other, new_op, link, ◌>>=◌) refl,
  record {
    op = fresh;
    exprs = [];
    at =
        get_elem?-set_ne (s.ops ++ fresh ∷ []) i (length s.ops) _ before
        ∙ get_elem?-append_self s.ops fresh;
    kind = refl;
    size = refl;
  },
)
  where
    fresh : Operator
    fresh = record {
      kind = OperatorKind.project [];
      out_attrs = [];
      b_stream = src.b_stream;
      output = none;
      inputs = i ∷ [];
    }

    not_full : (length s.ops == max_operator) ≡ false
    not_full = ground arith

    before : i ≢ length s.ops
    before e = omega (arith, e, get_elem?-lt s.ops i at)

    other : get_elem? (s.ops ++ fresh ∷ []) i ≡ some src
    other = get_elem?-append_left s.ops (fresh ∷ []) i (get_elem?-lt s.ops i at) ∙ at

    made : Pool
    made = record s {
      ops = set (s.ops ++ fresh ∷ []) i (record src { output = some (length s.ops) });
    }

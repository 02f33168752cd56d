-- ===== src/Logical/Operators/Bounds.antt =====
-- The constructors of the operators keep the invariant of the pool.
use p.Common.{
  suc, ◌<◌, ◌≤◌, ◌≡◌, refl, Bool, false, Option, none, some, List, [], ◌∷◌, ◌++◌, ◌==◌, Result, ok,
  err, fault, arith, length, ltb, ltb→lt, Bool-cases, inl, inr, length-append,
}
use p.Metadata.Types.{max_attrs, AggrFn}
use p.Logical.Plan.{Attr, Expr, Operator, OperatorKind, max_group_attrs, max_aggr_attrs}
use p.Logical.Pool.{M, Ptr, Pool, pure, faults, deref, store, set_output, new_op, lift, ◌>>=◌, ◌>>◌}
use p.Logical.Pool.Invariant.{
  Points, Points-grow, KindFits, IsOperator, IsPool, Keeps, Keeps->>=, Reads->>=, deref-Reads,
  store-pure-Keeps, set_output-Keeps, new_op-Keeps, deref-Keeps, IsOperator-change, Any,
}
use p.Logical.Operators.{
  mk_over, over, link, add_to_partn, partn_window_add_attr, add_to_project, add_project_expr,
  project_attr, push_attr, add_to_groups, add_group_attr, add_to_aggrs, add_aggr, aggr_attr,
}

link-Keeps :
    (op input : Ptr) (s : Pool)
    → IsPool s
    → Points (length s.ops) op
    → Keeps Points s (link op input s)
link-Keeps none input s h q = (h, omega arith, tt)
link-Keeps (some i) input s h q =
    Keeps->>= Any Points s (set_output input (some i)) _ (set_output-Keeps input (some i) s h q)
      λ _ s' h' le _. (h', omega arith, omega (arith, q, le))

-- The attributes and arrays that a constructor gives an operator over one input.
abbrev pub Copies : OperatorKind → (List Attr → List Attr) → Type 0
Copies kind attrs =
    (xs : List Attr)
    → length xs ≤ max_attrs
    → (length (attrs xs) ≤ max_attrs) × KindFits kind (length (attrs xs))

pub mk_over-Keeps :
    (kind : OperatorKind) (attrs : List Attr → List Attr) (flag : Bool → Bool) (p : Ptr) (s : Pool)
    → Copies kind attrs
    → IsPool s
    → Points (length s.ops) p
    → Keeps Points s (mk_over kind attrs flag p s)
unfolding mk_over
mk_over-Keeps kind attrs flag none s c h q = new_op-Keeps faults s h tt
mk_over-Keeps kind attrs flag (some i) s c h q =
    Keeps->>= Points Points s
      (new_op
        (deref (some i) >>= λ src. pure (over kind (attrs src.out_attrs) (flag src.b_stream) i)))
      (λ op. link op (some i))
      (new_op-Keeps
        (deref (some i) >>= λ src. pure (over kind (attrs src.out_attrs) (flag src.b_stream) i)) s h
        (Reads->>= (IsOperator (length s.ops)) (IsOperator (length s.ops)) s (deref (some i))
          (λ src. pure (over kind (attrs src.out_attrs) (flag src.b_stream) i))
          (deref-Reads (some i) s h)
          λ src o. (
            refl,
            record {
              few_attrs = (c src.out_attrs o.few_attrs).0;
              fits = (c src.out_attrs o.few_attrs).1;
              few_inputs = omega arith;
              inputs_in = (q, tt);
              output_in = tt;
            },
          )))
      λ op s' h' le r. link-Keeps op (some i) s' h' r

module _ (p : Ptr) (op : Operator) (t : Pool) (h : IsPool t) (q : Points (length t.ops) p)
    (o : IsOperator (length t.ops) op) where
  -- The operator is written back with other arrays.
  changed :
      (k : OperatorKind) (attrs : List Attr)
      → length attrs ≤ max_attrs
      → KindFits k (length attrs)
      → Keeps Points t ((store p (record op { kind = k; out_attrs = attrs }) >> pure p) t)
  changed k attrs few f =
      store-pure-Keeps p _ t h q (IsOperator-change (length t.ops) op k attrs o few f)

  nothing : Keeps Points t (ok (none, t))
  nothing = (h, omega arith, tt)

  add_to_partn-Keeps :
      (a : Attr) (k : OperatorKind)
      → KindFits k (length op.out_attrs)
      → Keeps Points t (add_to_partn p op a k t)
  add_to_partn-Keeps a (OperatorKind.partn_win attrs rows) f =
      elim (Bool-cases (length attrs == max_group_attrs)) [
        | inl full ↦ rw full nothing
        | inr room ↦ rw room (
            changed (OperatorKind.partn_win (attrs ++ a ∷ []) rows) op.out_attrs o.few_attrs
              (ground (arith, length-append attrs (a ∷ []))))
      ]
  add_to_partn-Keeps a k f = tt

  add_to_project-Keeps :
      (e : Option Expr) (k : OperatorKind)
      → KindFits k (length op.out_attrs)
      → suc (length op.out_attrs) ≤ max_attrs
      → Keeps Points t (add_to_project p op e k t)
  add_to_project-Keeps none (OperatorKind.project es) f room = tt
  add_to_project-Keeps (some x) (OperatorKind.project es) f room =
      let size = length-append op.out_attrs (project_attr x ∷ []) in
      changed (OperatorKind.project (es ++ x ∷ [])) (op.out_attrs ++ project_attr x ∷ [])
        (omega (arith, size)) (omega (arith, size, length-append es (x ∷ []), f))
  add_to_project-Keeps e k f room = tt

  push_attr-Keeps :
      (a : Attr) (rest : List Attr → M Ptr)
      → ((length (op.out_attrs ++ a ∷ []) ≡ suc (length op.out_attrs))
          → length op.out_attrs < max_attrs
          → Keeps Points t (rest (op.out_attrs ++ a ∷ []) t))
      → Keeps Points t (push_attr op a rest t)
  push_attr-Keeps a rest f = elim (Bool-cases (ltb (length op.out_attrs) max_attrs)) [
    | inl room ↦ rw room (f (omega (arith, length-append op.out_attrs (a ∷ []))) (ltb→lt _ _ room))
    | inr full ↦ rw full tt
  ]

  abbrev written : List Attr → List Attr → List AggrFn → Attr → List Attr → M Ptr
  written groups attrs fns a out =
      store p
        (record op { kind = OperatorKind.group_aggr (groups ++ a ∷ []) attrs fns; out_attrs = out })
      >> pure p

  add_to_groups-Keeps :
      (a : Attr) (k : OperatorKind)
      → KindFits k (length op.out_attrs)
      → Keeps Points t (add_to_groups p op a k t)
  add_to_groups-Keeps a (OperatorKind.group_aggr groups attrs fns) f =
      elim (Bool-cases (length groups == max_group_attrs)) [
        | inl full ↦ rw full nothing
        | inr room ↦ rw room (
            push_attr-Keeps a (written groups attrs fns a) λ size few.
              let more = length-append groups (a ∷ []) in
              changed (OperatorKind.group_aggr (groups ++ a ∷ []) attrs fns)
                (op.out_attrs ++ a ∷ []) (omega (arith, size, few))
                (ground (arith, more, f.0), f.1, f.2, omega (arith, size, more, f.3)))
      ]
  add_to_groups-Keeps a k f = tt

  add_to_aggrs-Keeps :
      (fn : AggrFn) (a : Attr) (k : OperatorKind)
      → KindFits k (length op.out_attrs)
      → Keeps Points t (add_to_aggrs p op fn a k t)
  add_to_aggrs-Keeps fn a (OperatorKind.group_aggr groups attrs fns) f =
      elim (Bool-cases (length attrs == max_aggr_attrs)) [
        | inl full ↦ rw full nothing
        | inr room ↦ rw room (taken (aggr_attr fn a) room)
      ]
    where
      write : Attr → List Attr → M Ptr
      write x out =
          store p (record op {
            kind = OperatorKind.group_aggr groups (attrs ++ a ∷ []) (fns ++ fn ∷ []);
            out_attrs = out;
          })
          >> pure p

      taken :
          (r : Result Attr)
          → (length attrs == max_aggr_attrs) ≡ false
          → Keeps Points t ((lift r >>= λ x. push_attr op x (write x)) t)
      taken (ok x) room = push_attr-Keeps x (write x) λ size few.
          let more = length-append attrs (a ∷ []) in
          let fns' = length-append fns (fn ∷ []) in
          changed (OperatorKind.group_aggr groups (attrs ++ a ∷ []) (fns ++ fn ∷ []))
            (op.out_attrs ++ x ∷ []) (omega (arith, size, few))
            (
              f.0,
              ground (arith, more, f.1),
              omega (arith, more, fns', f.2),
              omega (arith, size, more, f.3),
            )
      taken (err e) room = tt
      taken fault room = tt
  add_to_aggrs-Keeps fn a k f = tt

module _ (p : Ptr) (s : Pool) (h : IsPool s) (q : Points (length s.ops) p) where
  pub partn_window_add_attr-Keeps : (a : Attr) → Keeps Points s (partn_window_add_attr p a s)
  unfolding partn_window_add_attr
  partn_window_add_attr-Keeps a =
      deref-Keeps Points p _ s h
        λ op t h' le o. add_to_partn-Keeps p op t h' (Points-grow _ _ p le q) o a op.kind o.fits

  pub add_project_expr-Keeps : (e : Option Expr) → Keeps Points s (add_project_expr p e s)
  unfolding add_project_expr
  add_project_expr-Keeps e = deref-Keeps Points p _ s h λ op t h' le o.
      elim (Bool-cases (length op.out_attrs == max_attrs)) [
        | inl full ↦ rw full (h', omega arith, tt)
        | inr room ↦ rw room (
            add_to_project-Keeps p op t h' (Points-grow _ _ p le q) o e op.kind o.fits
              (ground (arith, o.few_attrs)))
      ]

  pub add_group_attr-Keeps : (a : Attr) → Keeps Points s (add_group_attr p a s)
  unfolding add_group_attr
  add_group_attr-Keeps a =
      deref-Keeps Points p _ s h
        λ op t h' le o. add_to_groups-Keeps p op t h' (Points-grow _ _ p le q) o a op.kind o.fits

  pub add_aggr-Keeps : (fn : AggrFn) (a : Attr) → Keeps Points s (add_aggr p fn a s)
  unfolding add_aggr
  add_aggr-Keeps fn a =
      deref-Keeps Points p _ s h
        λ op t h' le o. add_to_aggrs-Keeps p op t h' (Points-grow _ _ p le q) o fn a op.kind o.fits

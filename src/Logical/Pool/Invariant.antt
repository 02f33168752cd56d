-- ===== src/Logical/Pool/Invariant.antt =====
-- The invariant of the pool of operators: pointers stay inside it, and no array of an operator is
-- overrun; and the rules by which a call keeps it.
use p.Common.{
  ℕ, suc, ◌+◌, ◌<◌, ◌≤◌, ◌≡◌, refl, sym, subst, none, some, List, [], ◌∷◌, ◌++◌, ◌==◌, Result, ok,
  err, fault, arith, length, get_elem?, Bool-cases, Option-cases, inl, inr, All, All-get, All-set,
  All-map, All-append, length-set, length-append,
}
use p.Metadata.Types.{max_attrs}
use p.Logical.Plan.{
  Attr, Expr, Operator, OperatorKind, max_input_ops, max_group_attrs, max_aggr_attrs,
}
use p.Logical.Pool.{
  M, Ptr, Pool, pure, lift, deref, store, set_output, new_op, new_expr, ◌>>=◌, ◌>>◌, max_operator,
  max_expr,
}

-- A pointer is null, or it points to one of `n` operators.
abbrev pub Points : ℕ → Ptr → Type 0
Points n none = Unit
Points n (some i) = i < n

-- The arrays of an operator with `n` output attributes: a projection has an output attribute for each
-- expression, and an aggregation has one for each grouping attribute and for each aggregated one.
abbrev pub KindFits : OperatorKind → ℕ → Type 0
KindFits (OperatorKind.partn_win attrs rows) n = length attrs ≤ max_group_attrs
KindFits (OperatorKind.project es) n = length es ≤ n
KindFits (OperatorKind.group_aggr groups attrs fns) n =
    (length groups ≤ max_group_attrs)
    × (length attrs ≤ max_aggr_attrs)
    × (length fns ≡ length attrs)
    × (length groups + length attrs ≤ n)
KindFits k n = Unit

-- An operator of a pool of `n`.
pub record IsOperator (n : ℕ) (op : Operator) : Type 0 where
  pub few_attrs : length op.out_attrs ≤ max_attrs
  pub fits : KindFits op.kind (length op.out_attrs)
  pub few_inputs : length op.inputs ≤ max_input_ops
  pub inputs_in : All (λ i. i < n) op.inputs
  pub output_in : Points n op.output

pub record IsPool (s : Pool) : Type 0 where
  pub few_ops : length s.ops ≤ max_operator
  pub few_exprs : s.expr_ptr ≤ max_expr
  pub each : All (IsOperator (length s.ops)) s.ops

pub KindFits-grow : (k : OperatorKind) (n j : ℕ) → n ≤ j → KindFits k n → KindFits k j
KindFits-grow (OperatorKind.project es) n j le f = omega (arith, le, f)
KindFits-grow (OperatorKind.group_aggr groups attrs fns) n j le f =
    (f.0, f.1, f.2, omega (arith, le, f.3))
KindFits-grow (OperatorKind.partn_win attrs rows) n j le f = f
KindFits-grow k n j le f = tt

pub Points-grow : (n k : ℕ) (p : Ptr) → n ≤ k → Points n p → Points k p
Points-grow n k none h q = tt
Points-grow n k (some i) h q = omega (arith, h, q)

pub IsOperator-grow : (n k : ℕ) → n ≤ k → (op : Operator) → IsOperator n op → IsOperator k op
IsOperator-grow n k h op o = record {
  few_attrs = o.few_attrs;
  fits = o.fits;
  few_inputs = o.few_inputs;
  inputs_in = All-map _ _ (λ i q. omega (arith, h, q)) op.inputs o.inputs_in;
  output_in = Points-grow n k op.output h o.output_in;
}

-- An operator whose arrays are changed.
pub IsOperator-change :
    (n : ℕ) (op : Operator) (k : OperatorKind) (attrs : List Attr)
    → IsOperator n op
    → length attrs ≤ max_attrs
    → KindFits k (length attrs)
    → IsOperator n (record op { kind = k; out_attrs = attrs })
IsOperator-change n op k attrs o few f = record {
  few_attrs = few;
  fits = f;
  few_inputs = o.few_inputs;
  inputs_in = o.inputs_in;
  output_in = o.output_in;
}

-- A call that succeeds keeps the invariant and every pointer, and its value satisfies `P`.
abbrev pub Keeps : {A : Type 0} → (ℕ → A → Type 0) → Pool → Result (A × Pool) → Type 0
Keeps P s (ok r) = IsPool r.1 × (length s.ops ≤ length r.1.ops) × P (length r.1.ops) r.0
Keeps P s (err e) = Unit
Keeps P s fault = Unit

pub Keeps->>= :
    {A B : Type 0} (P : ℕ → A → Type 0) (Q : ℕ → B → Type 0) (s : Pool) (m : M A) (f : A → M B)
    → Keeps P s (m s)
    → ((a : A) (s' : Pool)
        → IsPool s'
        → length s.ops ≤ length s'.ops
        → P (length s'.ops) a
        → Keeps Q s' (f a s'))
    → Keeps Q s ((m >>= f) s)
Keeps->>= {A} {B} P Q s m f h k = bind (m s) h
  where
    widen :
        (s' : Pool) (r : Result (B × Pool))
        → length s.ops ≤ length s'.ops
        → Keeps Q s' r
        → Keeps Q s r
    widen s' (ok r) e q = (q.0, omega (arith, e, q.1), q.2)
    widen s' (err x) e q = tt
    widen s' fault e q = tt

    bind :
        (r : Result (A × Pool))
        → Keeps P s r
        → Keeps Q s (elim r [ ok x ↦ f x.0 x.1 | err e ↦ err e | fault ↦ fault ])
    bind (ok x) q = widen x.1 (f x.0 x.1) q.1 (k x.0 x.1 q.0 q.1 q.2)
    bind (err e) q = tt
    bind fault q = tt

-- A call that only reads.
abbrev pub Reads : {A : Type 0} → (A → Type 0) → Pool → Result (A × Pool) → Type 0
Reads P s (ok r) = (r.1 ≡ s) × P r.0
Reads P s (err e) = Unit
Reads P s fault = Unit

pub Reads->>= :
    {A B : Type 0} (P : A → Type 0) (Q : B → Type 0) (s : Pool) (m : M A) (f : A → M B)
    → Reads P s (m s)
    → ((a : A) → P a → Reads Q s (f a s))
    → Reads Q s ((m >>= f) s)
Reads->>= {A} {B} P Q s m f h k = bind (m s) h
  where
    bind :
        (r : Result (A × Pool))
        → Reads P s r
        → Reads Q s (elim r [ ok x ↦ f x.0 x.1 | err e ↦ err e | fault ↦ fault ])
    bind (ok x) q = subst (λ s'. Reads Q s (f x.0 s')) (sym q.0) (k x.0 q.1)
    bind (err e) q = tt
    bind fault q = tt

pub lift-Reads : {A : Type 0} (r : Result A) (s : Pool) → Reads (λ a. r ≡ ok a) s (lift r s)
lift-Reads (ok a) s = (refl, refl)
lift-Reads (err e) s = tt
lift-Reads fault s = tt

pub Keeps-Reads :
    {A : Type 0} (P : ℕ → A → Type 0) (s : Pool) (r : Result (A × Pool))
    → IsPool s
    → Reads (P (length s.ops)) s r
    → Keeps P s r
Keeps-Reads P s (ok x) h q = (
  subst IsPool (sym q.0) h,
  rw (q.0) (omega arith),
  subst (λ t. P (length t.ops) x.0) (sym q.0) q.1,
)
Keeps-Reads P s (err e) h q = tt
Keeps-Reads P s fault h q = tt

pub deref-Reads : (p : Ptr) (s : Pool) → IsPool s → Reads (IsOperator (length s.ops)) s (deref p s)
deref-Reads none s h = tt
deref-Reads (some i) s h = elim (Option-cases (get_elem? s.ops i)) [
  | inl gone ↦ rw (gone, Reads) tt
  | inr (op, at) ↦ rw (at, Reads) (refl, All-get _ s.ops i h.each at)
]

-- What follows after a pointer has been followed.
pub deref-Keeps :
    {A : Type 0} (Q : ℕ → A → Type 0) (p : Ptr) (f : Operator → M A) (s : Pool)
    → IsPool s
    → ((op : Operator) (t : Pool)
        → IsPool t
        → length s.ops ≤ length t.ops
        → IsOperator (length t.ops) op
        → Keeps Q t (f op t))
    → Keeps Q s ((deref p >>= f) s)
deref-Keeps Q p f s h k =
    Keeps->>= IsOperator Q s (deref p) f (Keeps-Reads IsOperator s _ h (deref-Reads p s h)) k

-- What a write returns says nothing.
abbrev pub Any : {A : Type 0} → ℕ → A → Type 0
Any n a = Unit

pub store-Keeps :
    (p : Ptr) (op : Operator) (s : Pool)
    → IsPool s
    → IsOperator (length s.ops) op
    → Keeps Any s (store p op s)
store-Keeps none op s h o = tt
store-Keeps (some i) op s h o =
    let size = length-set s.ops i op in
    (
      record {
        few_ops = omega (arith, size, h.few_ops);
        few_exprs = h.few_exprs;
        each = rw size (All-set _ s.ops i op h.each o);
      },
      omega (arith, size),
      tt,
    )

-- An operator is written through a pointer, which is returned.
pub store-pure-Keeps :
    (p : Ptr) (op : Operator) (s : Pool)
    → IsPool s
    → Points (length s.ops) p
    → IsOperator (length s.ops) op
    → Keeps Points s ((store p op >> pure p) s)
store-pure-Keeps p op s h q o =
    Keeps->>= Any Points s (store p op) _ (store-Keeps p op s h o)
      λ _ s' h' le _. (h', omega arith, Points-grow (length s.ops) (length s'.ops) p le q)

pub set_output-Keeps :
    (p q : Ptr) (s : Pool) → IsPool s → Points (length s.ops) q → Keeps Any s (set_output p q s)
set_output-Keeps p q s h r =
    Keeps->>= IsOperator Any s (deref p) _ (Keeps-Reads IsOperator s _ h (deref-Reads p s h))
      λ op s' h' le o.
        store-Keeps p (record op { output = q }) s' h'
          (record {
            few_attrs = o.few_attrs;
            fits = o.fits;
            few_inputs = o.few_inputs;
            inputs_in = o.inputs_in;
            output_in = Points-grow (length s.ops) (length s'.ops) q le r;
          })

pushed :
    (op : Operator) (s : Pool)
    → IsPool s
    → IsOperator (length s.ops) op
    → suc (length s.ops) ≤ max_operator
    → Keeps Points s (ok (some (length s.ops), record s { ops = s.ops ++ op ∷ [] }))
pushed op s h o room =
    let size : length (s.ops ++ op ∷ []) ≡ suc (length s.ops) =
      omega (arith, length-append s.ops (op ∷ [])) in
    let grow = IsOperator-grow (length s.ops) (suc (length s.ops)) (omega arith) in
    (
      record {
        few_ops = omega (arith, size, room);
        few_exprs = h.few_exprs;
        each =
            rw size (All-append _ s.ops (op ∷ []) (All-map _ _ grow s.ops h.each) (grow op o, tt));
      },
      omega (arith, size),
      omega (arith, size),
    )

-- A new operator points into the pool as it was.
pub new_op-Keeps :
    (build : M Operator) (s : Pool)
    → IsPool s
    → Reads (IsOperator (length s.ops)) s (build s)
    → Keeps Points s (new_op build s)
new_op-Keeps build s h b = elim (Bool-cases (length s.ops == max_operator)) [
  | inl full ↦ rw full (h, omega arith, tt)
  | inr room ↦ rw room (built (build s) b (ground (arith, h.few_ops)))
]
  where
    built :
        (r : Result (Operator × Pool))
        → Reads (IsOperator (length s.ops)) s r
        → suc (length s.ops) ≤ max_operator
        → Keeps Points s (elim r [
          | ok x ↦ ok (some (length x.1.ops), record (x.1) { ops = x.1.ops ++ x.0 ∷ [] })
          | err e ↦ err e
          | fault ↦ fault
        ])
    built (ok x) q room =
        subst (λ t. Keeps Points s (ok (some (length t.ops), record t { ops = t.ops ++ x.0 ∷ [] })))
          (sym q.0) (pushed x.0 s h q.1 room)
    built (err e) q room = tt
    built fault q room = tt

pub new_expr-Keeps : (e : Result Expr) (s : Pool) → IsPool s → Keeps Any s (new_expr e s)
new_expr-Keeps e s h = elim (Bool-cases (s.expr_ptr == max_expr)) [
  | inl full ↦ rw full (h, omega arith, tt)
  | inr room ↦ rw room (filled e (ground (arith, h.few_exprs)))
]
  where
    filled :
        (e : Result Expr)
        → s.expr_ptr + 1 ≤ max_expr
        → Keeps Any s ((lift e >>= λ a. pure (some a)) (record s { expr_ptr = s.expr_ptr + 1 }))
    filled (ok a) room =
        (record { few_ops = h.few_ops; few_exprs = room; each = h.each }, omega arith, tt)
    filled (err x) room = tt
    filled fault room = tt

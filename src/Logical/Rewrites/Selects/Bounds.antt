-- ===== src/Logical/Rewrites/Selects/Bounds.antt =====
-- Pushing selections keeps the invariant of the pool.
use p.Common.{
  ℕ, zero, suc, ◌<◌, ◌≤◌, refl, Bool, true, false, Option, none, some, List, [], ◌∷◌, arith, length,
  if◌then◌else◌, Bool-cases, inl, inr, All,
}
use p.Logical.Plan.{Attr, Expr, Operator, OperatorKind, BExpr}
use p.Logical.Pool.{M, Ptr, Pool, pure, faults, deref, set_output, ◌>>=◌, ◌>>◌}
use p.Logical.Pool.Invariant.{
  Points, Points-grow, IsOperator, IsPool, Keeps, Keeps->>=, Keeps-Reads, Reads, Reads->>=,
  deref-Reads, deref-Keeps, set_output-Keeps, Any,
}
use p.Logical.Operators.Bounds.{mk_over-Keeps}
use p.Logical.Rewrites.Walk.Bounds.{
  In, then-Keeps, input-Keeps, set_input-Keeps, walk-Keeps, ptr-Keeps, if-Keeps,
}
use p.Logical.Operators.{mk_select}
use p.Logical.Rewrites.Walk.{fuel, input, set_input, is_select}
use p.Logical.Rewrites.Selects.{
  refers_to, find_child, check_reference, can_be_pushed, Landing, descend, insert_select,
  push_select, drop_select, push_selects, push_all_selects,
}

abbrev Yes : {A : Type 0} → A → Type 0
Yes a = Unit

refers_to-Reads : (attrs : List Attr) (b : BExpr) (s : Pool) → Reads Yes s (refers_to attrs b s)
refers_to-Reads attrs b s = left b.left
  where
    right :
        (r : Option Expr)
        → Reads Yes s (
            (elim r as (λ _. M Bool) [ none ↦ faults | some r ↦ pure (check_reference attrs r) ]) s)
    right none = tt
    right (some r) = (refl, tt)

    left :
        (l : Option Expr)
        → Reads Yes s (
            (elim l as (λ _. M Bool) [
              | none ↦ faults
              | some l ↦
                  if check_reference attrs l
                  then elim b.right [ none ↦ faults | some r ↦ pure (check_reference attrs r) ]
                  else pure false
            ])
              s)
    left none = tt
    left (some l) = elim (Bool-cases (check_reference attrs l)) [
      | inl hit ↦ rw hit (right b.right)
      | inr miss ↦ rw miss (refl, tt)
    ]

-- A position below an operator, with the operator there.
abbrev Child : ℕ → Option (ℕ × ℕ) → Type 0
Child n none = Unit
Child n (some r) = r.1 < n

find_child-Reads :
    (b : BExpr) (is : List ℕ) (pos : ℕ) (s : Pool)
    → IsPool s
    → All (In (length s.ops)) is
    → Reads (Child (length s.ops)) s (find_child b is pos s)
unfolding find_child
find_child-Reads b [] pos s h a = (refl, tt)
find_child-Reads b (i ∷ is) pos s h a =
    let n = length s.ops in
    Reads->>= (IsOperator n) (Child n) s (deref (some i)) _ (deref-Reads (some i) s h) λ op o.
      Reads->>= Yes (Child n) s (refers_to op.out_attrs b)
        (λ hit. if hit then pure (some (pos, i)) else find_child b is (suc pos))
        (refers_to-Reads op.out_attrs b s)
        λ hit _. by_hit hit (find_child-Reads b is (suc pos) s h a.1)
  where
    by_hit :
        (hit : Bool)
        → Reads (Child (length s.ops)) s (find_child b is (suc pos) s)
        → Reads
            (Child (length s.ops))
            s
            ((if hit then pure (some (pos, i)) else find_child b is (suc pos)) s)
    by_hit true rest = (refl, a.0)
    by_hit false rest = rest

can_be_pushed-Keeps :
    {A : Type 0} (Q : ℕ → A → Type 0) (b : BExpr) (op : Operator) (f : Option (ℕ × ℕ) → M A)
    (s : Pool)
    → IsPool s
    → IsOperator (length s.ops) op
    → ((r : Option (ℕ × ℕ)) (t : Pool)
        → IsPool t
        → length s.ops ≤ length t.ops
        → Child (length t.ops) r
        → Keeps Q t (f r t))
    → Keeps Q s ((can_be_pushed b op >>= f) s)
unfolding can_be_pushed
can_be_pushed-Keeps Q b op f s h o rest =
    Keeps->>= Child Q s (can_be_pushed b op) f
      (if-Keeps Child (is_select op.kind) _ _ s
        (input-Keeps Child 0 op (λ i. pure (some (0, i))) s h o
          λ i t h1 _ in_pool. (h1, omega arith, in_pool))
        (if-Keeps Child _ (find_child b op.inputs 0) (pure none) s
          (Keeps-Reads Child s _ h (find_child-Reads b op.inputs 0 s h o.inputs_in))
          (h, omega arith, tt)))
      rest

abbrev Lands : ℕ → Landing → Type 0
Lands n at = at.op < n

descend-Keeps :
    (k : ℕ) (b : BExpr) (at : Landing) (s : Pool)
    → IsPool s
    → at.op < length s.ops
    → Keeps Lands s (descend k b at s)
unfolding descend
descend-Keeps zero b at s h q = tt
descend-Keeps (suc k) b at s h q =
    let again = descend-Keeps k b in
    deref-Keeps Lands (some at.op) _ s h λ op t h1 le1 o.
      can_be_pushed-Keeps Lands b op _ t h1 o
        λ r u h2 le2 c. by_child again op r u h2 (omega (arith, q, le1, le2)) c
  where
    by_child :
        ((at' : Landing) (u : Pool)
          → IsPool u
          → at'.op < length u.ops
          → Keeps Lands u (descend k b at' u))
        → (op : Operator) (r : Option (ℕ × ℕ)) (u : Pool) → IsPool u
        → at.op < length u.ops
        → Child (length u.ops) r
        → Keeps Lands u (
            (elim r as (λ _. M Landing) [
              | none ↦ pure at
              | some (pos, i) ↦ descend k b (record {
                op = i;
                sibling_pos = pos;
                b_useful_push = if is_select op.kind then at.b_useful_push else true;
              })
            ])
              u)
    by_child again op none u h q c = (h, omega arith, q)
    by_child again op (some (pos, i)) u h q c = again _ u h c

insert_select-Keeps :
    (b : BExpr) (at : Landing) (s : Pool)
    → IsPool s
    → at.op < length s.ops
    → Keeps Any s (insert_select b at s)
unfolding insert_select
insert_select-Keeps b at s h q = deref-Keeps Any (some at.op) _ s h λ op t h1 le1 o.
    Keeps->>= Points Any t (mk_select (some at.op) b) _
      (mk_over-Keeps (OperatorKind.select b) _ _ (some at.op) t (λ xs few. (few, tt)) h1
        (omega (arith, q, le1)))
      λ copy u h2 le2 q2. ptr-Keeps Any copy _ _ u q2 tt λ c in_pool.
        then-Keeps Any u (set_input op.output at.sibling_pos c) (set_output (some c) op.output)
          (set_input-Keeps op.output at.sibling_pos c u h2 in_pool)
          λ v h3 le3.
            set_output-Keeps (some c) op.output v h3
              (Points-grow _ _ op.output (omega (arith, le2, le3)) o.output_in)

-- The selection is a selection, or the call does not return.
push_select-Keeps : (sel : ℕ) (s : Pool) → IsPool s → Keeps Any s (push_select sel s)
unfolding push_select
push_select-Keeps sel s h =
    deref-Keeps Any (some sel) _ s h λ op t h1 le1 o. by_kind op op.kind t h1 o
  where
    pushed :
        (b : BExpr) (at : Landing) (t : Pool)
        → IsPool t
        → at.op < length t.ops
        → Keeps Any t
            ((if at.b_useful_push then (insert_select b at >> pure true) else pure false) t)
    pushed b at t h q =
        if-Keeps Any at.b_useful_push (insert_select b at >> pure true) (pure false) t
          (then-Keeps Any t (insert_select b at) (pure true) (insert_select-Keeps b at t h q)
            λ u h1 _. (h1, omega arith, tt))
          (h, omega arith, tt)

    by_kind :
        (op : Operator) (k : OperatorKind) (t : Pool)
        → IsPool t
        → IsOperator (length t.ops) op
        → Keeps Any t (
            (elim k as (λ _. M Bool) [
              | OperatorKind.select b ↦ input 0 op >>= λ i.
                  descend fuel b (record { op = i; sibling_pos = 0; b_useful_push = false })
                  >>= λ at.
                      if at.b_useful_push then (insert_select b at >> pure true) else pure false
              | _ ↦ faults
            ])
              t)
    by_kind op (OperatorKind.select b) t h o = input-Keeps Any 0 op _ t h o λ i u h1 le1 in_pool.
        Keeps->>= Lands Any u
          (descend fuel b (record { op = i; sibling_pos = 0; b_useful_push = false })) _
          (descend-Keeps fuel b _ u h1 in_pool) λ at v h2 le2 q. pushed b at v h2 q
    by_kind op k t h o = tt

drop_select-Keeps :
    (pushed : Bool) (plan sel : ℕ) (s : Pool)
    → IsPool s
    → plan < length s.ops
    → Keeps In s (drop_select pushed plan sel s)
unfolding drop_select
drop_select-Keeps false plan sel s h q = (h, omega arith, q)
drop_select-Keeps true plan sel s h q = deref-Keeps In (some sel) _ s h λ op t h1 le1 o.
    input-Keeps In 0 op _ t h1 o λ src u h2 le2 in_pool.
      let o2 = Points-grow _ _ op.output le2 o.output_in in
      then-Keeps In u (set_output (some src) op.output) _
        (set_output-Keeps (some src) op.output u h2 o2)
        λ v h3 le3.
          ptr-Keeps In op.output _ _ v (Points-grow _ _ op.output le3 o2)
            (h3, omega arith, omega (arith, in_pool, le3))
            λ above _.
              then-Keeps In v (set_input (some above) 0 src) (pure plan)
                (set_input-Keeps (some above) 0 src v h3 (omega (arith, in_pool, le3)))
                λ w h4 le4. (h4, omega arith, omega (arith, q, le1, le2, le3, le4))

push_selects-Keeps :
    (k plan sel : ℕ) (s : Pool)
    → IsPool s
    → plan < length s.ops
    → Keeps In s (push_selects k plan sel s)
unfolding push_selects
push_selects-Keeps zero plan sel s h q = tt
push_selects-Keeps (suc k) plan sel s h q =
    let again = push_selects-Keeps k in
    Keeps->>= Any In s (push_select sel) _ (push_select-Keeps sel s h) λ pushed t h1 le1 _.
      Keeps->>= In In t (drop_select pushed plan sel) _
        (drop_select-Keeps pushed plan sel t h1 (omega (arith, q, le1)))
        λ plan' u h2 le2 q2. deref-Keeps In (some sel) _ u h2 λ op v h3 le3 o.
          input-Keeps In 0 op _ v h3 o λ next w h4 le4 _.
            deref-Keeps In (some next) _ w h4 λ below x h5 le5 _.
              let q5 : plan' < length x.ops = omega (arith, q2, le3, le4, le5) in
              if-Keeps In (is_select below.kind) (push_selects k plan' next) (pure plan') x
                (again plan' next x h5 q5) (h5, omega arith, q5)

-- One of the operators: no null.
abbrev pub IsRoot : ℕ → Ptr → Type 0
IsRoot n none = ⊥
IsRoot n (some i) = i < n

pub push_all_selects-Keeps :
    (plan : ℕ) (s : Pool)
    → IsPool s
    → plan < length s.ops
    → Keeps IsRoot s (push_all_selects plan s)
unfolding push_all_selects
push_all_selects-Keeps plan s h q =
    walk-Keeps IsRoot is_select _ fuel plan _ s h q λ found t h1 le1 r.
      ptr-Keeps IsRoot found _ _ t r (h1, omega arith, omega (arith, q, le1))
        λ sel _.
          Keeps->>= In IsRoot t (push_selects fuel plan sel) _
            (push_selects-Keeps fuel plan sel t h1 (omega (arith, q, le1)))
            λ plan' u h2 _ q2. (h2, omega arith, q2)

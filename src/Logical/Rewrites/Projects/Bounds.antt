-- ===== src/Logical/Rewrites/Projects/Bounds.antt =====
-- Removing a projection keeps the invariant of the pool.
use p.Common.{ℕ, ◌<◌, none, some, arith, length, if◌then◌else◌, Bool-cases, inl, inr}
use p.Logical.Plan.{Operator}
use p.Logical.Pool.{M, Ptr, Pool, pure, deref, set_output, ◌>>=◌, ◌>>◌}
use p.Logical.Pool.Invariant.{
  Points, Points-grow, IsOperator, IsOperator-grow, IsPool, Keeps, deref-Keeps, set_output-Keeps,
}
use p.Logical.Rewrites.Walk.Bounds.{
  then-Keeps, input-Keeps, set_input-Keeps, walk-Keeps, pure-Keeps,
}
use p.Logical.Rewrites.Walk.{fuel, input, set_input, is_project}
use p.Logical.Rewrites.Projects.{is_useless, passes_to_project, unlink, remove_project}

unlink-Keeps :
    (plan : Ptr) (op : Operator) (src : ℕ) (s : Pool)
    → IsPool s
    → Points (length s.ops) plan
    → IsOperator (length s.ops) op
    → src < length s.ops
    → Keeps Points s (unlink plan op src s)
unfolding unlink
unlink-Keeps plan op src s h q o in_pool =
    then-Keeps Points s (set_output (some src) op.output) _
      (set_output-Keeps (some src) op.output s h o.output_in)
      λ t h' le. by_output op.output t h' (Points-grow _ _ plan le q) (omega (arith, in_pool, le))
  where
    by_output :
        (above : Ptr) (t : Pool)
        → IsPool t
        → Points (length t.ops) plan
        → src < length t.ops
        → Keeps Points t (
            (elim above as (λ _. M Ptr) [
              | none ↦ pure (some src)
              | some above ↦ set_input (some above) 0 src >> pure plan
            ])
              t)
    by_output none t h q in_pool = (h, omega arith, in_pool)
    by_output (some above) t h q in_pool =
        then-Keeps Points t (set_input (some above) 0 src) (pure plan)
          (set_input-Keeps (some above) 0 src t h in_pool)
          λ u h' le. pure-Keeps plan u h' (Points-grow _ _ plan le q)

pub remove_project-Keeps :
    (plan : ℕ) (s : Pool) → IsPool s → plan < length s.ops → Keeps Points s (remove_project plan s)
unfolding remove_project
remove_project-Keeps plan s h q =
    walk-Keeps Points is_project passes_to_project fuel plan _ s h q
      λ found t h' le r. by_found found t h' (omega (arith, q, le))
  where
    by_found :
        (found : Ptr) (t : Pool)
        → IsPool t
        → plan < length t.ops
        → Keeps Points t (
            (elim found as (λ _. M Ptr) [
              | none ↦ pure (some plan)
              | some i ↦ deref (some i) >>= λ op. input 0 op >>= λ src.
                  deref (some src) >>= λ below.
                  if is_useless op below then unlink (some plan) op src else pure (some plan)
            ])
              t)
    by_found none t h q = (h, omega arith, q)
    by_found (some i) t h q = deref-Keeps Points (some i) _ t h λ op u h1 le1 o.
        input-Keeps Points 0 op _ u h1 o λ src v h2 le2 in_pool.
          deref-Keeps Points (some src) _ v h2 λ below w h3 le3 _.
            elim (Bool-cases (is_useless op below)) [
              | inl useless ↦ rw useless (
                  unlink-Keeps (some plan) op src w h3 (omega (arith, q, le1, le2, le3))
                    (IsOperator-grow _ _ (omega (arith, le2, le3)) op o)
                    (omega (arith, in_pool, le3)))
              | inr useful ↦ rw useful (h3, omega arith, omega (arith, q, le1, le2, le3))
            ]

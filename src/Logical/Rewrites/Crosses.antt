-- ===== src/Logical/Rewrites/Crosses.antt =====
-- AQSIOSCoordinator/src/querygen/log_plan_gen.cc: a cross product of several inputs becomes a tree
-- of binary ones.
pub mod Bounds
use p.Common.{ℕ, Bool, true, false, none, some, List, [], ◌∷◌, ◌==◌, fail, length, if◌then◌else◌}
use p.Logical.Plan.{OperatorKind}
use p.Logical.Pool.{M, Ptr, pure, fails, faults, deref, set_output, ◌>>=◌, ◌>>◌}
use p.Logical.Operators.{mk_cross, cross_add_input}
use p.Logical.Joins.{mk_stream_cross, stream_cross_add_input}
use p.Logical.Naive.{or_fail}
use p.Logical.Rewrites.Walk.{
  fuel, set_input, walk, is_cross, is_stream_cross, is_plain, is_group_aggr, is_xstream,
}

abbrev pub passes_to_join : OperatorKind → Bool
passes_to_join k = if is_plain k then true else (if is_group_aggr k then true else is_xstream k)

-- A binary cross product.
unfoldable pub cross_of : Ptr → ℕ → M Ptr
cross_of left right = (mk_cross >>= or_fail) >>= λ c.
    (cross_add_input c left >>= or_fail) >>= λ c'. cross_add_input c' (some right) >>= or_fail

unfoldable pub cross_chain : Ptr → List ℕ → M Ptr
cross_chain p [] = pure p
cross_chain p (i ∷ is) = cross_of p i >>= λ q. cross_chain q is

-- A binary stream cross product.
unfoldable pub stream_cross_of : Ptr → ℕ → M Ptr
stream_cross_of left right =
    (mk_stream_cross left >>= or_fail) >>= λ c. stream_cross_add_input c (some right) >>= or_fail

unfoldable pub stream_cross_chain : Ptr → List ℕ → M Ptr
stream_cross_chain p [] = pure p
stream_cross_chain p (i ∷ is) = stream_cross_of p i >>= λ q. stream_cross_chain q is

-- `new` takes the place of `old`, in the plan with the given root.
unfoldable pub replace : ℕ → Ptr → ℕ → M Ptr
replace plan none old = faults
replace plan (some new) old = deref (some old) >>= λ op.
    set_output (some new) op.output >> (elim op.output [
      | none ↦ pure (some new)
      | some above ↦ set_input (some above) 0 new >> pure (some plan)
    ])

-- Two inputs need no work. With fewer, the array is read beyond its inputs.
abbrev rebuild : (Ptr → List ℕ → M Ptr) → ℕ → ℕ → List ℕ → M Ptr
rebuild chain plan old [] = faults
rebuild chain plan old (i ∷ []) = faults
rebuild chain plan old (i ∷ j ∷ []) = pure (some plan)
rebuild chain plan old (i ∷ j ∷ k ∷ is) =
    chain (some i) (j ∷ k ∷ is) >>= λ new. replace plan new old

-- `t_makeCrossBinary`
unfoldable pub make_cross_binary : ℕ → M Ptr
make_cross_binary plan = walk is_cross passes_to_join fuel plan >>= λ found. elim found [
  | none ↦ pure (some plan)
  | some old ↦ deref (some old) >>= λ op. rebuild cross_chain plan old op.inputs
]

-- `t_makeStreamCrossBinary`
unfoldable pub make_stream_cross_binary : ℕ → M Ptr
make_stream_cross_binary plan = walk is_stream_cross passes_to_join fuel plan >>= λ found.
    elim found [
      | none ↦ pure (some plan)
      | some old ↦ deref (some old) >>= λ op. rebuild stream_cross_chain plan old op.inputs
    ]

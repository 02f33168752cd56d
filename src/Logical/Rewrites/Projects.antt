-- ===== src/Logical/Rewrites/Projects.antt =====
-- AQSIOSCoordinator/src/querygen/log_plan_gen.cc: a projection that changes nothing is removed.
pub mod Bounds
use p.Common.{ℕ, Bool, true, false, none, some, List, [], ◌∷◌, ◌==◌, length, if◌then◌else◌, ◌&&◌}
use p.Logical.Plan.{Attr, Operator, OperatorKind, same_attr}
use p.Logical.Pool.{M, Ptr, pure, deref, set_output, ◌>>=◌, ◌>>◌}
use p.Logical.Rewrites.Walk.{fuel, input, set_input, walk, is_select, is_project, is_xstream}

-- The loop of `isUselessProject`, over lists of one length.
abbrev pub same_attrs : List Attr → List Attr → Bool
same_attrs [] ys = true
same_attrs (x ∷ xs) [] = true
same_attrs (x ∷ xs) (y ∷ ys) = if same_attr x y then same_attrs xs ys else false

-- `isUselessProject`, of a projection and its input.
abbrev pub is_useless : Operator → Operator → Bool
is_useless project src =
    if length project.out_attrs == length src.out_attrs
    then same_attrs project.out_attrs src.out_attrs
    else false

abbrev is_distinct : OperatorKind → Bool
is_distinct OperatorKind.distinct = true
is_distinct k = false

abbrev pub passes_to_project : OperatorKind → Bool
passes_to_project k = if is_select k then true else (if is_distinct k then true else is_xstream k)

-- An operator over one input leaves the plan; `plan` is the root.
unfoldable pub unlink : Ptr → Operator → ℕ → M Ptr
unlink plan op src = set_output (some src) op.output >> (elim op.output [
  | none ↦ pure (some src)
  | some above ↦ set_input (some above) 0 src >> pure plan
])

-- `t_removeProject`
unfoldable pub remove_project : ℕ → M Ptr
remove_project plan = walk is_project passes_to_project fuel plan >>= λ found. elim found [
  | none ↦ pure (some plan)
  | some i ↦ deref (some i) >>= λ op. input 0 op >>= λ src. deref (some src) >>= λ below.
      if is_useless op below then unlink (some plan) op src else pure (some plan)
]

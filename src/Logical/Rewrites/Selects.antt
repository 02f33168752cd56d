-- ===== src/Logical/Rewrites/Selects.antt =====
-- AQSIOSCoordinator/src/querygen/log_plan_gen.cc: selections are pushed below the cross products;
-- and `check_reference` of logop.cc.
pub mod Bounds
use p.Common.{
  ℕ, zero, suc, Bool, true, false, Option, none, some, List, [], ◌∷◌, length, if◌then◌else◌,
}
use p.Logical.Plan.{Attr, Expr, BExpr, Operator, OperatorKind, same_attr}
use p.Logical.Pool.{M, Ptr, pure, faults, deref, set_output, ◌>>=◌, ◌>>◌}
use p.Logical.Operators.{mk_select}
use p.Logical.Rewrites.Walk.{
  fuel, input, set_input, walk, is_select, is_cross, is_stream_cross, is_xstream, is_group_aggr,
  is_plain,
}

-- `check_reference` of an attribute
abbrev pub has_attr : Attr → List Attr → Bool
has_attr a [] = false
has_attr a (b ∷ bs) = if same_attr a b then true else has_attr a bs

-- `check_reference` of an expression, over the output attributes of an operator
abbrev pub check_reference : List Attr → Expr → Bool
check_reference attrs (Expr.const_val v) = true
check_reference attrs (Expr.attr_ref a k) = has_attr a attrs
check_reference attrs (Expr.comp_expr k op l r) =
    if check_reference attrs l then check_reference attrs r else false

-- Both sides of a predicate; the right one is read only if the left one passes.
abbrev pub refers_to : List Attr → BExpr → M Bool
refers_to attrs b = elim b.left [
  | none ↦ faults
  | some l ↦
      if check_reference attrs l
      then elim b.right [ none ↦ faults | some r ↦ pure (check_reference attrs r) ]
      else pure false
]

-- The first input that has all attributes of the predicate, with its position.
unfoldable pub find_child : BExpr → List ℕ → ℕ → M (Option (ℕ × ℕ))
find_child b [] pos = pure none
find_child b (i ∷ is) pos = deref (some i) >>= λ op. refers_to op.out_attrs b >>= λ hit.
    if hit then pure (some (pos, i)) else find_child b is (suc pos)

abbrev is_join : OperatorKind → Bool
is_join k = if is_cross k then true else is_stream_cross k

-- `canBePushed`: the position below, with the operator there.
unfoldable pub can_be_pushed : BExpr → Operator → M (Option (ℕ × ℕ))
can_be_pushed b op =
    if is_select op.kind
    then (input 0 op >>= λ i. pure (some (0, i)))
    else (if is_join op.kind then find_child b op.inputs 0 else pure none)

-- Where the loop of `pushSelect` ends: the operator, its position, and whether an operator that is
-- no selection lies above it.
pub record Landing : Type 0 where
  pub op : ℕ
  pub sibling_pos : ℕ
  pub b_useful_push : Bool

unfoldable pub descend : ℕ → BExpr → Landing → M Landing
descend zero b at = faults
descend (suc k) b at = deref (some at.op) >>= λ op. can_be_pushed b op >>= λ below. elim below [
  | none ↦ pure at
  | some (pos, i) ↦ descend k b (record {
    op = i;
    sibling_pos = pos;
    b_useful_push = if is_select op.kind then at.b_useful_push else true;
  })
]

-- A copy of the selection goes between an operator and the one above it. A full pool gives null,
-- through which the copy's output is written.
unfoldable pub insert_select : BExpr → Landing → M (Unit {0})
insert_select b at = deref (some at.op) >>= λ op. mk_select (some at.op) b >>= λ copy. elim copy [
  | none ↦ faults
  | some c ↦ set_input op.output at.sibling_pos c >> set_output (some c) op.output
]

-- `pushSelect`, with whether a copy was made
unfoldable pub push_select : ℕ → M Bool
push_select sel = deref (some sel) >>= λ op. elim op.kind [
  | OperatorKind.select b ↦ input 0 op >>= λ i.
      descend fuel b (record { op = i; sibling_pos = 0; b_useful_push = false }) >>= λ at.
      if at.b_useful_push then (insert_select b at >> pure true) else pure false
  | _ ↦ faults
]

-- The selection leaves the plan, if a copy was made of it.
unfoldable pub drop_select : Bool → ℕ → ℕ → M ℕ
drop_select false plan sel = pure plan
drop_select true plan sel = deref (some sel) >>= λ op. input 0 op >>= λ src.
    set_output (some src) op.output
    >> (elim op.output [ none ↦ pure src | some above ↦ set_input (some above) 0 src >> pure plan ])

-- The loop of `t_pushSelect`.
unfoldable pub push_selects : ℕ → ℕ → ℕ → M ℕ
push_selects zero plan sel = faults
push_selects (suc k) plan sel = push_select sel >>= λ pushed.
    drop_select pushed plan sel >>= λ plan'. deref (some sel) >>= λ op. input 0 op >>= λ next.
    deref (some next) >>= λ below.
    if is_select below.kind then push_selects k plan' next else pure plan'

abbrev passes_to_select : OperatorKind → Bool
passes_to_select k = if is_xstream k then true else (if is_group_aggr k then true else is_plain k)

-- `t_pushSelect`
unfoldable pub push_all_selects : ℕ → M Ptr
push_all_selects plan = walk is_select passes_to_select fuel plan >>= λ found. elim found [
  | none ↦ pure (some plan)
  | some sel ↦ push_selects fuel plan sel >>= λ plan'. pure (some plan')
]

-- ===== src/Logical/Rewrites/Walk.antt =====
-- AQSIOSCoordinator/src/querygen/log_plan_gen.cc: what the rewrites share. A loop that follows
-- pointers runs on fuel: a path that meets no operator twice is shorter than the pool, so that the
-- size of the pool is enough for it. Without fuel the loop of the source would go round for ever,
-- which is a `fault` here.
pub mod Bounds
pub mod Ends
use p.Common.{
  ℕ, zero, suc, Bool, true, false, Option, none, some, List, [], ◌∷◌, Result, ok, fault, or_fault,
  length, get_elem?, set, if◌then◌else◌, ltb,
}
use p.Logical.Plan.{Operator, OperatorKind}
use p.Logical.Pool.{M, Ptr, pure, faults, lift, deref, store, ◌>>=◌, ◌>>◌, max_operator}

abbrev pub fuel : ℕ
fuel = suc max_operator

-- `op -> inputs [i]`
abbrev pub input : ℕ → Operator → M ℕ
input i op = lift (or_fault (get_elem? op.inputs i))

-- `p -> inputs [i] = q;` of an input that is there.
unfoldable pub set_input : Ptr → ℕ → ℕ → M (Unit {0})
set_input p i q = deref p >>= λ op.
    if ltb i (length op.inputs) then store p (record op { inputs = set op.inputs i q }) else faults

-- The loops down the plan: from `p` through the operators that `passes` admits to the first one
-- that `stops`; null if the pattern does not match.
unfoldable pub walk : (OperatorKind → Bool) → (OperatorKind → Bool) → ℕ → ℕ → M Ptr
walk stops passes zero p = faults
walk stops passes (suc k) p = deref (some p) >>= λ op.
    if stops op.kind
    then pure (some p)
    else (if passes op.kind then (input 0 op >>= λ q. walk stops passes k q) else pure none)

-- The kinds that the loops test for.
abbrev pub is_select : OperatorKind → Bool
is_select (OperatorKind.select b) = true
is_select k = false

abbrev pub is_project : OperatorKind → Bool
is_project (OperatorKind.project es) = true
is_project k = false

abbrev pub is_now : OperatorKind → Bool
is_now OperatorKind.now_win = true
is_now k = false

abbrev pub is_cross : OperatorKind → Bool
is_cross OperatorKind.cross = true
is_cross k = false

abbrev pub is_stream_cross : OperatorKind → Bool
is_stream_cross OperatorKind.stream_cross = true
is_stream_cross k = false

abbrev pub is_rstream : OperatorKind → Bool
is_rstream OperatorKind.rstream = true
is_rstream k = false

abbrev pub is_istream : OperatorKind → Bool
is_istream OperatorKind.istream = true
is_istream k = false

-- `LO_ISTREAM`, `LO_DSTREAM` and `LO_RSTREAM`
abbrev pub is_xstream : OperatorKind → Bool
is_xstream OperatorKind.istream = true
is_xstream OperatorKind.dstream = true
is_xstream OperatorKind.rstream = true
is_xstream k = false

-- `LO_SELECT`, `LO_PROJECT` and `LO_DISTINCT`
abbrev pub is_plain : OperatorKind → Bool
is_plain (OperatorKind.select b) = true
is_plain (OperatorKind.project es) = true
is_plain OperatorKind.distinct = true
is_plain k = false

abbrev pub is_group_aggr : OperatorKind → Bool
is_group_aggr (OperatorKind.group_aggr groups attrs fns) = true
is_group_aggr k = false

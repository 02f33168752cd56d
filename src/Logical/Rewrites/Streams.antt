-- ===== src/Logical/Rewrites/Streams.antt =====
-- AQSIOSCoordinator/src/querygen/log_plan_gen.cc: the rewrites that drop a relation-to-stream
-- operator. A rewrite returns the root of the plan.
pub mod Bounds
use p.Common.{
  ℕ, zero, suc, Bool, true, false, Option, none, some, List, [], ◌∷◌, ◌++◌, ok, fail, length,
  if◌then◌else◌,
}
use p.Logical.Plan.{Operator, OperatorKind}
use p.Logical.Pool.{M, Ptr, pure, fails, faults, deref, store, set_output, ◌>>=◌, ◌>>◌}
use p.Logical.Joins.{mk_stream_cross, stream_cross_add_input}
use p.Logical.Naive.{or_fail}
use p.Logical.Rewrites.Walk.{
  fuel, input, set_input, walk, is_rstream, is_istream, is_now, is_cross, is_plain, is_group_aggr,
}
use p.Logical.Rewrites.Schema.{update_schema, update_flags}

-- The loop that makes streams of the operators from `p` up.
unfoldable pub make_streams : ℕ → Ptr → M (Unit {0})
make_streams k none = pure tt
make_streams zero (some p) = faults
make_streams (suc k) (some p) = deref (some p) >>= λ op.
    store (some p) (record op { b_stream = true }) >> make_streams k op.output

-- The window is taken out; `below` is the new root, unless that was the window.
unfoldable pub remove_now : ℕ → ℕ → M Ptr
remove_now below now = deref (some now) >>= λ op. input 0 op >>= λ src.
    set_output (some src) op.output >> (elim op.output [
      | none ↦ pure (some src)
      | some above ↦
          set_input (some above) 0 src >> make_streams fuel (some above) >> pure (some below)
    ])

-- `t_rstreamNow`
unfoldable pub rstream_now : Ptr → M Ptr
rstream_now plan = deref plan >>= λ root.
    if is_rstream root.kind
    then (input 0 root >>= λ below. walk is_now is_plain fuel below >>= λ now. elim now [
      | none ↦ pure plan
      | some n ↦ set_output (some below) none >> remove_now below n
    ])
    else pure plan

-- `t_removeIstream`, of which the call is commented out.
unfoldable pub remove_istream : Ptr → M Ptr
remove_istream plan = deref plan >>= λ root.
    if is_istream root.kind
    then (input 0 root >>= λ below. deref (some below) >>= λ op.
        if op.b_stream then (set_output (some below) none >> pure (some below)) else pure plan)
    else pure plan

-- The first input that is a [Now] window, with the inputs before and behind it.
unfoldable pub split_now : List ℕ → List ℕ → M (Option (ℕ × List ℕ))
split_now before [] = pure none
split_now before (i ∷ is) = deref (some i) >>= λ op.
    if is_now op.kind then pure (some (i, before ++ is)) else split_now (before ++ i ∷ []) is

-- The loop that adds the other inputs.
unfoldable pub add_inputs : Ptr → List ℕ → M Ptr
add_inputs p [] = pure p
add_inputs p (i ∷ is) = (stream_cross_add_input p (some i) >>= or_fail) >>= λ q. add_inputs q is

-- `streamCross` takes the place of `cross`, below an operator.
unfoldable pub replace_cross : ℕ → Ptr → M (Unit {0})
replace_cross cross none = faults
replace_cross cross (some new) = deref (some cross) >>= λ op.
    set_output (some new) op.output
    >> set_input op.output 0 new
    >> update_schema fuel op.output
    >> update_flags fuel op.output

abbrev passes_to_cross : OperatorKind → Bool
passes_to_cross k = if is_plain k then true else is_group_aggr k

-- `t_streamCross`
unfoldable pub stream_cross : Ptr → M Ptr
stream_cross plan = deref plan >>= λ root.
    if is_rstream root.kind
    then (input 0 root >>= λ top. walk is_cross passes_to_cross fuel top >>= λ found. elim found [
      | none ↦ pure plan
      | some cross ↦ deref (some cross) >>= λ op. split_now [] op.inputs >>= λ split. elim split [
        | none ↦ pure plan
        | some (now, others) ↦ deref (some now) >>= λ win. input 0 win >>= λ src.
            (mk_stream_cross (some src) >>= or_fail) >>= λ p. add_inputs p others >>= λ new.
            replace_cross cross new
            >> (deref plan >>= λ root'.
                input 0 root' >>= λ below. set_output (some below) none >> pure (some below))
      ]
    ])
    else pure plan

-- ===== src/Logical/Rewrites/Schema.antt =====
-- AQSIOSCoordinator/src/querygen/logop.cc: the schemas and stream flags above a changed operator.
pub mod Bounds
use p.Common.{
  ℕ, zero, suc, ◌+◌, Bool, true, false, none, some, List, [], ◌∷◌, ◌++◌, ltb, fail, length,
  if◌then◌else◌, ◌&&◌,
}
use p.Metadata.Types.{max_attrs}
use p.Logical.Plan.{Operator, OperatorKind}
use p.Logical.Pool.{M, Ptr, pure, fails, faults, deref, store, ◌>>=◌, ◌>>◌}
use p.Logical.Rewrites.Walk.{input}

-- `append_schema`; nobody looks at its result, and a schema that does not fit is left out.
unfoldable pub append_schema : Ptr → ℕ → M (Unit {0})
append_schema dest src = deref dest >>= λ d. deref (some src) >>= λ op.
    if ltb max_attrs (length d.out_attrs + length op.out_attrs)
    then pure tt
    else store dest (record d { out_attrs = d.out_attrs ++ op.out_attrs })

unfoldable pub append_schemas : Ptr → List ℕ → M (Unit {0})
append_schemas dest [] = pure tt
append_schemas dest (i ∷ is) = append_schema dest i >> append_schemas dest is

-- What `update_schema_recursive` does at an operator of each kind.
pub data SchemaStep : Type 0 where
  keep_schema renew_schema no_renewal : SchemaStep

abbrev pub schema_step : OperatorKind → SchemaStep
schema_step (OperatorKind.project es) = keep_schema
schema_step (OperatorKind.group_aggr groups attrs fns) = keep_schema
schema_step (OperatorKind.stream_source v t) = keep_schema
schema_step (OperatorKind.reln_source v t) = keep_schema
schema_step OperatorKind.union = no_renewal
schema_step OperatorKind.except = no_renewal
schema_step k = renew_schema

-- `update_schema_recursive`
unfoldable pub update_schema : ℕ → Ptr → M (Unit {0})
update_schema k none = pure tt
update_schema zero (some p) = faults
update_schema (suc k) (some p) = deref (some p) >>= λ op. elim (schema_step op.kind) [
  | keep_schema ↦ pure tt
  | no_renewal ↦ fails fail
  | renew_schema ↦
      store (some p) (record op { out_attrs = [] })
      >> append_schemas (some p) op.inputs
      >> (deref (some p) >>= λ op'. update_schema k op'.output)
]

pub data FlagStep : Type 0 where
  keep_flag first_flag all_flags both_flags : FlagStep

abbrev pub flag_step : OperatorKind → FlagStep
flag_step (OperatorKind.project es) = first_flag
flag_step (OperatorKind.select b) = first_flag
flag_step OperatorKind.distinct = first_flag
flag_step OperatorKind.cross = all_flags
flag_step OperatorKind.union = both_flags
flag_step k = keep_flag

-- Whether all inputs are streams; the loop ends at the first that is none.
unfoldable pub all_streams : List ℕ → M Bool
all_streams [] = pure true
all_streams (i ∷ is) = deref (some i) >>= λ op. if op.b_stream then all_streams is else pure false

abbrev input_flag : ℕ → Operator → M Bool
input_flag i op = input i op >>= λ q. deref (some q) >>= λ src. pure src.b_stream

-- The right input of a union is read only if the left one is a stream.
abbrev pub new_flag : FlagStep → Operator → M Bool
new_flag keep_flag op = pure op.b_stream
new_flag first_flag op = input_flag 0 op
new_flag all_flags op = all_streams op.inputs
new_flag both_flags op = input_flag 0 op >>= λ l. if l then input_flag 1 op else pure false

-- `update_stream_property_recursive`
unfoldable pub update_flags : ℕ → Ptr → M (Unit {0})
update_flags k none = pure tt
update_flags zero (some p) = faults
update_flags (suc k) (some p) = deref (some p) >>= λ op. elim (flag_step op.kind) [
  | keep_flag ↦ pure tt
  | step ↦ new_flag step op >>= λ flag.
      store (some p) (record op { b_stream = flag }) >> update_flags k op.output
]

-- ===== src/Logical/Operators.antt =====
-- AQSIOSCoordinator/src/querygen/logop.cc, the constructors of the operators. `ASSERT` is empty in
-- the build. A null input is followed (its schema is copied), which is a `fault`. `out_attrs` of
-- an operator has room for `max_attrs` attributes: a write beyond it is a `fault` too.
pub mod Bounds
pub mod Inputs
pub mod Project
use p.Common.{
  ℕ, zero, suc, ◌+◌, Bool, true, false, Option, none, some, List, [], ◌∷◌, ◌++◌, ◌==◌, leb, ltb,
  Result, ok, fault, length, if◌then◌else◌, ◌&&◌, map,
}
use p.Metadata.Types.{Kind, AggrFn, max_attrs, get_output_type}
use p.Metadata.Tables.{TableManager, get_num_attrs, get_attr_type}
use p.Logical.Plan
use p.Logical.Plan.{
  Attr, unnamed, named, aggr, Expr, BExpr, Operator, OperatorKind, max_input_ops, max_group_attrs,
  max_aggr_attrs, type_of,
}
use p.Logical.Pool.{M, Ptr, pure, faults, lift, deref, store, set_output, new_op, ◌>>=◌, ◌>>◌}

-- The attributes of a source: `k` are left, from `a` on.
abbrev pub source_attrs : ℕ → ℕ → ℕ → ℕ → List Attr
source_attrs v t zero a = []
source_attrs v t (suc k) a = named v t a ∷ source_attrs v t k (suc a)

abbrev pub source : OperatorKind → ℕ → ℕ → Bool → ℕ → Operator
source kind v t flag k = record {
  kind = kind;
  out_attrs = source_attrs v t k 0;
  b_stream = flag;
  output = none;
  inputs = [];
}

-- `mk_stream_source`
unfoldable pub mk_stream_source : TableManager → ℕ → ℕ → M Ptr
mk_stream_source m v t =
    new_op
      (lift (get_num_attrs m t) >>= λ k. pure (source (OperatorKind.stream_source v t) v t true k))

-- `mk_reln_source`
unfoldable pub mk_reln_source : TableManager → ℕ → ℕ → M Ptr
mk_reln_source m v t =
    new_op
      (lift (get_num_attrs m t) >>= λ k. pure (source (OperatorKind.reln_source v t) v t false k))

-- `input -> output = op;` after `newop`, unless that returned null.
abbrev pub link : Ptr → Ptr → M Ptr
link none input = pure none
link (some op) input = set_output input (some op) >> pure (some op)

abbrev pub over : OperatorKind → List Attr → Bool → ℕ → Operator
over kind attrs flag input = record {
  kind = kind;
  out_attrs = attrs;
  b_stream = flag;
  output = none;
  inputs = input ∷ [];
}

-- A new operator over one input, from what the input's attributes and flag are.
unfoldable pub mk_over : OperatorKind → (List Attr → List Attr) → (Bool → Bool) → Ptr → M Ptr
mk_over kind attrs flag none = new_op faults
mk_over kind attrs flag (some i) =
    (new_op
      (deref (some i) >>= λ src. pure (over kind (attrs src.out_attrs) (flag src.b_stream) i)))
    >>= λ op. link op (some i)

-- `copy_schema`
abbrev copy : List Attr → List Attr
copy attrs = attrs

abbrev no_attrs : List Attr → List Attr
no_attrs attrs = []

abbrev keep : Bool → Bool
keep b = b

abbrev always : Bool → Bool → Bool
always b _ = b

abbrev pub mk_range_window : Ptr → ℕ → M Ptr
mk_range_window input time_units =
    mk_over (OperatorKind.range_win time_units) copy (always false) input

abbrev pub mk_row_window : Ptr → ℕ → M Ptr
mk_row_window input num_rows = mk_over (OperatorKind.row_win num_rows) copy (always false) input

abbrev pub mk_now_window : Ptr → M Ptr
mk_now_window = mk_over OperatorKind.now_win copy (always false)

abbrev pub mk_partn_window : Ptr → ℕ → M Ptr
mk_partn_window input num_rows =
    mk_over (OperatorKind.partn_win [] num_rows) copy (always false) input

abbrev pub mk_select : Ptr → BExpr → M Ptr
mk_select input b = mk_over (OperatorKind.select b) copy keep input

abbrev pub mk_project : Ptr → M Ptr
mk_project = mk_over (OperatorKind.project []) no_attrs keep

abbrev pub mk_group_aggr : Ptr → M Ptr
mk_group_aggr = mk_over (OperatorKind.group_aggr [] [] []) no_attrs (always false)

abbrev pub mk_distinct : Ptr → M Ptr
mk_distinct = mk_over OperatorKind.distinct copy keep

abbrev pub mk_istream : Ptr → M Ptr
mk_istream = mk_over OperatorKind.istream copy (always true)

abbrev pub mk_dstream : Ptr → M Ptr
mk_dstream = mk_over OperatorKind.dstream copy (always true)

abbrev pub mk_rstream : Ptr → M Ptr
mk_rstream = mk_over OperatorKind.rstream copy (always true)

abbrev pub add_to_partn : Ptr → Operator → Attr → OperatorKind → M Ptr
add_to_partn p op a (OperatorKind.partn_win attrs rows) =
    if length attrs == max_group_attrs
    then pure none
    else (store p (record op { kind = OperatorKind.partn_win (attrs ++ a ∷ []) rows }) >> pure p)
add_to_partn p op a k = faults

-- `partn_window_add_attr`; `none` of the inner result is the null that it returns.
pub partn_window_add_attr : Ptr → Attr → M Ptr
partn_window_add_attr p a = deref p >>= λ op. add_to_partn p op a op.kind

-- The output attribute of a projection.
abbrev pub project_attr : Expr → Attr
project_attr (Expr.attr_ref a k) = a
project_attr e = unnamed (type_of e)

abbrev pub add_to_project : Ptr → Operator → Option Expr → OperatorKind → M Ptr
add_to_project p op none (OperatorKind.project es) = faults
add_to_project p op (some x) (OperatorKind.project es) =
    store p (record op {
      kind = OperatorKind.project (es ++ x ∷ []);
      out_attrs = op.out_attrs ++ project_attr x ∷ [];
    })
    >> pure p
add_to_project p op e k = faults

-- `add_project_expr`
unfoldable pub add_project_expr : Ptr → Option Expr → M Ptr
add_project_expr p e = deref p >>= λ op.
    if length op.out_attrs == max_attrs then pure none else add_to_project p op e op.kind

-- A write to `outAttrs [numOutAttrs]`.
abbrev pub push_attr : Operator → Attr → (List Attr → M Ptr) → M Ptr
push_attr op a rest =
    if ltb (length op.out_attrs) max_attrs then rest (op.out_attrs ++ a ∷ []) else faults

abbrev pub add_to_groups : Ptr → Operator → Attr → OperatorKind → M Ptr
add_to_groups p op a (OperatorKind.group_aggr groups attrs fns) =
    if length groups == max_group_attrs
    then pure none
    else push_attr op a (λ out.
      store p
        (record op { kind = OperatorKind.group_aggr (groups ++ a ∷ []) attrs fns; out_attrs = out })
      >> pure p)
add_to_groups p op a k = faults

-- `add_group_attr`
unfoldable pub add_group_attr : Ptr → Attr → M Ptr
add_group_attr p a = deref p >>= λ op. add_to_groups p op a op.kind

-- The output attribute of an aggregation. `attr.u.UNNAMED.type` is read of every attribute that is
-- not named; an aggregation is never taken over one that is aggregated itself.
abbrev pub aggr_attr : AggrFn → Attr → Result Attr
aggr_attr fn (named v t a) = ok (aggr v t a fn)
aggr_attr fn (unnamed k) = ok (unnamed (get_output_type fn k))
aggr_attr fn (aggr v t a f) = fault

abbrev pub add_to_aggrs : Ptr → Operator → AggrFn → Attr → OperatorKind → M Ptr
add_to_aggrs p op fn a (OperatorKind.group_aggr groups attrs fns) =
    if length attrs == max_aggr_attrs
    then pure none
    else (lift (aggr_attr fn a) >>= λ x. push_attr op x (λ out.
        store p (record op {
          kind = OperatorKind.group_aggr groups (attrs ++ a ∷ []) (fns ++ fn ∷ []);
          out_attrs = out;
        })
        >> pure p))
add_to_aggrs p op fn a k = faults

-- `add_aggr`
unfoldable pub add_aggr : Ptr → AggrFn → Attr → M Ptr
add_aggr p fn a = deref p >>= λ op. add_to_aggrs p op fn a op.kind

-- `mk_cross`
unfoldable pub mk_cross : M Ptr
mk_cross = new_op (
    pure (record {
      kind = OperatorKind.cross;
      out_attrs = [];
      b_stream = true;
      output = none;
      inputs = [];
    }))

-- `cross_add_input`
unfoldable pub cross_add_input : Ptr → Ptr → M Ptr
cross_add_input c input = deref c >>= λ op. elim input [
  | none ↦ faults
  | some i ↦ deref (some i) >>= λ src.
      if ltb max_attrs (length op.out_attrs + length src.out_attrs)
      then pure none
      else if length op.inputs == max_input_ops
      then pure none
      else (store c (record op {
        inputs = op.inputs ++ i ∷ [];
        out_attrs = op.out_attrs ++ src.out_attrs;
        b_stream = op.b_stream && src.b_stream;
      })
          >> set_output (some i) c
          >> pure c)
]

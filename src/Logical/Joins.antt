-- ===== src/Logical/Joins.antt =====
-- AQSIOSCoordinator/src/querygen/logop.cc: union, except and the stream cross product.
pub mod Bounds
use p.Common.{
  ◌+◌, Bool, true, false, none, some, List, [], ◌∷◌, ◌++◌, ◌==◌, ltb, Result, ok, err, fault,
  length, if◌then◌else◌, ◌&&◌,
}
use p.Metadata.Types.{Kind, max_attrs, get_output_type}
use p.Metadata.Tables.{TableManager, get_attr_type}
use p.Logical.Plan.{Attr, unnamed, named, aggr, OperatorKind, max_input_ops}
use p.Logical.Pool.{M, Ptr, pure, faults, lift, deref, store, set_output, new_op, ◌>>=◌, ◌>>◌}
use p.Logical.Operators.{mk_over}

-- `getAttrType`
pub get_type : TableManager → Attr → Result Kind
get_type m (named v t a) = get_attr_type m t a
get_type m (aggr v t a fn) = elim (get_attr_type m t a) [
  | ok k ↦ ok (get_output_type fn k)
  | err e ↦ err e
  | fault ↦ fault
]
get_type m (unnamed k) = ok k

-- The schema of a union: unnamed attributes, of the types of the left input's.
unfoldable pub types_of : TableManager → List Attr → M (List Attr)
types_of m [] = pure []
types_of m (a ∷ attrs) =
    lift (get_type m a) >>= λ k. types_of m attrs >>= λ rest. pure (unnamed k ∷ rest)

abbrev pub mk_binary : TableManager → OperatorKind → (Bool → Bool → Bool) → Ptr → Ptr → M Ptr
mk_binary m kind flag none right = new_op faults
mk_binary m kind flag (some i) none = new_op faults
mk_binary m kind flag (some i) (some j) =
    (new_op (
      deref (some i) >>= λ l. deref (some j) >>= λ r. types_of m l.out_attrs >>= λ attrs.
      pure (record {
        kind = kind;
        out_attrs = attrs;
        b_stream = flag l.b_stream r.b_stream;
        output = none;
        inputs = i ∷ j ∷ [];
      })))
    >>= λ op. elim op [
      | none ↦ pure none
      | some k ↦ set_output (some i) (some k) >> (set_output (some j) (some k) >> pure (some k))
    ]

abbrev never : Bool → Bool → Bool
never a b = false

-- `mk_union`: a stream if both inputs are.
pub mk_union : TableManager → Ptr → Ptr → M Ptr
mk_union m = mk_binary m OperatorKind.union ◌&&◌

-- `mk_except`
pub mk_except : TableManager → Ptr → Ptr → M Ptr
mk_except m = mk_binary m OperatorKind.except never

-- `mk_stream_cross`
unfoldable pub mk_stream_cross : Ptr → M Ptr
mk_stream_cross = mk_over OperatorKind.stream_cross (λ attrs. attrs) (λ flag. true)

-- `stream_cross_add_input`: the input is linked before the number of attributes is tested.
unfoldable pub stream_cross_add_input : Ptr → Ptr → M Ptr
stream_cross_add_input p input = deref p >>= λ op.
    if length op.inputs == max_input_ops then pure none else elim input [
      | none ↦ faults
      | some i ↦
          store p (record op { inputs = op.inputs ++ i ∷ [] })
          >> (set_output (some i) p
              >> (deref (some i) >>= λ src. deref p >>= λ op'.
                  if ltb max_attrs (length op'.out_attrs + length src.out_attrs)
                  then pure none
                  else store p (record op' { out_attrs = op'.out_attrs ++ src.out_attrs })
                    >> pure p))
    ]

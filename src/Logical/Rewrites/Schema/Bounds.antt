-- ===== src/Logical/Rewrites/Schema/Bounds.antt =====
-- Renewing schemas and flags keeps the invariant of the pool: no schema outgrows its array.
use p.Common.{
  ℕ, zero, suc, ◌+◌, ◌≡◌, refl, Bool, true, false, none, some, List, [], ◌∷◌, ◌++◌, Error, arith,
  length, if◌then◌else◌, ltb, Bool-cases, inl, inr, length-append,
}
use p.Metadata.Types.{max_attrs}
use p.Logical.Plan.{Operator, OperatorKind}
use p.Logical.Pool.{M, Ptr, Pool, pure, fails, deref, store, ◌>>=◌, ◌>>◌}
use p.Logical.Pool.Invariant.{
  KindFits, KindFits-grow, IsOperator, IsOperator-grow, IsPool, Keeps, Keeps->>=, Keeps-Reads,
  Reads, Reads->>=, deref-Reads, deref-Keeps, store-Keeps, Any, IsOperator-change,
}
use p.Logical.Rewrites.Walk.{input}
use p.Logical.Rewrites.Walk.Bounds.{In, input-Reads, then-Keeps}
use p.Logical.Rewrites.Schema.{
  append_schema, append_schemas, SchemaStep, schema_step, update_schema, FlagStep, flag_step,
  all_streams, new_flag, update_flags,
}

pub append_schema-Keeps :
    (dest : Ptr) (src : ℕ) (s : Pool) → IsPool s → Keeps Any s (append_schema dest src s)
unfolding append_schema
append_schema-Keeps dest src s h = deref-Keeps Any dest _ s h λ d t h' le o.
    deref-Keeps Any (some src) _ t h' λ op u h'' le' _.
      let size = length-append d.out_attrs op.out_attrs in
      elim (Bool-cases (ltb max_attrs (length d.out_attrs + length op.out_attrs))) [
        | inl over ↦ rw over (h'', omega arith, tt)
        | inr fits ↦ rw fits (
            store-Keeps dest _ u h'' (
              IsOperator-change (length u.ops) d d.kind (d.out_attrs ++ op.out_attrs)
                (IsOperator-grow _ _ le' d o) (ground (arith, size))
                (KindFits-grow d.kind _ _ (omega (arith, size)) o.fits)))
      ]

append_schemas-Keeps :
    (dest : Ptr) (is : List ℕ) (s : Pool) → IsPool s → Keeps Any s (append_schemas dest is s)
unfolding append_schemas
append_schemas-Keeps dest [] s h = (h, omega arith, tt)
append_schemas-Keeps dest (i ∷ is) s h =
    then-Keeps Any s (append_schema dest i) (append_schemas dest is)
      (append_schema-Keeps dest i s h) λ t h' le. append_schemas-Keeps dest is t h'

-- An operator of a kind that is renewed has no array beside its attributes.
emptied :
    (n : ℕ) (op : Operator) (k : OperatorKind)
    → schema_step k ≡ SchemaStep.renew_schema
    → KindFits k (length op.out_attrs)
    → KindFits k 0
emptied n op (OperatorKind.partn_win attrs rows) e f = f
emptied n op (OperatorKind.project es) e f = cc
emptied n op (OperatorKind.group_aggr groups attrs fns) e f = cc
emptied n op k e f = tt

-- What an operator whose schema is renewed does, and then the operators above it.
renewed-Keeps :
    (k p : ℕ) (op : Operator) (t : Pool)
    → ((q : Ptr) (u : Pool) → IsPool u → Keeps Any u (update_schema k q u))
    → IsPool t
    → IsOperator (length t.ops) op
    → KindFits op.kind 0
    → Keeps Any t (
        (store (some p) (record op { out_attrs = [] })
            >> append_schemas (some p) op.inputs
            >> (deref (some p) >>= λ op'. update_schema k op'.output))
          t)
renewed-Keeps k p op t again h o f =
    then-Keeps Any t
      (store (some p) (record op { out_attrs = [] }) >> append_schemas (some p) op.inputs)
      (deref (some p) >>= λ op'. update_schema k op'.output)
      (then-Keeps Any t (store (some p) (record op { out_attrs = [] }))
        (append_schemas (some p) op.inputs)
        (store-Keeps (some p) _ t h
          (IsOperator-change (length t.ops) op op.kind [] o (omega arith) f))
        λ u h' le. append_schemas-Keeps (some p) op.inputs u h')
      λ u h' le. deref-Keeps Any (some p) _ u h' λ op' v h'' _ _. again op'.output v h''

pub update_schema-Keeps :
    (k : ℕ) (p : Ptr) (s : Pool) → IsPool s → Keeps Any s (update_schema k p s)
unfolding update_schema
update_schema-Keeps zero none s h = (h, omega arith, tt)
update_schema-Keeps (suc k) none s h = (h, omega arith, tt)
update_schema-Keeps zero (some p) s h = tt
update_schema-Keeps (suc k) (some p) s h =
    deref-Keeps Any (some p) _ s h
      λ op t h' le o. by_step (update_schema-Keeps k) op t h' o (schema_step op.kind) refl
  where
    by_step :
        ((q : Ptr) (u : Pool) → IsPool u → Keeps Any u (update_schema k q u))
        → (op : Operator) (t : Pool) → IsPool t
        → IsOperator (length t.ops) op
        → (step : SchemaStep) → schema_step op.kind ≡ step
        → Keeps Any t (
            (elim step as (λ _. M (Unit {0})) [
              | SchemaStep.keep_schema ↦ pure tt
              | SchemaStep.no_renewal ↦ fails Error.fail
              | SchemaStep.renew_schema ↦
                  store (some p) (record op { out_attrs = [] })
                  >> append_schemas (some p) op.inputs
                  >> (deref (some p) >>= λ op'. update_schema k op'.output)
            ])
              t)
    by_step again op t h o SchemaStep.keep_schema e = (h, omega arith, tt)
    by_step again op t h o SchemaStep.no_renewal e = tt
    by_step again op t h o SchemaStep.renew_schema e =
        renewed-Keeps k p op t again h o (emptied (length t.ops) op op.kind e o.fits)

-- Only flags are read.
abbrev Yes : {A : Type 0} → A → Type 0
Yes a = Unit

all_streams-Reads : (is : List ℕ) (s : Pool) → IsPool s → Reads Yes s (all_streams is s)
unfolding all_streams
all_streams-Reads [] s h = (refl, tt)
all_streams-Reads (i ∷ is) s h =
    Reads->>= (IsOperator (length s.ops)) Yes s (deref (some i)) _ (deref-Reads (some i) s h)
      λ op o. elim (Bool-cases op.b_stream) [
        | inl stream ↦ rw stream (all_streams-Reads is s h)
        | inr other ↦ rw other (refl, tt)
      ]

input_flag-Reads :
    (i : ℕ) (op : Operator) (s : Pool)
    → IsPool s
    → IsOperator (length s.ops) op
    → Reads Yes s ((input i op >>= λ q. deref (some q) >>= λ src. pure src.b_stream) s)
input_flag-Reads i op s h o =
    let n = length s.ops in
    Reads->>= (In n) Yes s (input i op) _ (input-Reads i op s n o) λ q _.
      Reads->>= (IsOperator n) Yes s (deref (some q)) (λ src. pure src.b_stream)
        (deref-Reads (some q) s h) λ src _. (refl, tt)

new_flag-Reads :
    (step : FlagStep) (op : Operator) (s : Pool)
    → IsPool s
    → IsOperator (length s.ops) op
    → Reads Yes s (new_flag step op s)
new_flag-Reads FlagStep.keep_flag op s h o = (refl, tt)
new_flag-Reads FlagStep.first_flag op s h o = input_flag-Reads 0 op s h o
new_flag-Reads FlagStep.all_flags op s h o = all_streams-Reads op.inputs s h
new_flag-Reads FlagStep.both_flags op s h o =
    Reads->>= Yes Yes s (input 0 op >>= λ q. deref (some q) >>= λ src. pure src.b_stream) _
      (input_flag-Reads 0 op s h o) right
  where
    right :
        (l : Bool)
        → Yes l
        → Reads Yes s (
            (if l
                then (input 1 op >>= λ q. deref (some q) >>= λ src. pure src.b_stream)
                else pure false)
              s)
    right true _ = input_flag-Reads 1 op s h o
    right false _ = (refl, tt)

-- The same operator with another flag.
pub flagged :
    (n : ℕ) (op : Operator) (b : Bool) → IsOperator n op → IsOperator n (record op { b_stream = b })
flagged n op b o = record {
  few_attrs = o.few_attrs;
  fits = o.fits;
  few_inputs = o.few_inputs;
  inputs_in = o.inputs_in;
  output_in = o.output_in;
}

-- The flag is written, and then the operators above follow.
reflagged-Keeps :
    (k p : ℕ) (step : FlagStep) (op : Operator) (t : Pool)
    → ((q : Ptr) (u : Pool) → IsPool u → Keeps Any u (update_flags k q u))
    → IsPool t
    → IsOperator (length t.ops) op
    → Keeps Any t (
        (new_flag step op >>= λ flag.
        store (some p) (record op { b_stream = flag }) >> update_flags k op.output)
          t)
reflagged-Keeps k p step op t again h o =
    Keeps->>= Any Any t (new_flag step op) _ (Keeps-Reads Any t _ h (new_flag-Reads step op t h o))
      λ flag u h' le _.
        then-Keeps Any u (store (some p) (record op { b_stream = flag })) (update_flags k op.output)
          (store-Keeps (some p) _ u h'
            (flagged (length u.ops) op flag (IsOperator-grow _ _ le op o)))
          λ v h'' _. again op.output v h''

pub update_flags-Keeps : (k : ℕ) (p : Ptr) (s : Pool) → IsPool s → Keeps Any s (update_flags k p s)
unfolding update_flags
update_flags-Keeps zero none s h = (h, omega arith, tt)
update_flags-Keeps (suc k) none s h = (h, omega arith, tt)
update_flags-Keeps zero (some p) s h = tt
update_flags-Keeps (suc k) (some p) s h =
    deref-Keeps Any (some p) _ s h
      λ op t h' le o. by_step (update_flags-Keeps k) op t h' o (flag_step op.kind)
  where
    by_step :
        ((q : Ptr) (u : Pool) → IsPool u → Keeps Any u (update_flags k q u))
        → (op : Operator) (t : Pool) → IsPool t
        → IsOperator (length t.ops) op
        → (step : FlagStep)
        → Keeps Any t (
            (elim step as (λ _. M (Unit {0})) [
              | FlagStep.keep_flag ↦ pure tt
              | step ↦ new_flag step op >>= λ flag.
                  store (some p) (record op { b_stream = flag }) >> update_flags k op.output
            ])
              t)
    by_step again op t h o FlagStep.keep_flag = (h, omega arith, tt)
    by_step again op t h o FlagStep.first_flag =
        reflagged-Keeps k p FlagStep.first_flag op t again h o
    by_step again op t h o FlagStep.all_flags =
        reflagged-Keeps k p FlagStep.all_flags op t again h o
    by_step again op t h o FlagStep.both_flags =
        reflagged-Keeps k p FlagStep.both_flags op t again h o

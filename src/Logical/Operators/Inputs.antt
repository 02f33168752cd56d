-- ===== src/Logical/Operators/Inputs.antt =====
-- The sources and the cross product keep the invariant of the pool.
use p.Common.{
  ℕ, zero, suc, ◌+◌, ◌<◌, ◌≤◌, ◌≡◌, refl, ap, Bool, true, false, none, some, [], ◌∷◌, ◌++◌, ◌==◌,
  ok, arith, length, get_elem?, ltb, ◌&&◌, Bool-cases, Option-cases, inl, inr, All-get, All-append,
  length-append,
}
use p.Metadata.Types.{max_attrs}
use p.Metadata.Tables.{TableManager, get_num_attrs}
use p.Metadata.Tables.Invariant.{IsValid, IsTable}
use p.Logical.Plan.{Operator, OperatorKind, max_input_ops}
use p.Logical.Pool.{Ptr, Pool, pure, store, set_output, new_op, lift, ◌>>=◌, ◌>>◌}
use p.Logical.Pool.Invariant.{
  Points, Points-grow, KindFits, IsOperator, IsPool, Keeps, Keeps->>=, Reads->>=, lift-Reads,
  store-Keeps, set_output-Keeps, new_op-Keeps, deref-Keeps, IsOperator-grow, KindFits-grow, Any,
}
use p.Logical.Operators.{
  mk_stream_source, mk_reln_source, source, source_attrs, over, mk_cross, cross_add_input,
}

length-source_attrs : (v t k a : ℕ) → length (source_attrs v t k a) ≡ k
length-source_attrs v t zero a = refl
length-source_attrs v t (suc k) a = ap suc (length-source_attrs v t k (suc a))

-- A registered table fits the array of an operator.
get_num_attrs-le-max_attrs :
    (m : TableManager) (t k : ℕ) → IsValid m → get_num_attrs m t ≡ ok k → k ≤ max_attrs
unfolding get_num_attrs
get_num_attrs-le-max_attrs m t k v e = elim (Option-cases (get_elem? m.tables t)) [
  | inl gone ↦ ground arith
  | inr (x, at) ↦
      let few = (All-get IsTable m.tables t v.each_table at).few_attrs in ground (arith, few, at)
]

module _ (m : TableManager) (v t : ℕ) (s : Pool) (valid : IsValid m) (h : IsPool s) where
  source-Keeps :
      (kind : OperatorKind) (flag : Bool)
      → ((k : ℕ) → KindFits kind k)
      → Keeps Points s (new_op (lift (get_num_attrs m t) >>= λ k. pure (source kind v t flag k)) s)
  source-Keeps kind flag f =
      new_op-Keeps (lift (get_num_attrs m t) >>= λ k. pure (source kind v t flag k)) s h (
        Reads->>= (λ k. get_num_attrs m t ≡ ok k) (IsOperator (length s.ops)) s
          (lift (get_num_attrs m t)) (λ k. pure (source kind v t flag k))
          (lift-Reads (get_num_attrs m t) s)
          λ k e. (
            refl,
            record {
              few_attrs =
                  omega
                    (arith, length-source_attrs v t k 0, get_num_attrs-le-max_attrs m t k valid e);
              fits = f (length (source_attrs v t k 0));
              few_inputs = omega arith;
              inputs_in = tt;
              output_in = tt;
            },
          ))

  pub mk_stream_source-Keeps : Keeps Points s (mk_stream_source m v t s)
  unfolding mk_stream_source
  mk_stream_source-Keeps = source-Keeps (OperatorKind.stream_source v t) true λ k. tt

  pub mk_reln_source-Keeps : Keeps Points s (mk_reln_source m v t s)
  unfolding mk_reln_source
  mk_reln_source-Keeps = source-Keeps (OperatorKind.reln_source v t) false λ k. tt

pub mk_cross-Keeps : (s : Pool) → IsPool s → Keeps Points s (mk_cross s)
unfolding mk_cross
mk_cross-Keeps s h =
    new_op-Keeps
      (pure (record {
        kind = OperatorKind.cross;
        out_attrs = [];
        b_stream = true;
        output = none;
        inputs = [];
      }))
      s h
      (
        refl,
        record {
          few_attrs = omega arith;
          fits = tt;
          few_inputs = omega arith;
          inputs_in = tt;
          output_in = tt;
        },
      )

-- The cross product with one more input.
abbrev crossed : Operator → Operator → ℕ → Operator
crossed op src i = record op {
  inputs = op.inputs ++ i ∷ [];
  out_attrs = op.out_attrs ++ src.out_attrs;
  b_stream = op.b_stream && src.b_stream;
}

-- The writes of `cross_add_input`.
cross_linked :
    (c : Ptr) (i : ℕ) (op src : Operator) (t : Pool)
    → IsPool t
    → Points (length t.ops) c
    → i < length t.ops
    → IsOperator (length t.ops) op
    → length op.out_attrs + length src.out_attrs ≤ max_attrs
    → suc (length op.inputs) ≤ max_input_ops
    → Keeps Points t ((store c (crossed op src i) >> set_output (some i) c >> pure c) t)
cross_linked c i op src t h q in_pool o few room =
    let size = length-append op.out_attrs src.out_attrs in
    Keeps->>= Any Points t (store c (crossed op src i) >> set_output (some i) c) (λ _. pure c)
      (Keeps->>= Any Any t (store c (crossed op src i)) (λ _. set_output (some i) c)
        (store-Keeps c (crossed op src i) t h (record {
          few_attrs = omega (arith, size, few);
          fits = KindFits-grow op.kind _ _ (omega (arith, size)) o.fits;
          few_inputs = omega (arith, length-append op.inputs (i ∷ []), room);
          inputs_in = All-append _ op.inputs (i ∷ []) o.inputs_in (in_pool, tt);
          output_in = o.output_in;
        }))
        λ _ t' h' le _. set_output-Keeps (some i) c t' h' (Points-grow _ _ c le q))
      λ _ t' h' le _. (h', omega arith, Points-grow _ _ c le q)

pub cross_add_input-Keeps :
    (c input : Ptr) (s : Pool)
    → IsPool s
    → Points (length s.ops) c
    → Points (length s.ops) input
    → Keeps Points s (cross_add_input c input s)
unfolding cross_add_input
cross_add_input-Keeps c none s h q r = deref-Keeps Points c _ s h λ op t h' le o. tt
cross_add_input-Keeps c (some i) s h q r = deref-Keeps Points c _ s h λ op t h' le o.
    deref-Keeps Points (some i) _ t h' λ src u h'' le' o'.
      elim (Bool-cases (ltb max_attrs (length op.out_attrs + length src.out_attrs))) [
        | inl over ↦ rw over (h'', omega arith, tt)
        | inr fits ↦ elim (Bool-cases (length op.inputs == max_input_ops)) [
          | inl full ↦ rw (fits, full) (h'', omega arith, tt)
          | inr room ↦
              rw (fits, room)
                (cross_linked c i op src u h'' (Points-grow _ _ c (omega (arith, le, le')) q)
                  (omega (arith, r, le, le')) (IsOperator-grow _ _ le' op o) (ground (arith, fits))
                  (ground (arith, room, o.few_inputs)))
        ]
      ]

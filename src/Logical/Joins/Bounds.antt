-- ===== src/Logical/Joins/Bounds.antt =====
-- Union and except keep the invariant of the pool.
use p.Common.{
  ℕ, suc, ◌+◌, ◌<◌, ◌≤◌, ◌≡◌, refl, ap, Bool, none, some, List, [], ◌∷◌, ◌++◌, ◌==◌, ok, arith,
  length, ◌&&◌, ltb, if◌then◌else◌, Bool-cases, inl, inr, All-append, length-append,
}
use p.Metadata.Types.{max_attrs}
use p.Metadata.Tables.{TableManager}
use p.Logical.Plan.{Attr, unnamed, Operator, OperatorKind, max_input_ops}
use p.Logical.Pool.{M, Ptr, Pool, pure, faults, deref, store, set_output, new_op, lift, ◌>>=◌, ◌>>◌}
use p.Logical.Pool.Invariant.{
  Points, Points-grow, KindFits, KindFits-grow, IsOperator, IsOperator-change, IsPool, Keeps,
  Keeps->>=, Reads, Reads->>=, lift-Reads, deref-Reads, deref-Keeps, store-Keeps, store-pure-Keeps,
  set_output-Keeps, new_op-Keeps, Any,
}
use p.Logical.Operators.Bounds.{mk_over-Keeps}
use p.Logical.Joins.{
  get_type, types_of, mk_binary, mk_union, mk_except, mk_stream_cross, stream_cross_add_input,
}

types_of-Reads :
    (m : TableManager) (attrs : List Attr) (s : Pool)
    → Reads (λ xs. length xs ≡ length attrs) s (types_of m attrs s)
unfolding types_of
types_of-Reads m [] s = (refl, refl)
types_of-Reads m (a ∷ attrs) s =
    Reads->>= (λ k. get_type m a ≡ ok k) _ s (lift (get_type m a)) _ (lift-Reads (get_type m a) s)
      λ k _.
        Reads->>= (λ xs. length xs ≡ length attrs) _ s (types_of m attrs)
          (λ rest. pure (unnamed k ∷ rest)) (types_of-Reads m attrs s) λ rest e. (refl, ap suc e)

module _ (m : TableManager) (kind : OperatorKind) (flag : Bool → Bool → Bool)
    (plain : (n : ℕ) → KindFits kind n) where
  abbrev joined : ℕ → ℕ → Operator → Operator → List Attr → Operator
  joined i j l r attrs = record {
    kind = kind;
    out_attrs = attrs;
    b_stream = flag l.b_stream r.b_stream;
    output = none;
    inputs = i ∷ j ∷ [];
  }

  abbrev build : ℕ → ℕ → M Operator
  build i j = deref (some i) >>= λ l.
      deref (some j) >>= λ r. types_of m l.out_attrs >>= λ attrs. pure (joined i j l r attrs)

  build-Reads :
      (i j : ℕ) (s : Pool)
      → IsPool s
      → i < length s.ops
      → j < length s.ops
      → Reads (IsOperator (length s.ops)) s (build i j s)
  build-Reads i j s h p q =
      let P = IsOperator (length s.ops) in
      Reads->>= P P s (deref (some i)) _ (deref-Reads (some i) s h) λ l o.
        Reads->>= P P s (deref (some j)) _ (deref-Reads (some j) s h) λ r _.
          Reads->>= (λ xs. length xs ≡ length l.out_attrs) P s (types_of m l.out_attrs)
            (λ attrs. pure (joined i j l r attrs)) (types_of-Reads m l.out_attrs s)
            λ attrs e. (
              refl,
              record {
                few_attrs = omega (arith, e, o.few_attrs);
                fits = plain (length attrs);
                few_inputs = omega arith;
                inputs_in = (p, (q, tt));
                output_in = tt;
              },
            )

  mk_binary-Keeps :
      (left right : Ptr) (s : Pool)
      → IsPool s
      → Points (length s.ops) left
      → Points (length s.ops) right
      → Keeps Points s (mk_binary m kind flag left right s)
  mk_binary-Keeps none right s h p q = new_op-Keeps faults s h tt
  mk_binary-Keeps (some i) none s h p q = new_op-Keeps faults s h tt
  mk_binary-Keeps (some i) (some j) s h p q =
      Keeps->>= Points Points s (new_op (build i j)) _
        (new_op-Keeps (build i j) s h (build-Reads i j s h p q)) linked
    where
      linked :
          (op : Ptr) (t : Pool)
          → IsPool t
          → length s.ops ≤ length t.ops
          → Points (length t.ops) op
          → Keeps Points t (
              (elim op as (λ _. M Ptr) [
                | none ↦ pure none
                | some k ↦
                    set_output (some i) (some k) >> (set_output (some j) (some k) >> pure (some k))
              ])
                t)
      linked none t h le r = (h, omega arith, tt)
      linked (some k) t h le r =
          Keeps->>= Any Points t (set_output (some i) (some k)) _
            (set_output-Keeps (some i) (some k) t h r)
            λ _ u h' le' _.
              Keeps->>= Any Points u (set_output (some j) (some k)) _
                (set_output-Keeps (some j) (some k) u h' (omega (arith, r, le')))
                λ _ w h'' le'' _. (h'', omega arith, omega (arith, r, le', le''))

module _ (m : TableManager) (left right : Ptr) (s : Pool) (h : IsPool s)
    (p : Points (length s.ops) left) (q : Points (length s.ops) right) where
  pub mk_union-Keeps : Keeps Points s (mk_union m left right s)
  unfolding mk_union
  mk_union-Keeps = mk_binary-Keeps m OperatorKind.union ◌&&◌ (λ n. tt) left right s h p q

  pub mk_except-Keeps : Keeps Points s (mk_except m left right s)
  unfolding mk_except
  mk_except-Keeps = mk_binary-Keeps m OperatorKind.except _ (λ n. tt) left right s h p q

pub mk_stream_cross-Keeps :
    (p : Ptr) (s : Pool) → IsPool s → Points (length s.ops) p → Keeps Points s (mk_stream_cross p s)
unfolding mk_stream_cross
mk_stream_cross-Keeps p s h q =
    mk_over-Keeps OperatorKind.stream_cross _ _ p s (λ xs few. (few, tt)) h q

-- The input is linked; then its attributes are added, if they fit.
extended-Keeps :
    (p : Ptr) (i : ℕ) (t : Pool)
    → IsPool t
    → Points (length t.ops) p
    → Keeps Points t (
        (deref (some i) >>= λ src. deref p >>= λ op'.
        if ltb max_attrs (length op'.out_attrs + length src.out_attrs)
        then pure none
        else store p (record op' { out_attrs = op'.out_attrs ++ src.out_attrs }) >> pure p)
          t)
extended-Keeps p i t h q = deref-Keeps Points (some i) _ t h λ src u h1 le1 _.
    deref-Keeps Points p _ u h1 λ op v h2 le2 o.
      let size = length-append op.out_attrs src.out_attrs in
      elim (Bool-cases (ltb max_attrs (length op.out_attrs + length src.out_attrs))) [
        | inl over ↦ rw over (h2, omega arith, tt)
        | inr fits ↦ rw fits (
            store-pure-Keeps p _ v h2 (Points-grow _ _ p (omega (arith, le1, le2)) q) (
              IsOperator-change (length v.ops) op op.kind (op.out_attrs ++ src.out_attrs) o
                (ground (arith, size)) (KindFits-grow op.kind _ _ (omega (arith, size)) o.fits)))
      ]

abbrev extend : Ptr → ℕ → M Ptr
extend p i = deref (some i) >>= λ src. deref p >>= λ op'.
    if ltb max_attrs (length op'.out_attrs + length src.out_attrs)
    then pure none
    else store p (record op' { out_attrs = op'.out_attrs ++ src.out_attrs }) >> pure p

linked-Keeps :
    (p : Ptr) (op : Operator) (i : ℕ) (t : Pool)
    → IsPool t
    → Points (length t.ops) p
    → i < length t.ops
    → IsOperator (length t.ops) op
    → length op.inputs < max_input_ops
    → Keeps Points t (
        (store p (record op { inputs = op.inputs ++ i ∷ [] })
            >> (set_output (some i) p >> extend p i))
          t)
linked-Keeps p op i t h q r o room =
    Keeps->>= Any Points t (store p (record op { inputs = op.inputs ++ i ∷ [] })) _
      (store-Keeps p _ t h (record {
        few_attrs = o.few_attrs;
        fits = o.fits;
        few_inputs = omega (arith, room, length-append op.inputs (i ∷ []));
        inputs_in = All-append _ op.inputs (i ∷ []) o.inputs_in (r, tt);
        output_in = o.output_in;
      }))
      λ _ u h1 le1 _.
        let q1 = Points-grow _ _ p le1 q in
        Keeps->>= Any Points u (set_output (some i) p) (λ _. extend p i)
          (set_output-Keeps (some i) p u h1 q1)
          λ _ v h2 le2 _. extended-Keeps p i v h2 (Points-grow _ _ p le2 q1)

pub stream_cross_add_input-Keeps :
    (p input : Ptr) (s : Pool)
    → IsPool s
    → Points (length s.ops) p
    → Points (length s.ops) input
    → Keeps Points s (stream_cross_add_input p input s)
unfolding stream_cross_add_input
stream_cross_add_input-Keeps p input s h q r = deref-Keeps Points p _ s h λ op t h1 le1 o.
    elim (Bool-cases (length op.inputs == max_input_ops)) [
      | inl full ↦ rw full (h1, omega arith, tt)
      | inr room ↦ rw room (
          added input r t h1 (omega (arith, le1)) (Points-grow _ _ p le1 q) op o
            (ground (arith, o.few_inputs)))
    ]
  where
    added :
        (input : Ptr)
        → Points (length s.ops) input
        → (t : Pool) → IsPool t
        → length s.ops ≤ length t.ops
        → Points (length t.ops) p
        → (op : Operator) → IsOperator (length t.ops) op
        → length op.inputs < max_input_ops
        → Keeps Points t (
            (elim input as (λ _. M Ptr) [
              | none ↦ faults
              | some i ↦
                  store p (record op { inputs = op.inputs ++ i ∷ [] })
                  >> (set_output (some i) p >> extend p i)
            ])
              t)
    added none r t h le q op o room = tt
    added (some i) r t h le q op o room = linked-Keeps p op i t h q (omega (arith, r, le)) o room

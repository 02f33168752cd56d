-- ===== src/Logical/Rewrites/Streams/Bounds.antt =====
-- Dropping a relation-to-stream operator keeps the invariant of the pool.
use p.Common.{
  ℕ, zero, suc, ◌<◌, refl, true, Option, none, some, List, [], ◌∷◌, ◌++◌, arith, length, Bool-cases,
  inl, inr, All, All-append, All-map,
}
use p.Logical.Pool.{M, Ptr, Pool, pure, deref, store, set_output, ◌>>=◌, ◌>>◌}
use p.Logical.Pool.Invariant.{
  Points, Points-grow, IsOperator, IsOperator-grow, IsPool, Keeps, Keeps->>=, Keeps-Reads, Reads,
  Reads->>=, deref-Reads, deref-Keeps, store-Keeps, set_output-Keeps, Any,
}
use p.Logical.Naive.{or_fail}
use p.Logical.Joins.Bounds.{mk_stream_cross-Keeps, stream_cross_add_input-Keeps}
use p.Logical.Rewrites.Walk.Bounds.{
  In, then-Keeps, input-Keeps, set_input-Keeps, walk-Keeps, pure-Keeps, ptr-Keeps, if-Keeps,
  or_fail->>=-Keeps,
}
use p.Logical.Rewrites.Schema.Bounds.{update_schema-Keeps, update_flags-Keeps, flagged}
use p.Logical.Joins.{mk_stream_cross, stream_cross_add_input}
use p.Logical.Rewrites.Schema.{update_schema, update_flags}
use p.Logical.Rewrites.Walk.{
  fuel, input, set_input, is_rstream, is_istream, is_now, is_cross, is_plain,
}
use p.Logical.Rewrites.Streams.{
  make_streams, remove_now, rstream_now, remove_istream, split_now, add_inputs, replace_cross,
  stream_cross,
}

make_streams-Keeps : (k : ℕ) (p : Ptr) (s : Pool) → IsPool s → Keeps Any s (make_streams k p s)
unfolding make_streams
make_streams-Keeps zero none s h = (h, omega arith, tt)
make_streams-Keeps (suc k) none s h = (h, omega arith, tt)
make_streams-Keeps zero (some p) s h = tt
make_streams-Keeps (suc k) (some p) s h =
    let again = make_streams-Keeps k in
    deref-Keeps Any (some p) _ s h λ op t h' le o.
      then-Keeps Any t (store (some p) (record op { b_stream = true })) (make_streams k op.output)
        (store-Keeps (some p) _ t h' (flagged (length t.ops) op true o))
        λ u h'' _. again op.output u h''

remove_now-Keeps :
    (below now : ℕ) (s : Pool)
    → IsPool s
    → below < length s.ops
    → Keeps Points s (remove_now below now s)
unfolding remove_now
remove_now-Keeps below now s h q = deref-Keeps Points (some now) _ s h λ op t h1 le1 o.
    input-Keeps Points 0 op _ t h1 o λ src u h2 le2 in_pool.
      let o2 = IsOperator-grow _ _ le2 op o in
      then-Keeps Points u (set_output (some src) op.output) _
        (set_output-Keeps (some src) op.output u h2 o2.output_in)
        λ v h3 le3.
          ptr-Keeps Points op.output _ _ v (Points-grow _ _ op.output le3 o2.output_in)
            (h3, omega arith, omega (arith, in_pool, le3))
            λ above _.
              then-Keeps Points v (set_input (some above) 0 src >> make_streams fuel (some above))
                (pure (some below))
                (then-Keeps Any v (set_input (some above) 0 src) (make_streams fuel (some above))
                  (set_input-Keeps (some above) 0 src v h3 (omega (arith, in_pool, le3)))
                  λ w h4 _. make_streams-Keeps fuel (some above) w h4)
                λ w h4 le4. pure-Keeps (some below) w h4 (omega (arith, q, le1, le2, le3, le4))

pub rstream_now-Keeps :
    (plan : Ptr) (s : Pool)
    → IsPool s
    → Points (length s.ops) plan
    → Keeps Points s (rstream_now plan s)
unfolding rstream_now
rstream_now-Keeps plan s h q = deref-Keeps Points plan _ s h λ root t h1 le1 o.
    let q1 = Points-grow _ _ plan le1 q in
    if-Keeps Points (is_rstream root.kind) _ _ t
      (input-Keeps Points 0 root _ t h1 o λ below u h2 le2 in_pool.
        walk-Keeps Points is_now is_plain fuel below _ u h2 in_pool λ found v h3 le3 r.
          let q3 = Points-grow _ _ plan (omega (arith, le2, le3)) q1 in
          ptr-Keeps Points found _ _ v r (pure-Keeps plan v h3 q3) λ n _.
            then-Keeps Points v (set_output (some below) none) (remove_now below n)
              (set_output-Keeps (some below) none v h3 tt)
              λ w h4 le4. remove_now-Keeps below n w h4 (omega (arith, in_pool, le3, le4)))
      (pure-Keeps plan t h1 q1)

pub remove_istream-Keeps :
    (plan : Ptr) (s : Pool)
    → IsPool s
    → Points (length s.ops) plan
    → Keeps Points s (remove_istream plan s)
unfolding remove_istream
remove_istream-Keeps plan s h q = deref-Keeps Points plan _ s h λ root t h1 le1 o.
    let q1 = Points-grow _ _ plan le1 q in
    if-Keeps Points (is_istream root.kind) _ _ t
      (input-Keeps Points 0 root _ t h1 o λ below u h2 le2 in_pool.
        deref-Keeps Points (some below) _ u h2 λ op v h3 le3 _.
          if-Keeps Points op.b_stream _ _ v
            (then-Keeps Points v (set_output (some below) none) (pure (some below))
              (set_output-Keeps (some below) none v h3 tt)
              λ w h4 le4. pure-Keeps (some below) w h4 (omega (arith, in_pool, le3, le4)))
            (pure-Keeps plan v h3 (Points-grow _ _ plan (omega (arith, le2, le3)) q1)))
      (pure-Keeps plan t h1 q1)

-- A window, and the other inputs.
abbrev Splits : ℕ → Option (ℕ × List ℕ) → Type 0
Splits n none = Unit
Splits n (some r) = (r.0 < n) × All (In n) r.1

split_now-Reads :
    (before is : List ℕ) (s : Pool)
    → IsPool s
    → All (In (length s.ops)) before
    → All (In (length s.ops)) is
    → Reads (Splits (length s.ops)) s (split_now before is s)
unfolding split_now
split_now-Reads before [] s h a b = (refl, tt)
split_now-Reads before (i ∷ is) s h a b =
    let n = length s.ops in
    Reads->>= (IsOperator n) (Splits n) s (deref (some i)) _ (deref-Reads (some i) s h) λ op o.
      elim (Bool-cases (is_now op.kind)) [
        | inl now ↦ rw now (refl, (b.0, All-append _ before is a b.1))
        | inr other ↦ rw other (
            split_now-Reads (before ++ i ∷ []) is s h (All-append _ before (i ∷ []) a (b.0, tt))
              b.1)
      ]

add_inputs-Keeps :
    (p : Ptr) (is : List ℕ) (s : Pool)
    → IsPool s
    → Points (length s.ops) p
    → All (In (length s.ops)) is
    → Keeps Points s (add_inputs p is s)
unfolding add_inputs
add_inputs-Keeps p [] s h q a = pure-Keeps p s h q
add_inputs-Keeps p (i ∷ is) s h q a =
    or_fail->>=-Keeps Points s (stream_cross_add_input p (some i)) (λ r. add_inputs r is)
      (stream_cross_add_input-Keeps p (some i) s h q a.0)
      λ r t h' le q'.
        add_inputs-Keeps r is t h' q' (All-map _ _ (λ j b. omega (arith, b, le)) is a.1)

replace_cross-Keeps :
    (cross : ℕ) (new : Ptr) (s : Pool)
    → IsPool s
    → Points (length s.ops) new
    → Keeps Any s (replace_cross cross new s)
unfolding replace_cross
replace_cross-Keeps cross none s h q = tt
replace_cross-Keeps cross (some new) s h q = deref-Keeps Any (some cross) _ s h λ op t h1 le1 o.
    let write = set_output (some new) op.output in
    let link = set_input op.output 0 new in
    let renew = update_schema fuel op.output in
    then-Keeps Any t (write >> link >> renew) (update_flags fuel op.output)
      (then-Keeps Any t (write >> link) renew
        (then-Keeps Any t write link (set_output-Keeps (some new) op.output t h1 o.output_in)
          λ u h2 le2. set_input-Keeps op.output 0 new u h2 (omega (arith, q, le1, le2)))
        λ u h2 _. update_schema-Keeps fuel op.output u h2)
      λ u h2 _. update_flags-Keeps fuel op.output u h2

-- The root is unlinked: the plan is the operator below it.
unroot-Keeps :
    (plan : Ptr) (s : Pool)
    → IsPool s
    → Keeps Points s (
        (deref plan >>= λ root.
        input 0 root >>= λ below. set_output (some below) none >> pure (some below))
          s)
unroot-Keeps plan s h = deref-Keeps Points plan _ s h λ root t h1 le1 o.
    input-Keeps Points 0 root _ t h1 o λ below u h2 le2 in_pool.
      then-Keeps Points u (set_output (some below) none) (pure (some below))
        (set_output-Keeps (some below) none u h2 tt)
        λ v h3 le3. pure-Keeps (some below) v h3 (omega (arith, in_pool, le3))

-- The cross product with a window becomes a stream cross product.
streamed-Keeps :
    (plan : Ptr) (cross : ℕ) (split : Option (ℕ × List ℕ)) (s : Pool)
    → IsPool s
    → Points (length s.ops) plan
    → Splits (length s.ops) split
    → Keeps Points s (
        (elim split as (λ _. M Ptr) [
          | none ↦ pure plan
          | some (now, others) ↦ deref (some now) >>= λ win. input 0 win >>= λ src.
              (mk_stream_cross (some src) >>= or_fail) >>= λ p. add_inputs p others >>= λ new.
              replace_cross cross new
              >> (deref plan >>= λ root'.
                  input 0 root' >>= λ below. set_output (some below) none >> pure (some below))
        ])
          s)
streamed-Keeps plan cross none s h q r = pure-Keeps plan s h q
streamed-Keeps plan cross (some (now, others)) s h q r =
    deref-Keeps Points (some now) _ s h λ win t h1 le1 o.
      input-Keeps Points 0 win _ t h1 o λ src u h2 le2 in_pool.
        or_fail->>=-Keeps Points u (mk_stream_cross (some src)) _
          (mk_stream_cross-Keeps (some src) u h2 in_pool)
          λ p v h3 le3 q3.
            Keeps->>= Points Points v (add_inputs p others) _
              (add_inputs-Keeps p others v h3 q3
                (All-map _ _ (λ j b. omega (arith, b, le1, le2, le3)) others r.1))
              λ new w h4 _ q4.
                then-Keeps Points w (replace_cross cross new) _
                  (replace_cross-Keeps cross new w h4 q4) λ x h5 _. unroot-Keeps plan x h5

pub stream_cross-Keeps :
    (plan : Ptr) (s : Pool)
    → IsPool s
    → Points (length s.ops) plan
    → Keeps Points s (stream_cross plan s)
unfolding stream_cross
stream_cross-Keeps plan s h q = deref-Keeps Points plan _ s h λ root t h1 le1 o.
    let q1 = Points-grow _ _ plan le1 q in
    if-Keeps Points (is_rstream root.kind) _ _ t
      (input-Keeps Points 0 root _ t h1 o λ top u h2 le2 in_pool.
        walk-Keeps Points is_cross _ fuel top _ u h2 in_pool λ found v h3 le3 r.
          let q3 = Points-grow _ _ plan (omega (arith, le2, le3)) q1 in
          ptr-Keeps Points found _ _ v r (pure-Keeps plan v h3 q3) λ cross _.
            deref-Keeps Points (some cross) _ v h3 λ op w h4 le4 o4.
              Keeps->>= Splits Points w (split_now [] op.inputs) _
                (Keeps-Reads Splits w _ h4 (split_now-Reads [] op.inputs w h4 tt o4.inputs_in))
                λ split x h5 le5 r5.
                  streamed-Keeps plan cross split x h5
                    (Points-grow _ _ plan (omega (arith, le4, le5)) q3) r5)
      (pure-Keeps plan t h1 q1)

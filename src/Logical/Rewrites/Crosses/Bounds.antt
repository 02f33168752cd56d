-- ===== src/Logical/Rewrites/Crosses/Bounds.antt =====
-- Binary cross products keep the invariant of the pool.
use p.Common.{ℕ, ◌<◌, none, some, List, [], ◌∷◌, arith, length, All, All-map}
use p.Logical.Pool.{M, Ptr, Pool, pure, set_output}
use p.Logical.Pool.Invariant.{
  Points, Points-grow, IsPool, Keeps, Keeps->>=, deref-Keeps, set_output-Keeps,
}
use p.Logical.Naive.Bounds.{then_or_fail-Keeps}
use p.Logical.Operators.Inputs.{mk_cross-Keeps, cross_add_input-Keeps}
use p.Logical.Joins.Bounds.{mk_stream_cross-Keeps, stream_cross_add_input-Keeps}
use p.Logical.Rewrites.Walk.Bounds.{
  In, then-Keeps, set_input-Keeps, walk-Keeps, pure-Keeps, ptr-Keeps, or_fail->>=-Keeps,
}
use p.Logical.Operators.{mk_cross, cross_add_input}
use p.Logical.Joins.{mk_stream_cross, stream_cross_add_input}
use p.Logical.Rewrites.Walk.{fuel, set_input, is_cross, is_stream_cross}
use p.Logical.Rewrites.Crosses.{
  cross_of, cross_chain, stream_cross_of, stream_cross_chain, replace, rebuild, make_cross_binary,
  make_stream_cross_binary,
}

cross_of-Keeps :
    (left : Ptr) (right : ℕ) (s : Pool)
    → IsPool s
    → Points (length s.ops) left
    → right < length s.ops
    → Keeps Points s (cross_of left right s)
unfolding cross_of
cross_of-Keeps left right s h q r =
    or_fail->>=-Keeps Points s mk_cross _ (mk_cross-Keeps s h) λ c t h1 le1 q1.
      or_fail->>=-Keeps Points t (cross_add_input c left) _
        (cross_add_input-Keeps c left t h1 q1 (Points-grow _ _ left le1 q))
        λ d u h2 le2 q2.
          then_or_fail-Keeps (cross_add_input d (some right)) u
            (cross_add_input-Keeps d (some right) u h2 q2 (omega (arith, r, le1, le2)))

stream_cross_of-Keeps :
    (left : Ptr) (right : ℕ) (s : Pool)
    → IsPool s
    → Points (length s.ops) left
    → right < length s.ops
    → Keeps Points s (stream_cross_of left right s)
unfolding stream_cross_of
stream_cross_of-Keeps left right s h q r =
    or_fail->>=-Keeps Points s (mk_stream_cross left) _ (mk_stream_cross-Keeps left s h q)
      λ c t h1 le1 q1.
        then_or_fail-Keeps (stream_cross_add_input c (some right)) t
          (stream_cross_add_input-Keeps c (some right) t h1 q1 (omega (arith, r, le1)))

-- A chain of products, whichever product it is made of.
abbrev KeepsChain : (Ptr → List ℕ → M Ptr) → Type 0
KeepsChain chain =
    (p : Ptr) (is : List ℕ) (s : Pool)
    → IsPool s
    → Points (length s.ops) p
    → All (In (length s.ops)) is
    → Keeps Points s (chain p is s)

cross_chain-Keeps : KeepsChain cross_chain
unfolding cross_chain
cross_chain-Keeps p [] s h q a = pure-Keeps p s h q
cross_chain-Keeps p (i ∷ is) s h q a =
    Keeps->>= Points Points s (cross_of p i) (λ r. cross_chain r is) (cross_of-Keeps p i s h q a.0)
      λ r t h' le q'.
        cross_chain-Keeps r is t h' q' (All-map _ _ (λ j b. omega (arith, b, le)) is a.1)

stream_cross_chain-Keeps : KeepsChain stream_cross_chain
unfolding stream_cross_chain
stream_cross_chain-Keeps p [] s h q a = pure-Keeps p s h q
stream_cross_chain-Keeps p (i ∷ is) s h q a =
    Keeps->>= Points Points s (stream_cross_of p i) (λ r. stream_cross_chain r is)
      (stream_cross_of-Keeps p i s h q a.0)
      λ r t h' le q'.
        stream_cross_chain-Keeps r is t h' q' (All-map _ _ (λ j b. omega (arith, b, le)) is a.1)

replace-Keeps :
    (plan : ℕ) (new : Ptr) (old : ℕ) (s : Pool)
    → IsPool s
    → plan < length s.ops
    → Points (length s.ops) new
    → Keeps Points s (replace plan new old s)
unfolding replace
replace-Keeps plan none old s h q r = tt
replace-Keeps plan (some new) old s h q r = deref-Keeps Points (some old) _ s h λ op t h1 le1 o.
    then-Keeps Points t (set_output (some new) op.output) _
      (set_output-Keeps (some new) op.output t h1 o.output_in)
      λ u h2 le2.
        ptr-Keeps Points op.output _ _ u (Points-grow _ _ op.output le2 o.output_in)
          (pure-Keeps (some new) u h2 (omega (arith, r, le1, le2)))
          λ above _.
            then-Keeps Points u (set_input (some above) 0 new) (pure (some plan))
              (set_input-Keeps (some above) 0 new u h2 (omega (arith, r, le1, le2)))
              λ v h3 le3. pure-Keeps (some plan) v h3 (omega (arith, q, le1, le2, le3))

rebuild-Keeps :
    (chain : Ptr → List ℕ → M Ptr)
    → KeepsChain chain
    → (plan old : ℕ) (is : List ℕ) (s : Pool) → IsPool s
    → plan < length s.ops
    → All (In (length s.ops)) is
    → Keeps Points s (rebuild chain plan old is s)
rebuild-Keeps chain c plan old [] s h q a = tt
rebuild-Keeps chain c plan old (i ∷ []) s h q a = tt
rebuild-Keeps chain c plan old (i ∷ j ∷ []) s h q a = pure-Keeps (some plan) s h q
rebuild-Keeps chain c plan old (i ∷ j ∷ k ∷ is) s h q a =
    Keeps->>= Points Points s (chain (some i) (j ∷ k ∷ is)) (λ new. replace plan new old)
      (c (some i) (j ∷ k ∷ is) s h a.0 a.1)
      λ new t h' le q'. replace-Keeps plan new old t h' (omega (arith, q, le)) q'

pub make_cross_binary-Keeps :
    (plan : ℕ) (s : Pool)
    → IsPool s
    → plan < length s.ops
    → Keeps Points s (make_cross_binary plan s)
unfolding make_cross_binary
make_cross_binary-Keeps plan s h q =
    walk-Keeps Points is_cross _ fuel plan _ s h q λ found t h1 le1 r.
      ptr-Keeps Points found _ _ t r (pure-Keeps (some plan) t h1 (omega (arith, q, le1))) λ old _.
        deref-Keeps Points (some old) _ t h1 λ op u h2 le2 o.
          rebuild-Keeps cross_chain cross_chain-Keeps plan old op.inputs u h2
            (omega (arith, q, le1, le2)) o.inputs_in

pub make_stream_cross_binary-Keeps :
    (plan : ℕ) (s : Pool)
    → IsPool s
    → plan < length s.ops
    → Keeps Points s (make_stream_cross_binary plan s)
unfolding make_stream_cross_binary
make_stream_cross_binary-Keeps plan s h q =
    walk-Keeps Points is_stream_cross _ fuel plan _ s h q λ found t h1 le1 r.
      ptr-Keeps Points found _ _ t r (pure-Keeps (some plan) t h1 (omega (arith, q, le1))) λ old _.
        deref-Keeps Points (some old) _ t h1 λ op u h2 le2 o.
          rebuild-Keeps stream_cross_chain stream_cross_chain-Keeps plan old op.inputs u h2
            (omega (arith, q, le1, le2)) o.inputs_in

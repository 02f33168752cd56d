-- ===== src/Logical/Rewrites/Bounds.antt =====
-- `genLogPlan` keeps the invariant of the pool.
use p.Common.{ℕ, ◌<◌, ◌≡◌, subst, none, some, ok, length}
use p.Metadata.Tables.{TableManager}
use p.Metadata.Tables.Invariant.{IsValid}
use p.Semantic.Query.{Query}
use p.Logical.Pool.{M, Ptr, Pool, empty_pool}
use p.Logical.Pool.Invariant.{Points, IsPool, Keeps, Keeps->>=}
use p.Logical.Generate.{gen_plan}
use p.Logical.Generate.Bounds.{gen_plan-Keeps}
use p.Logical.Rewrites.{at_root, rewrites, gen_log_plan}
use p.Logical.Rewrites.Streams.{rstream_now, stream_cross}
use p.Logical.Rewrites.Projects.{remove_project}
use p.Logical.Rewrites.Crosses.{make_cross_binary, make_stream_cross_binary}
use p.Logical.Rewrites.Selects.{push_all_selects}
use p.Logical.Rewrites.Streams.Bounds.{rstream_now-Keeps, stream_cross-Keeps}
use p.Logical.Rewrites.Projects.Bounds.{remove_project-Keeps}
use p.Logical.Rewrites.Crosses.Bounds.{make_cross_binary-Keeps, make_stream_cross_binary-Keeps}
use p.Logical.Rewrites.Selects.Bounds.{IsRoot, push_all_selects-Keeps}

at_root-Keeps :
    (Q : ℕ → Ptr → Type 0) (f : ℕ → M Ptr) (p : Ptr) (s : Pool)
    → Points (length s.ops) p
    → ((i : ℕ) → i < length s.ops → Keeps Q s (f i s))
    → Keeps Q s (at_root f p s)
at_root-Keeps Q f none s q k = tt
at_root-Keeps Q f (some i) s q k = k i q

rewrites-Keeps :
    (plan : Ptr) (s : Pool)
    → IsPool s
    → Points (length s.ops) plan
    → Keeps IsRoot s (rewrites plan s)
unfolding rewrites
rewrites-Keeps plan s h q =
    Keeps->>= Points IsRoot s (rstream_now plan) _ (rstream_now-Keeps plan s h q) λ a s1 h1 _ q1.
      Keeps->>= Points IsRoot s1 (stream_cross a) _ (stream_cross-Keeps a s1 h1 q1) λ b s2 h2 _ q2.
        Keeps->>= Points IsRoot s2 (at_root remove_project b) _
          (at_root-Keeps Points remove_project b s2 q2 λ i r. remove_project-Keeps i s2 h2 r)
          λ c s3 h3 _ q3.
            Keeps->>= Points IsRoot s3 (at_root make_cross_binary c) _
              (at_root-Keeps Points make_cross_binary c s3 q3
                λ i r. make_cross_binary-Keeps i s3 h3 r)
              λ d s4 h4 _ q4.
                Keeps->>= Points IsRoot s4 (at_root make_stream_cross_binary d) _
                  (at_root-Keeps Points make_stream_cross_binary d s4 q4
                    λ i r. make_stream_cross_binary-Keeps i s4 h4 r)
                  λ e s5 h5 _ q5.
                    at_root-Keeps IsRoot push_all_selects e s5 q5
                      λ i r. push_all_selects-Keeps i s5 h5 r

-- Over a well-formed registry, whatever the query and whatever the pools hold before, a plan that
-- is generated and rewritten stands in a well-formed pool: there are no more operators and
-- expressions than the pools hold, every input and output of an operator is one of the operators
-- of the pool, no array of an operator is overrun, and the plan itself is one of the operators.
pub gen_log_plan-IsPool :
    (m : TableManager) (q : Query) (s s' : Pool) (p : Ptr)
    → IsValid m
    → gen_log_plan m q s ≡ ok (p, s')
    → IsPool s' × IsRoot (length s'.ops) p
unfolding gen_log_plan
gen_log_plan-IsPool m q s s' p valid e =
    let k =
      Keeps->>= Points IsRoot empty_pool (λ _. gen_plan m q s) rewrites (gen_plan-Keeps m q s valid)
        λ plan t h _ r. rewrites-Keeps plan t h r in
    let k' = subst (Keeps IsRoot empty_pool) e k in (k'.0, k'.2)

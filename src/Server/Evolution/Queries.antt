-- ===== src/Server/Evolution/Queries.antt =====
-- A registered query keeps the server well formed.
use p.Common.{ℕ, inl, inr, Option, List, [], ◌∷◌, Result, ok, err, fault, length}
use p.Parser.Nodes.{Tree}
use p.Metadata.Tables.{TableManager}
use p.Metadata.Queries.{register_query}
use p.Metadata.Tables.Invariant.{IsValid}
use p.Metadata.Queries.Log.{log, IsText, register_query-log}
use p.Semantic.Query.{Query, WindowSpec}
use p.Logical.Pool.{Ptr, Pool}
use p.Logical.Rewrites.{gen_log_plan}
use p.Server.Reply.{Reply, Call, pure, done, refused, crash, update, compute, ◌>>=◌, ◌>>◌}
use p.Server.State.{PlanManager, Server, on_queries, in_app_spec}
use p.Server.Calls.{parsed, understood, planned, added, register_query_text, interpret}
use p.Server.Invariant.{Holds, IsPlanManager, IsServer, Evolved, Active, Begins, Begins-refl}
use p.Server.Replies.{Leads, Leads->>=, Leads-Holds}
use p.Server.Invariant.Calls.{on_tables-Holds, on_queries-Holds, on_plans-Holds, held}
use p.Server.Evolution.{Goes, began-Goes}

module _ {S Source Output Plan : Type 0} (plans : PlanManager S Source Output Plan)
    (parse_command : List ℕ → ℕ → Option Tree) (Good : S → Type 0) (s : Server S) where
  -- Interpreting a query reads the registry.
  understood-Holds :
      (win : WindowSpec) (q : Query) (tree : Tree) (t : Server S)
      → Active Good s t
      → Holds Unit (Active Good s) (understood plans parse_command win q tree t)
  understood-Holds win q tree t a =
      on_tables-Holds Good Unit (λ m. compute (interpret m win q tree) m) s t a
        λ m v. by_result m v (interpret m win q tree)
    where
      by_result :
          (m : TableManager)
          → IsValid m
          → (r : Result Query)
          → Holds Unit (λ m'. IsValid m' × Begins m.tables m'.tables) (compute r m)
      by_result m v (ok x) = (v, Begins-refl m.tables)
      by_result m v (err e) = (v, Begins-refl m.tables)
      by_result m v fault = tt

  logged-Holds :
      (text : List ℕ) (t : Server S)
      → IsText text
      → Active Good s t
      → Holds Unit (Active Good s) (on_queries (update λ m. register_query m text (length text)) t)
  logged-Holds text t is_text a =
      on_queries-Holds Good Unit (update λ m. register_query m text (length text)) s t a λ m h.
        elim (register_query-log m text h is_text) [
          | inl (full, _) ↦ rw (update, full, Holds) (h, Begins-refl (log m))
          | inr (m', entered, h', longer) ↦ rw (update, entered, Holds) (h', (text ∷ [], longer))
        ]

  planned-Holds :
      (q : Query) (t : Server S)
      → Active Good s t
      → Holds Unit (Active Good s) (planned plans parse_command q t)
  planned-Holds q t a =
      let (g, at, h) = held Good s t a in
      rw (at, planned, Holds) (by_result (gen_log_plan g.table_mgr q t.operators))
    where
      by_result :
          (r : Result (Ptr × Pool))
          → Holds Unit (Active Good s) (elim r as (λ _. Reply (Server S) Ptr) [
            | ok r ↦ done r.0 (record t { operators = r.1 })
            | err e ↦ refused e t
            | fault ↦ crash
          ])
      by_result (ok r) = (record { still = a.0.still; later = a.0.later; grown = a.0.grown }, a.1)
      by_result (err e) = a
      by_result fault = tt

  -- Between two calls that go on.
  then-Goes :
      {A B : Type 0} (m : Call (Server S) A) (f : A → Call (Server S) B) (t : Server S)
      → Holds Unit (Active Good s) (m t)
      → ((a : A) (u : Server S) → Active Good s u → Goes plans parse_command Good s Unit (f a u))
      → Goes plans parse_command Good s Unit ((m >>= f) t)
  then-Goes m f t h k =
      Leads->>= Unit (Active Good s) (Active Good s) (Evolved Good s) m f t
        (Leads-Holds Unit (Active Good s) (Evolved Good s) (m t) (λ u a. a.0) h) k

module _ {S Source Output Plan : Type 0} (plans : PlanManager S Source Output Plan)
    (parse_command : List ℕ → ℕ → Option Tree) (Good : S → Type 0) (laws : IsPlanManager plans Good)
    (s : Server S) (h : IsServer Good s) where
  abbrev pub Going : {A : Type 0} → Reply (Server S) A → Type 0
  Going = Leads Unit (Active Good s) (Evolved Good s)

  pub register_query_text-Going :
      (win : WindowSpec) (q : Query) (text : List ℕ) (output : Output)
      → IsText text
      → Going (register_query_text plans parse_command win q text (length text) output s)
  unfolding register_query_text
  register_query_text-Going win q text output is_text =
      Leads->>= Unit (Active Good s) (Active Good s) (Evolved Good s)
        (in_app_spec >> parsed plans parse_command text (length text)) _ s
        (began-Goes plans parse_command Good s Unit text (length text) h)
        λ tree t a.
          then-Goes plans parse_command Good s (understood plans parse_command win q tree) _ t
            (understood-Holds plans parse_command Good s win q tree t a)
            λ query t1 a1.
              then-Goes plans parse_command Good s
                (on_queries (update λ m. register_query m text (length text))) _ t1
                (logged-Holds plans parse_command Good s text t1 is_text a1)
                λ id t2 a2.
                  then-Goes plans parse_command Good s (planned plans parse_command query) _ t2
                    (planned-Holds plans parse_command Good s query t2 a2)
                    λ plan t3 a3.
                      then-Goes plans parse_command Good s
                        (added plans parse_command id plan output) (λ _. pure id) t3
                        (on_plans-Holds Good Unit
                          (λ m.
                            plans.add_logical_query_plan m t3.operators t3.current_query_class id
                              plan output)
                          s t3 a3
                          λ g at hg.
                            laws.add_logical_query_plan-Good g.table_mgr t3.operators
                              t3.current_query_class id plan output g.plan_mgr hg.plans_good)
                        λ _ t4 a4. a4

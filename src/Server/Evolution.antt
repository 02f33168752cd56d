-- ===== src/Server/Evolution.antt =====
-- The server over any sequence of calls.
pub mod Named
pub mod Once
pub mod Queries
pub mod Runs
use p.Common.{
  ℕ, suc, ◌≤◌, ◌≡◌, refl, sym, ap, subst, ◌⊎◌, inl, inr, Bool, true, false, not, Option, none, some,
  List, [], ◌∷◌, Result, ok, err, fault, Error, arith, length, Bool-cases, Option-cases, append-nil,
  invalid_use_err, invalid_param_err,
}
use p.Parser.Nodes.{Tree}
use p.Metadata.Tables.{TableManager, no_tables}
use p.Metadata.Queries.{QueryManager, no_queries, register_query}
use p.Metadata.Tables.Invariant.{IsValid, no_tables-IsValid}
use p.Metadata.Queries.Log.{log, IsLog, IsText, no_queries-IsLog, register_query-log}
use p.Semantic.Query.{Query, WindowSpec}
use p.Logical.Pool.{Ptr, Pool}
use p.Logical.Rewrites.{gen_log_plan}
use p.Server.Reply.{Reply, Call, pure, refuse, done, refused, crash, update, compute, ◌>>=◌, ◌>>◌}
use p.Server.State.{
  State, is_init, is_app_spec, PlanManager, Managers, Server, on_tables, on_queries, on_plans,
  in_app_spec,
}
use p.Server.Tables.{enter_table}
use p.Server.Tables.Kept.{enter_table-Holds}
use p.Server.Calls.{
  begin_app_specification, parsed, register_named, register_base_table, register_view, understood,
  planned, added, register_query_text, end_app_specification, Request, serve, interpret,
}
use p.Server.Invariant.{
  Holds, Holds->>=, IsPlanManager, IsServer, Evolved, Evolved_refl, Evolved-trans, Active, Begins,
  Begins-refl, Held, rank, Holds-crash, Holds-weaken,
}
use p.Server.Replies.{Leads, Leads->>=, Leads->>=_eq, Leads-Holds, Holds-Leads, Yields}
use p.Server.Evolution.Named.{Counted, register_named-Counted}
use p.Server.Invariant.Calls.{on_tables-Holds, on_queries-Holds, on_plans-Holds, held}

-- `k` crashes on the table that has just been registered, in a well-formed registry.
abbrev pub CrashesOnNew :
    {S : Type 0} → (S → Type 0) → (ℕ → TableManager → Call S (Unit {0})) → Type 0
CrashesOnNew {S} Good k =
    (id : ℕ) × (m : TableManager) × (p : S) × IsValid m
    × (length m.tables ≡ suc id)
    × Good p
    × (k id m p ≡ crash)

module _ {S Source Output Plan : Type 0} (plans : PlanManager S Source Output Plan)
    (parse_command : List ℕ → ℕ → Option Tree) (Good : S → Type 0) (s : Server S) where
  -- A call goes on in a server that is still active.
  abbrev pub Goes : {A : Type 0} → Type 0 → Reply (Server S) A → Type 0
  Goes C = Leads C (Active Good s) (Evolved Good s)

  abbrev first_of : (t : Server S) → Active Good s t → Evolved Good s t
  first_of t a = a.0

  in_app_spec-Goes : (C : Type 0) → IsServer Good s → Goes C (in_app_spec s)
  in_app_spec-Goes C h = elim (Bool-cases (is_app_spec s.state)) [
    | inl active ↦ rw (active, Leads) (Evolved_refl Good s h, active)
    | inr other ↦ rw (other, Leads) (Evolved_refl Good s h)
  ]

  parsed-Goes :
      (C : Type 0) (text : List ℕ) (len : ℕ) (t : Server S)
      → Active Good s t
      → Goes C (parsed plans parse_command text len t)
  parsed-Goes C text len t a = elim (Option-cases (parse_command text len)) [
    | inl wrong ↦ rw (wrong, Leads) (a.0)
    | inr (tree, right) ↦ rw (right, Leads) a
  ]

  -- What the calls on a text begin with.
  pub began-Goes :
      (C : Type 0) (text : List ℕ) (len : ℕ)
      → IsServer Good s
      → Goes C ((in_app_spec >> parsed plans parse_command text len) s)
  began-Goes C text len h =
      Leads->>= C (Active Good s) (Active Good s) (Evolved Good s) in_app_spec
        (λ _. parsed plans parse_command text len) s (in_app_spec-Goes C h)
        λ _ t a. parsed-Goes C text len t a

  register_named-Goes :
      (C : Type 0) (info : Option (List ℕ)) (len : ℕ)
      → IsServer Good s
      → Goes C (register_named plans parse_command info len s)
  unfolding register_named
  register_named-Goes C none len h =
      Leads->>= C (Active Good s) (Active Good s) (Evolved Good s) in_app_spec
        (λ _. refuse invalid_param_err) s (in_app_spec-Goes C h) λ _ t a. a.0
  register_named-Goes C (some text) len h =
      Leads->>= C (Active Good s) (Active Good s) (Evolved Good s)
        (in_app_spec >> parsed plans parse_command text len) _ s (began-Goes C text len h)
        λ tree t a. Leads-Holds C (Active Good s) (Evolved Good s) _ first_of (
          on_tables-Holds Good C (enter_table tree) s t a λ m v.
            Holds-weaken ⊥ C (λ m'. IsValid m' × Begins m.tables m'.tables) (enter_table tree m)
              (λ c. absurd c) (enter_table-Holds tree m v))

  -- A table is registered, and then the plan manager is told.
  pub told-Holds :
      (info : Option (List ℕ)) (len : ℕ) (k : ℕ → TableManager → Call S (Unit {0}))
      → IsServer Good s
      → ((id : ℕ) (m : TableManager) (p : S) → Good p → Holds Unit Good (k id m p))
      → Holds
          (CrashesOnNew Good k)
          (Evolved Good s)
          ((register_named plans parse_command info len >>= λ id. on_plans (k id)) s)
  told-Holds info len k h f =
      let C = CrashesOnNew Good k in
      Holds-Leads C (Active Good s) (Evolved Good s) _ first_of (
        Leads->>=_eq C (Active Good s) (Active Good s) (Evolved Good s)
          (register_named plans parse_command info len) (λ id. on_plans (k id)) s
          (register_named-Goes C info len h)
          λ id t made a. Leads-Holds C (Active Good s) (Evolved Good s) _ first_of (
            on_plans-Holds Good C (k id) s t a λ g at hg.
              Holds-weaken (k id g.table_mgr g.plan_mgr ≡ crash) C Good _
                (λ down. (
                  id,
                  g.table_mgr,
                  g.plan_mgr,
                  hg.tables_valid,
                  subst (Counted id) at (
                      subst (Yields λ id t. Counted id t.managers) made
                        (register_named-Counted plans parse_command info len s)),
                  hg.plans_good,
                  down,
                ))
                (Holds-crash Good _ (f id g.table_mgr g.plan_mgr hg.plans_good))))

module _ {S Source Output Plan : Type 0} (plans : PlanManager S Source Output Plan)
    (parse_command : List ℕ → ℕ → Option Tree) (Good : S → Type 0) (laws : IsPlanManager plans Good)
    (s : Server S) (h : IsServer Good s) where
  -- `beginAppSpecification` starts with empty managers.
  pub begin-Holds : Holds ⊥ (Evolved Good s) (begin_app_specification plans parse_command s)
  unfolding begin_app_specification
  begin-Holds = elim (Bool-cases (is_init s.state)) [
    | inl new ↦
        let (first, no_managers) = at_start s.state s.managers new h in
        rw (new, Holds)
          (record {
            still = record {
              tables_valid = no_tables-IsValid;
              queries_log = no_queries-IsLog;
              plans_good = laws.new_plan_manager-Good;
            };
            later = omega (arith, first);
            grown = rw no_managers tt;
          })
    | inr begun ↦ rw (begun, Holds) (Evolved_refl Good s h)
  ]
    where
      at_start :
          (st : State) (o : Option (Managers S))
          → is_init st ≡ true
          → Held Good (is_init st) o
          → (rank st ≡ 0) × (o ≡ none)
      at_start State.s_init none e k = (refl, refl)
      at_start State.s_init (some g) e k = absurd k
      at_start State.s_app_spec o e k = cc
      at_start State.s_plan_gen o e k = cc
      at_start State.s_exec o e k = cc
      at_start State.s_int o e k = cc
      at_start State.s_end o e k = cc

  -- `endAppSpecification` keeps the managers; it crashes only if the plan manager does.
  pub end-Holds :
      Holds
        ((p : S) × Good p × (plans.optimize_plan p ≡ crash))
        (Evolved Good s)
        (end_app_specification plans parse_command s)
  unfolding end_app_specification
  end-Holds =
      let C = (p : S) × Good p × (plans.optimize_plan p ≡ crash) in
      Holds-Leads C (Evolved Good s) (Evolved Good s) _ (λ t e. e)
        (Leads->>= C (Active Good s) (Evolved Good s) (Evolved Good s)
          (in_app_spec >> on_plans (λ m. plans.optimize_plan)) _ s
          (Leads->>= C (Active Good s) (Active Good s) (Evolved Good s) in_app_spec
            (λ _. on_plans (λ m. plans.optimize_plan)) s
            (in_app_spec-Goes plans parse_command Good s C h)
            λ _ t a.
              Leads-Holds C (Active Good s) (Evolved Good s) _ (λ t a. a.0)
                (on_plans-Holds Good C (λ m. plans.optimize_plan) s t a
                  λ g at hg.
                    Holds-weaken (plans.optimize_plan g.plan_mgr ≡ crash) C Good _
                      (λ down. (g.plan_mgr, hg.plans_good, down))
                      (Holds-crash Good _ (laws.optimize_plan-Good g.plan_mgr hg.plans_good))))
          λ _ t a. ended t a)
    where
      rank_active : (st : State) → is_app_spec st ≡ true → rank st ≡ 1
      rank_active State.s_init e = cc
      rank_active State.s_app_spec e = refl
      rank_active State.s_plan_gen e = cc
      rank_active State.s_exec e = cc
      rank_active State.s_int e = cc
      rank_active State.s_end e = cc

      ended :
          (t : Server S) → Active Good s t → Evolved Good s (record t { state = State.s_plan_gen })
      ended t a =
          let (g, at, hg) = held Good s t a in
          record {
            still = rw at hg;
            later = omega (arith, a.0.later, rank_active t.state a.1);
            grown = a.0.grown;
          }

-- ===== src/Server/Evolution/Runs.antt =====
-- The server over any sequence of calls.
use p.Common.{
  ℕ, ◌≡◌, ◌≢◌, refl, subst, arith, true, Option, none, some, List, Error, length, Option-cases, inl,
  inr, ◌⊎◌,
}
use p.Parser.Nodes.{Tree}
use p.Metadata.Queries.Log.{IsText}
use p.Server.Reply.{done, refused, crash, pure}
use p.Server.State.{State, is_init, PlanManager, Managers, Server}
use p.Server.Calls.{
  register_base_table, register_view, register_query_text, Request, begin_spec, base_table, query,
  view, end_spec, plan, log_file, get_plan, set_shedding_log_file, serve,
}
use p.Server.Invariant.{
  Holds, IsPlanManager, IsServer, Active, Evolved, Evolved_refl, Evolved-trans, Held, Grows-refl,
}
use p.Server.Replies.{Leads->>=, Holds-Leads}
use p.Server.Evolution.Queries.{register_query_text-Going}
use p.Server.Evolution.{CrashesOnNew, told-Holds, begin-Holds, end-Holds}

module _ {S Source Output Plan : Type 0} (plans : PlanManager S Source Output Plan)
    (parse_command : List ℕ → ℕ → Option Tree) where
  -- The text of a query comes with its length.
  abbrev pub IsRequest : Request plans parse_command → Type 0
  IsRequest (query win q text len output) = IsText text × (len ≡ length text)
  IsRequest r = Unit

  -- What it means that a call crashes: a call that hands something to the plan manager crashes only
  -- if the plan manager does, on the table that has just been registered, and the plan is asked for
  -- only before there is a plan manager. Of a query nothing is said.
  abbrev pub MayCrash : (S → Type 0) → Request plans parse_command → Server S → Type 0
  MayCrash Good begin_spec s = ⊥
  MayCrash Good (base_table info len input) s =
      CrashesOnNew Good λ id m. plans.add_base_table m id input
  MayCrash Good (query win q text len output) s = Unit
  MayCrash Good (view query_id info len) s = CrashesOnNew Good λ id m. plans.map_view m query_id id
  MayCrash Good end_spec s = (p : S) × Good p × (plans.optimize_plan p ≡ crash)
  MayCrash Good plan s = is_init s.state ≡ true
  MayCrash Good (log_file file) s = ⊥

  -- The states that a server comes to, some calls being refused.
  pub data Reaches : Server S → Server S → Type 0 where
    here : {s : Server S} → Reaches s s
    answered :
        {s t u : Server S} (r : Request plans parse_command)
        → IsRequest r
        → serve plans parse_command r s ≡ done tt t
        → Reaches t u
        → Reaches s u
    declined :
        {s t u : Server S} (r : Request plans parse_command) (e : Error)
        → IsRequest r
        → serve plans parse_command r s ≡ refused e t
        → Reaches t u
        → Reaches s u

  -- What the calls do that do not test the state: the plan is asked for, which changes nothing and
  -- follows a null pointer if there is no plan manager, or the name of the log file is set.
  abbrev pub Unguarded : Request plans parse_command → Server S → Type 0
  Unguarded plan s =
      (s.managers ≡ none) × (serve plans parse_command plan s ≡ crash)
      ⊎ (s.managers ≢ none) × (serve plans parse_command plan s ≡ done tt s)
  Unguarded (log_file file) s =
      serve plans parse_command (log_file file) s ≡ done tt (record s { shedding_log_file = file })
  Unguarded r s = ⊥

  module _ (Good : S → Type 0) (laws : IsPlanManager plans Good) where
    -- Over any plan manager, and any property of its state that holds at the start and that its
    -- calls keep when they return, a call of a well-formed server, with its text and its length
    -- in agreement if it is a query, leaves a well-formed server that has lost nothing, whether
    -- it succeeds or is refused. It can crash only if it is a query; or if the plan manager
    -- crashes, on the table that has just been registered last in a well-formed registry or while
    -- it optimizes; or if the plan is asked for before the specification has begun.
    pub serve-Evolved :
        (r : Request plans parse_command) (s : Server S)
        → IsServer Good s
        → IsRequest r
        → Holds (MayCrash Good r s) (Evolved Good s) (serve plans parse_command r s)
    unfolding register_base_table register_view get_plan set_shedding_log_file
    serve-Evolved begin_spec s h q = begin-Holds plans parse_command Good laws s h
    serve-Evolved (base_table info len input) s h q =
        told-Holds plans parse_command Good s info len (λ id m. plans.add_base_table m id input) h
          λ id m p good. laws.add_base_table-Good m id input p good
    serve-Evolved (query win q text len output) s h (is_text, e) =
        Holds-Leads Unit (Evolved Good s) (Evolved Good s) _ (λ t k. k)
          (Leads->>= Unit (Active Good s) (Evolved Good s) (Evolved Good s)
            (register_query_text plans parse_command win q text len output) (λ _. pure tt) s
            (rw e (
              register_query_text-Going plans parse_command Good laws s h win q text output
                is_text))
            λ _ t a. a.0)
    serve-Evolved (view query_id info len) s h q =
        told-Holds plans parse_command Good s info len (λ id m. plans.map_view m query_id id) h
          λ id m p good. laws.map_view-Good m query_id id p good
    serve-Evolved end_spec s h q = end-Holds plans parse_command Good laws s h
    serve-Evolved plan s h q = elim (Option-cases s.managers) [
      | inl gone ↦ rw gone (at_start s.state s.managers gone h)
      | inr (g, at) ↦ rw at (Evolved_refl Good _ (subst (Held Good (is_init s.state)) at h))
    ]
      where
        at_start :
            (st : State) (o : Option (Managers S))
            → o ≡ none
            → Held Good (is_init st) o
            → is_init st ≡ true
        at_start st (some g) e k = cc
        at_start State.s_init none e k = refl
        at_start State.s_app_spec none e k = absurd k
        at_start State.s_plan_gen none e k = absurd k
        at_start State.s_exec none e k = absurd k
        at_start State.s_int none e k = absurd k
        at_start State.s_end none e k = absurd k
    serve-Evolved (log_file file) s h q = record {
      still = h;
      later = omega arith;
      grown = Grows-refl Good s.managers;
    }

    pub Reaches-Evolved : {s t : Server S} → Reaches s t → IsServer Good s → Evolved Good s t
    Reaches-Evolved here h = Evolved_refl Good _ h
    Reaches-Evolved (answered r q e rest) h =
        let now = subst (Holds (MayCrash Good r _) (Evolved Good _)) e (serve-Evolved r _ h q) in
        Evolved-trans Good _ _ _ now (Reaches-Evolved rest now.still)
    Reaches-Evolved (declined r x q e rest) h =
        let now = subst (Holds (MayCrash Good r _) (Evolved Good _)) e (serve-Evolved r _ h q) in
        Evolved-trans Good _ _ _ now (Reaches-Evolved rest now.still)

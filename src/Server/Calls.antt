-- ===== src/Server/Calls.antt =====
-- AQSIOSCoordinator/src/server/server_impl.cc: the calls of the server. What the constructor sets
-- beside the state are parameters of the scheduler and of the load manager, which no call here reads;
-- it leaves `sheddingLogFile` unset, which is null here, and no call reads that either.
use p.Common.{
  ℕ, not, Option, none, some, List, Result, ok, err, fault, invalid_use_err, invalid_param_err,
  parse_err,
}
use p.Parser.Nodes.{Tree}
use p.Metadata.Tables.{TableManager, no_tables}
use p.Metadata.Queries.{no_queries, register_query}
use p.Semantic.Query.{Query, WindowSpec}
use p.Semantic.Clauses.{interpret_query}
use p.Logical.Pool.{Ptr, empty_pool}
use p.Logical.Rewrites.{gen_log_plan}
use p.Server.Reply.{
  Call, pure, refuse, done, refused, crash, update, compute, refuse_if, ◌>>=◌, ◌>>◌,
}
use p.Server.Tables.{enter_table}
use p.Server.State.{
  State, is_init, PlanManager, Server, on_tables, on_queries, on_plans, in_app_spec,
}

-- The constructor.
abbrev pub new_server : {S : Type 0} → Server S
new_server = record {
  state = State.s_init;
  managers = none;
  operators = empty_pool;
  current_query_class = 1;
  shedding_log_file = none;
}

-- The semantic form of the query in a parse tree. The kind of the tree is only asserted: a table
-- specification is read as the query that it is not.
abbrev pub interpret : TableManager → WindowSpec → Query → Tree → Result Query
interpret m win q (Tree.cont_query c) = interpret_query m win c q
interpret m win q (Tree.rel_spec spec) = fault
interpret m win q (Tree.str_spec spec) = fault

module _ {S Source Output Plan : Type 0} (plans : PlanManager S Source Output Plan)
    (parse_command : List ℕ → ℕ → Option Tree) where
  -- `beginAppSpecification`; `new` returns no null.
  unfoldable pub begin_app_specification : Call (Server S) (Unit {0})
  begin_app_specification s =
      (refuse_if (not (is_init s.state)) invalid_use_err >> λ t. done tt (record t {
        state = State.s_app_spec;
        managers = some (record {
          table_mgr = no_tables;
          qry_mgr = no_queries;
          plan_mgr = plans.new_plan_manager;
        });
      }))
        s

  -- The parser, with null for a text that it rejects.
  abbrev pub parsed : List ℕ → ℕ → Call (Server S) Tree
  parsed text len = elim (parse_command text len) [
    | none ↦ refuse parse_err
    | some tree ↦ pure tree
  ]

  -- What `registerBaseTable` and `registerView` share.
  unfoldable pub register_named : Option (List ℕ) → ℕ → Call (Server S) ℕ
  register_named none len = in_app_spec >> refuse invalid_param_err
  register_named (some text) len =
      in_app_spec >> parsed text len >>= λ tree. on_tables (enter_table tree)

  -- `registerBaseTable`
  unfoldable pub register_base_table : Option (List ℕ) → ℕ → Source → Call (Server S) (Unit {0})
  register_base_table info len input =
      register_named info len >>= λ id. on_plans λ m. plans.add_base_table m id input

  -- `registerView`
  unfoldable pub register_view : ℕ → Option (List ℕ) → ℕ → Call (Server S) (Unit {0})
  register_view query_id info len =
      register_named info len >>= λ id. on_plans λ m. plans.map_view m query_id id

  -- The query is interpreted.
  abbrev pub understood : WindowSpec → Query → Tree → Call (Server S) Query
  understood win q tree = on_tables λ m. compute (interpret m win q tree) m

  -- The logical plan is made in the static arrays. After an error code they hold what was made until
  -- then, which is not kept here: every plan empties them first.
  abbrev pub planned : Query → Call (Server S) Ptr
  planned q s = elim s.managers [
    | none ↦ crash
    | some g ↦ elim (gen_log_plan g.table_mgr q s.operators) [
      | ok r ↦ done r.0 (record s { operators = r.1 })
      | err e ↦ refused e s
      | fault ↦ crash
    ]
  ]

  -- The physical plan is made of it.
  abbrev pub added : ℕ → Ptr → Output → Call (Server S) (Unit {0})
  added id plan output s =
      on_plans
        (λ m. plans.add_logical_query_plan m s.operators s.current_query_class id plan output) s

  -- `registerQuery`, with the identifier. `win` and `q` are what the variables of the type `WindowSpec`
  -- and `Query` hold before they are filled in.
  unfoldable pub register_query_text : WindowSpec → Query → List ℕ → ℕ → Output → Call (Server S) ℕ
  register_query_text win q text len output = in_app_spec >> parsed text len >>= λ tree.
      understood win q tree >>= λ query.
      on_queries (update λ m. register_query m text len) >>= λ id.
      planned query >>= λ plan. added id plan output >> pure id

  -- `endAppSpecification`
  unfoldable pub end_app_specification : Call (Server S) (Unit {0})
  end_app_specification = in_app_spec >> on_plans (λ m. plans.optimize_plan) >> λ s.
      done tt (record s { state = State.s_plan_gen })

  -- `getPlan`, which follows the pointer to the plan manager whatever the state is.
  unfoldable pub get_plan : Call (Server S) Plan
  get_plan = on_plans λ m s. done (plans.get_plan s) s

  -- `setSheddingLogFile`
  unfoldable pub set_shedding_log_file : Option (List ℕ) → Call (Server S) (Unit {0})
  set_shedding_log_file file s = done tt (record s { shedding_log_file = file })

  -- The calls, with their arguments.
  pub data Request : Type 0 where
    begin_spec : Request
    base_table : Option (List ℕ) → ℕ → Source → Request
    query : WindowSpec → Query → List ℕ → ℕ → Output → Request
    view : ℕ → Option (List ℕ) → ℕ → Request
    end_spec : Request
    plan : Request
    log_file : Option (List ℕ) → Request

  abbrev returned : {A : Type 0} → Call (Server S) A → Call (Server S) (Unit {0})
  returned m = m >>= λ _. pure tt

  abbrev pub serve : Request → Call (Server S) (Unit {0})
  serve begin_spec = begin_app_specification
  serve (base_table info len input) = register_base_table info len input
  serve (query win q text len output) = returned (register_query_text win q text len output)
  serve (view query_id info len) = register_view query_id info len
  serve end_spec = end_app_specification
  serve plan = returned get_plan
  serve (log_file file) = set_shedding_log_file file

-- ===== src/Server/Tests.antt =====
-- An application of a stream, a table that is registered twice, and a query that is refused.
use p.Common.{
  ℕ, zero, suc, ◌≤◌, ◌≡◌, refl, ◌⊎◌, inl, inr, true, Option, none, some, List, [], ◌∷◌, ◌++◌, Error,
  fail, ok, err, arith, ltb, Bool-cases, if◌then◌else◌,
}
use p.Metadata.Types.{Kind}
use p.Parser.Nodes.{Tree, TableSpec, AttrSpec, ContQuery, BinOp, Body}
use p.Metadata.Tables.{
  no_tables, register_stream, register_relation, add_table_attribute, unregister_table,
}
use p.Metadata.Queries.{QueryManager, no_queries, qry_buf_len, max_queries, register_query}
use p.Metadata.Queries.Log.{log, IsLog, no_queries-IsLog, register_query-log}
use p.Semantic.Query.{WindowSpec}
use p.Logical.Pool.{empty_pool}
use p.Examples.{blank}
use p.Server.Reply.{Call, done, refused}
use p.Server.State.{State, PlanManager, Managers, Server}
use p.Server.Tables.{enter_relation, enter_stream, add_attributes}
use p.Server.Tables.Rollback.{table_of, IsFree, enter, enter_cases}
use p.Server.Calls.{
  new_server, begin_app_specification, register_named, register_base_table, end_app_specification,
  Request, begin_spec, base_table, query, end_spec, serve,
}
use p.Server.Invariant.{Holds, IsPlanManager, any-IsPlanManager, Evolved, IsServer}
use p.Server.Evolution.Once.{register_base_table_once}
use p.Server.Evolution.Runs.{Reaches, here, answered, declined, serve-Evolved, Reaches-Evolved}

abbrev room_attr : AttrSpec
room_attr = record { attr_name = "room"; attr_type = Kind.int; len = 0 }

abbrev heat_attr : AttrSpec
heat_attr = record { attr_name = "heat"; attr_type = Kind.float; len = 0 }

abbrev readings_spec : TableSpec
readings_spec = record { name = "Readings"; attr_list = room_attr ∷ heat_attr ∷ [] }

abbrev rooms_spec : TableSpec
rooms_spec = record { name = "Rooms"; attr_list = room_attr ∷ room_attr ∷ [] }

abbrev union_query : ContQuery
union_query = record {
  body = Body.bin_op (BinOp.union_node "Readings" "Readings");
  reltostr_op = none;
}

-- A parser of one letter.
abbrev pub parse : List ℕ → ℕ → Option Tree
parse (suc zero ∷ []) len = some (Tree.str_spec readings_spec)
parse (suc (suc zero) ∷ []) len = some (Tree.rel_spec rooms_spec)
parse (suc (suc (suc zero)) ∷ []) len = some (Tree.cont_query union_query)
parse text len = none

abbrev take_one : Call ℕ (Unit {0})
take_one n = if ltb n 3 then done tt (suc n) else refused fail n

-- A plan manager that counts, up to three.
abbrev pub counter : PlanManager ℕ (Unit {0}) (Unit {0}) ℕ
counter = record {
  new_plan_manager = 0;
  add_base_table = λ m id input. take_one;
  add_logical_query_plan = λ m ops class id plan output. take_one;
  map_view = λ m query_id id. take_one;
  optimize_plan = λ n. done tt n;
  get_plan = λ n. n;
}

abbrev UpTo3 : ℕ → Type 0
UpTo3 n = n ≤ 3

take_one-UpTo3 : (n : ℕ) → UpTo3 n → Holds Unit UpTo3 (take_one n)
take_one-UpTo3 n h = elim (Bool-cases (ltb n 3)) [
  | inl less ↦ rw (take_one, less, Holds) (ground arith)
  | inr full ↦ rw (take_one, full, Holds) h
]

counter-IsPlanManager : IsPlanManager counter UpTo3
counter-IsPlanManager = record {
  new_plan_manager-Good = omega arith;
  add_base_table-Good = λ m id input. take_one-UpTo3;
  add_logical_query_plan-Good = λ m ops class id plan output. take_one-UpTo3;
  map_view-Good = λ m query_id id. take_one-UpTo3;
  optimize_plan-Good = λ n h. h;
}

abbrev with_readings : Managers ℕ
with_readings = record {
  table_mgr = record { tables = table_of true readings_spec ∷ [] };
  qry_mgr = no_queries;
  plan_mgr = 1;
}

abbrev started : Server ℕ
started = record {
  state = State.s_app_spec;
  managers = some (record { table_mgr = no_tables; qry_mgr = no_queries; plan_mgr = 0 });
  operators = empty_pool;
  current_query_class = 1;
  shedding_log_file = none;
}

abbrev served : Server ℕ
served = record {
  state = State.s_app_spec;
  managers = some with_readings;
  operators = empty_pool;
  current_query_class = 1;
  shedding_log_file = none;
}

abbrev ended : Server ℕ
ended = record served { state = State.s_plan_gen }

begins : serve counter parse begin_spec new_server ≡ done tt started
unfolding begin_app_specification
begins = refl

registers : serve counter parse (base_table (some (1 ∷ [])) 1 tt) started ≡ done tt served
unfolding register_base_table register_named enter_stream add_attributes register_stream
    add_table_attribute
registers = refl

-- `Rooms` has an attribute twice.
refuses :
    serve counter parse (base_table (some (2 ∷ [])) 1 tt) served
    ≡ refused Error.duplicate_attr_err served
unfolding register_base_table register_named enter_relation add_attributes register_relation
    add_table_attribute unregister_table
refuses = refl

ends : serve counter parse end_spec served ≡ done tt ended
unfolding end_app_specification
ends = refl

run : Reaches counter parse new_server ended
run = answered begin_spec tt begins (
    answered (base_table (some (1 ∷ [])) 1 tt) tt registers (
      declined (base_table (some (2 ∷ [])) 1 tt) Error.duplicate_attr_err tt refuses
        (answered end_spec tt ends here)))

served-IsServer : IsServer UpTo3 served
served-IsServer = (Reaches-Evolved counter parse UpTo3 counter-IsPlanManager run tt).still

serve-Evolved_example :
    Holds Unit
      (Evolved UpTo3 served)
      (serve counter parse (query WindowSpec.now blank (3 ∷ []) 1 tt) served)
serve-Evolved_example =
    serve-Evolved counter parse UpTo3 counter-IsPlanManager
      (query WindowSpec.now blank (3 ∷ []) 1 tt) served served-IsServer
      (((λ e. omega (arith, e)), tt), refl)

abbrev a_table : Request counter parse
a_table = base_table (some (1 ∷ [])) 1 tt

abbrev a_begin : Request counter parse
a_begin = begin_spec

started-IsServer : IsServer (λ _. Unit {0}) started
started-IsServer =
    (Reaches-Evolved counter parse (λ _. Unit {0}) (any-IsPlanManager counter)
      (answered begin_spec tt begins here) tt).still

register_base_table_once_example :
    (e : Error) × (serve counter parse (base_table (some (1 ∷ [])) 1 tt) served ≡ refused e served)
register_base_table_once_example =
    register_base_table_once counter parse (1 ∷ []) 1 tt tt started served served started-IsServer
      registers
      (declined (base_table (some (2 ∷ [])) 1 tt) Error.duplicate_attr_err tt refuses here) refl

enter_cases_example :
    IsFree no_tables readings_spec
      × (enter true readings_spec no_tables
          ≡ done 0 (record { tables = [] ++ table_of true readings_spec ∷ [] }))
    ⊎ (¬ IsFree no_tables readings_spec)
      × ((e : Error) × (enter true readings_spec no_tables ≡ refused e no_tables))
enter_cases_example = enter_cases true readings_spec no_tables

register_query-log_example :
    (register_query no_queries (83 ∷ []) 1 ≡ err fail) × ((qry_buf_len ≤ 1) ⊎ (0 ≡ max_queries))
    ⊎ ((m : QueryManager) × (register_query no_queries (83 ∷ []) 1 ≡ ok (0, m))
        × IsLog m
        × (log m ≡ (83 ∷ []) ∷ []))
register_query-log_example =
    register_query-log no_queries (83 ∷ []) no_queries-IsLog ((λ e. omega (arith, e)), tt)

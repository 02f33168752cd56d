-- ===== src/Server/State.antt =====
-- AQSIOSCoordinator/include/server/server_impl.h and include/metadata/plan_mgr.h: the state of the
-- server, and the plan manager that it calls, which is an abstract class of the source.
use p.Common.{ℕ, List, Bool, true, false, not, Option, none, some, invalid_use_err}
use p.Metadata.Tables.{TableManager}
use p.Metadata.Queries.{QueryManager}
use p.Logical.Pool.{Ptr, Pool}
use p.Server.Reply.{Call, done, refused, crash, refuse_if}

pub data State : Type 0 where
  s_init s_app_spec s_plan_gen s_exec s_int s_end : State

abbrev pub is_init : State → Bool
is_init State.s_init = true
is_init s = false

abbrev pub is_app_spec : State → Bool
is_app_spec State.s_app_spec = true
is_app_spec s = false

-- `PlanManager`: `S` is its own state, and the other types are those of `TableSource`, `QueryOutput`
-- and `Physical::Operator`. It reads the registry of the tables and the operators of a logical plan.
pub record PlanManager (S Source Output Plan : Type 0) : Type 1 where
  pub new_plan_manager : S
  pub add_base_table : TableManager → ℕ → Source → Call S (Unit {0})
  pub add_logical_query_plan : TableManager → Pool → ℕ → ℕ → Ptr → Output → Call S (Unit {0})
  pub map_view : TableManager → ℕ → ℕ → Call S (Unit {0})
  pub optimize_plan : Call S (Unit {0})
  pub get_plan : S → Plan

-- What `beginAppSpecification` creates.
pub record Managers (S : Type 0) : Type 0 where
  pub table_mgr : TableManager
  pub qry_mgr : QueryManager
  pub plan_mgr : S

-- `managers` is `none` while the pointers to them are null. `operators` are the static arrays of
-- logop.cc, which every plan fills anew. `shedding_log_file` is a text, or null.
pub record Server (S : Type 0) : Type 0 where
  pub state : State
  pub managers : Option (Managers S)
  pub operators : Pool
  pub current_query_class : ℕ
  pub shedding_log_file : Option (List ℕ)

module _ {S : Type 0} where
  -- `s` with a manager changed.
  abbrev pub with_tables : Server S → Managers S → TableManager → Server S
  with_tables s g m = record s { managers = some (record g { table_mgr = m }) }

  abbrev pub with_queries : Server S → Managers S → QueryManager → Server S
  with_queries s g m = record s { managers = some (record g { qry_mgr = m }) }

  abbrev pub with_plans : Server S → Managers S → S → Server S
  with_plans s g m = record s { managers = some (record g { plan_mgr = m }) }

module _ {S A : Type 0} where
  -- A call of one of the managers.
  abbrev pub on_tables : Call TableManager A → Call (Server S) A
  on_tables f s = elim s.managers [
    | none ↦ crash
    | some g ↦ elim (f g.table_mgr) [
      | done a m ↦ done a (with_tables s g m)
      | refused e m ↦ refused e (with_tables s g m)
      | crash ↦ crash
    ]
  ]

  abbrev pub on_queries : Call QueryManager A → Call (Server S) A
  on_queries f s = elim s.managers [
    | none ↦ crash
    | some g ↦ elim (f g.qry_mgr) [
      | done a m ↦ done a (with_queries s g m)
      | refused e m ↦ refused e (with_queries s g m)
      | crash ↦ crash
    ]
  ]

  abbrev pub on_plans : (TableManager → Call S A) → Call (Server S) A
  on_plans f s = elim s.managers [
    | none ↦ crash
    | some g ↦ elim (f g.table_mgr g.plan_mgr) [
      | done a m ↦ done a (with_plans s g m)
      | refused e m ↦ refused e (with_plans s g m)
      | crash ↦ crash
    ]
  ]

-- The calls between `beginAppSpecification` and `endAppSpecification`.
abbrev pub in_app_spec : {S : Type 0} → Call (Server S) (Unit {0})
in_app_spec s = refuse_if (not (is_app_spec s.state)) invalid_use_err s

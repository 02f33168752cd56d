-- ===== src/Server/Invariant/Calls.antt =====
-- The calls of the managers keep the server well formed.
use p.Common.{◌≡◌, refl, subst, true, Option, none, some}
use p.Metadata.Tables.{TableManager}
use p.Metadata.Tables.Invariant.{IsValid}
use p.Metadata.Queries.{QueryManager}
use p.Metadata.Queries.Log.{log, IsLog}
use p.Server.Reply.{Reply, Call, done, refused, crash}
use p.Server.State.{
  State, is_init, is_app_spec, Managers, Server, with_tables, with_queries, with_plans, on_tables,
  on_queries, on_plans,
}
use p.Server.Invariant.{
  Holds, AreManagers, Held, Begins-refl, Grows, Grows-trans, Grows-refl, Begins, Active,
}

module _ {S : Type 0} (Good : S → Type 0) where
  -- A server whose managers are others.
  abbrev with_managers : Server S → Managers S → Server S
  with_managers t g = record t { managers = some g }

  -- The managers of an active server.
  pub held :
      (s t : Server S)
      → Active Good s t
      → (g : Managers S) × (t.managers ≡ some g) × AreManagers Good g
  held s t (e, a) = go t.state t.managers a e.still
    where
      go :
          (st : State) (o : Option (Managers S))
          → is_app_spec st ≡ true
          → Held Good (is_init st) o
          → (g : Managers S) × (o ≡ some g) × AreManagers Good g
      go State.s_app_spec none a h = absurd h
      go State.s_app_spec (some g) a h = (g, refl, h)
      go State.s_init o a h = cc
      go State.s_plan_gen o a h = cc
      go State.s_exec o a h = cc
      go State.s_int o a h = cc
      go State.s_end o a h = cc

  Active-with :
      (s t : Server S) (g g' : Managers S)
      → Active Good s t
      → t.managers ≡ some g
      → AreManagers Good g'
      → Grows Good (some g) (some g')
      → Active Good s (with_managers t g')
  Active-with s t g g' (e, a) at h grows = (
    record {
      still = go t.state a;
      later = e.later;
      grown =
          Grows-trans Good s.managers (some g) (some g') (subst (Grows Good s.managers) at e.grown)
            grows;
    },
    a,
  )
    where
      go : (st : State) → is_app_spec st ≡ true → Held Good (is_init st) (some g')
      go State.s_init a = cc
      go State.s_app_spec a = h
      go State.s_plan_gen a = h
      go State.s_exec a = h
      go State.s_int a = h
      go State.s_end a = h

  -- A call of the table manager.
  pub on_tables-Holds :
      {A : Type 0} (C : Type 0) (f : Call TableManager A) (s t : Server S)
      → Active Good s t
      → ((m : TableManager)
          → IsValid m
          → Holds C (λ m'. IsValid m' × Begins m.tables m'.tables) (f m))
      → Holds C (Active Good s) (on_tables f t)
  on_tables-Holds {A} C f s t a k =
      let (g, at, h) = held s t a in
      rw at (go g at h (f g.table_mgr) (k g.table_mgr h.tables_valid))
    where
      kept :
          (g : Managers S)
          → t.managers ≡ some g
          → AreManagers Good g
          → (m : TableManager) → IsValid m × Begins g.table_mgr.tables m.tables
          → Active Good s (with_tables t g m)
      kept g at h m r =
          Active-with s t g (record g { table_mgr = m }) a at
            (record { tables_valid = r.0; queries_log = h.queries_log; plans_good = h.plans_good })
            (r.1, Begins-refl (log g.qry_mgr))

      go :
          (g : Managers S)
          → t.managers ≡ some g
          → AreManagers Good g
          → (r : Reply TableManager A)
          → Holds C (λ m'. IsValid m' × Begins g.table_mgr.tables m'.tables) r
          → Holds C (Active Good s) (elim r as (λ _. Reply (Server S) A) [
            | done a m ↦ done a (with_tables t g m)
            | refused e m ↦ refused e (with_tables t g m)
            | crash ↦ crash
          ])
      go g at h (done v m) r = kept g at h m r
      go g at h (refused e m) r = kept g at h m r
      go g at h crash r = r

  -- A call of the query manager.
  pub on_queries-Holds :
      {A : Type 0} (C : Type 0) (f : Call QueryManager A) (s t : Server S)
      → Active Good s t
      → ((m : QueryManager) → IsLog m → Holds C (λ m'. IsLog m' × Begins (log m) (log m')) (f m))
      → Holds C (Active Good s) (on_queries f t)
  on_queries-Holds {A} C f s t a k =
      let (g, at, h) = held s t a in rw at (go g at h (f g.qry_mgr) (k g.qry_mgr h.queries_log))
    where
      kept :
          (g : Managers S)
          → t.managers ≡ some g
          → AreManagers Good g
          → (m : QueryManager) → IsLog m × Begins (log g.qry_mgr) (log m)
          → Active Good s (with_queries t g m)
      kept g at h m r =
          Active-with s t g (record g { qry_mgr = m }) a at
            (record { tables_valid = h.tables_valid; queries_log = r.0; plans_good = h.plans_good })
            (Begins-refl g.table_mgr.tables, r.1)

      go :
          (g : Managers S)
          → t.managers ≡ some g
          → AreManagers Good g
          → (r : Reply QueryManager A)
          → Holds C (λ m'. IsLog m' × Begins (log g.qry_mgr) (log m')) r
          → Holds C (Active Good s) (elim r as (λ _. Reply (Server S) A) [
            | done a m ↦ done a (with_queries t g m)
            | refused e m ↦ refused e (with_queries t g m)
            | crash ↦ crash
          ])
      go g at h (done v m) r = kept g at h m r
      go g at h (refused e m) r = kept g at h m r
      go g at h crash r = r

  -- A call of the plan manager.
  pub on_plans-Holds :
      {A : Type 0} (C : Type 0) (f : TableManager → Call S A) (s t : Server S)
      → Active Good s t
      → ((g : Managers S)
          → t.managers ≡ some g
          → AreManagers Good g
          → Holds C Good (f g.table_mgr g.plan_mgr))
      → Holds C (Active Good s) (on_plans f t)
  on_plans-Holds {A} C f s t a k =
      let (g, at, h) = held s t a in rw at (go g at h (f g.table_mgr g.plan_mgr) (k g at h))
    where
      kept :
          (g : Managers S)
          → t.managers ≡ some g
          → AreManagers Good g
          → (m : S) → Good m
          → Active Good s (with_plans t g m)
      kept g at h m r =
          Active-with s t g (record g { plan_mgr = m }) a at
            (record { tables_valid = h.tables_valid; queries_log = h.queries_log; plans_good = r })
            (Grows-refl Good (some g))

      go :
          (g : Managers S)
          → t.managers ≡ some g
          → AreManagers Good g
          → (r : Reply S A) → Holds C Good r
          → Holds C (Active Good s) (elim r as (λ _. Reply (Server S) A) [
            | done a m ↦ done a (with_plans t g m)
            | refused e m ↦ refused e (with_plans t g m)
            | crash ↦ crash
          ])
      go g at h (done v m) r = kept g at h m r
      go g at h (refused e m) r = kept g at h m r
      go g at h crash r = r

-- ===== src/Server/Invariant.antt =====
-- What the calls of the server keep: the managers exist once the specification of the application
-- has begun, they are well formed, and what is registered stays.
pub mod Calls
use p.Common.{
  ℕ, ◌+◌, ◌≤◌, ◌≡◌, refl, sym, ap, subst, ◌∙◌, inl, inr, Bool, true, false, Option, none, some,
  List, [], ◌∷◌, ◌++◌, Result, ok, err, fault, Error, arith, length, append_assoc, append-nil,
}
use p.Metadata.Tables.{Table, TableManager}
use p.Metadata.Tables.Invariant.{IsValid}
use p.Metadata.Queries.{QueryManager}
use p.Metadata.Queries.Log.{log, IsLog}
use p.Logical.Pool.{Ptr, Pool}
use p.Server.Reply.{Reply, Call, done, refused, crash, ◌>>=◌}
use p.Server.State.{
  State, is_init, is_app_spec, Managers, Server, PlanManager, with_tables, with_queries, with_plans,
  on_tables, on_queries, on_plans,
}

-- A reply after which `I` holds of the state, whatever it is; `C` says what a crash means.
abbrev pub Holds : {S A : Type 0} → Type 0 → (S → Type 0) → Reply S A → Type 0
Holds C I (done a s) = I s
Holds C I (refused e s) = I s
Holds C I crash = C

pub Holds->>= :
    {S A B : Type 0} (C : Type 0) (I : S → Type 0) (m : Call S A) (f : A → Call S B) (s : S)
    → Holds C I (m s)
    → ((a : A) (t : S) → I t → Holds C I (f a t))
    → Holds C I ((m >>= f) s)
Holds->>= {S} {A} {B} C I m f s h k = go (m s) h
  where
    go :
        (r : Reply S A)
        → Holds C I r
        → Holds C I (elim r as (λ _. Reply S B) [
          | done a t ↦ f a t
          | refused e t ↦ refused e t
          | crash ↦ crash
        ])
    go (done a t) h = k a t h
    go (refused e t) h = h
    go crash h = h

-- `Good` holds of the new plan manager, and every call that returns keeps it. A call may crash: the
-- plan manager of the source follows the pointers that it is given.
pub record IsPlanManager {S Source Output Plan : Type 0} (plans : PlanManager S Source Output Plan)
    (Good : S → Type 0) : Type 0 where
  pub new_plan_manager-Good : Good plans.new_plan_manager
  pub add_base_table-Good :
      (m : TableManager) (id : ℕ) (input : Source) (s : S)
      → Good s
      → Holds Unit Good (plans.add_base_table m id input s)
  pub add_logical_query_plan-Good :
      (m : TableManager) (ops : Pool) (class id : ℕ) (plan : Ptr) (output : Output) (s : S)
      → Good s
      → Holds Unit Good (plans.add_logical_query_plan m ops class id plan output s)
  pub map_view-Good :
      (m : TableManager) (query_id id : ℕ) (s : S)
      → Good s
      → Holds Unit Good (plans.map_view m query_id id s)
  pub optimize_plan-Good : (s : S) → Good s → Holds Unit Good (plans.optimize_plan s)

Holds-always : {S A : Type 0} (r : Reply S A) → Holds Unit (λ _. Unit {0}) r
Holds-always (done a s) = tt
Holds-always (refused e s) = tt
Holds-always crash = tt

-- Every plan manager keeps the property that holds always.
pub any-IsPlanManager :
    {S Source Output Plan : Type 0} (plans : PlanManager S Source Output Plan)
    → IsPlanManager plans (λ _. Unit {0})
any-IsPlanManager plans = record {
  new_plan_manager-Good = tt;
  add_base_table-Good = λ m id input s _. Holds-always _;
  add_logical_query_plan-Good = λ m ops class id plan output s _. Holds-always _;
  map_view-Good = λ m query_id id s _. Holds-always _;
  optimize_plan-Good = λ s _. Holds-always _;
}

-- A call that may crash is one that crashes in just that case.
pub Holds-crash :
    {S A : Type 0} (I : S → Type 0) (r : Reply S A) → Holds Unit I r → Holds (r ≡ crash) I r
Holds-crash I (done a s) h = h
Holds-crash I (refused e s) h = h
Holds-crash I crash h = refl

pub Holds-weaken :
    {S A : Type 0} (C D : Type 0) (I : S → Type 0) (r : Reply S A)
    → (C → D)
    → Holds C I r
    → Holds D I r
Holds-weaken C D I (done a s) k h = h
Holds-weaken C D I (refused e s) k h = h
Holds-weaken C D I crash k h = k h

-- `xs` is what `ys` begins with.
abbrev pub Begins : {A : Type 0} → List A → List A → Type 0
Begins {A} xs ys = (more : List A) × (ys ≡ xs ++ more)

Begins-trans : {A : Type 0} (xs ys zs : List A) → Begins xs ys → Begins ys zs → Begins xs zs
Begins-trans xs ys zs (a, e) (b, f) = (a ++ b, f ∙ ap (λ l. l ++ b) e ∙ append_assoc xs a b)

pub Begins-refl : {A : Type 0} (xs : List A) → Begins xs xs
Begins-refl xs = ([], sym (append-nil xs))

-- The order of the states.
abbrev pub rank : State → ℕ
rank State.s_init = 0
rank State.s_app_spec = 1
rank State.s_plan_gen = 2
rank State.s_exec = 3
rank State.s_int = 4
rank State.s_end = 5

module _ {S : Type 0} (Good : S → Type 0) where
  pub record AreManagers (g : Managers S) : Type 0 where
    pub tables_valid : IsValid g.table_mgr
    pub queries_log : IsLog g.qry_mgr
    pub plans_good : Good g.plan_mgr

  -- The managers exist in every state but the first.
  abbrev pub Held : Bool → Option (Managers S) → Type 0
  Held true none = Unit
  Held false (some g) = AreManagers g
  Held b g = ⊥

  abbrev pub IsServer : Server S → Type 0
  IsServer s = Held (is_init s.state) s.managers

  -- Nothing that is registered is lost.
  abbrev pub Grows : Option (Managers S) → Option (Managers S) → Type 0
  Grows none h = Unit
  Grows (some g) none = ⊥
  Grows (some g) (some h) =
      Begins g.table_mgr.tables h.table_mgr.tables × Begins (log g.qry_mgr) (log h.qry_mgr)

  -- The server is well formed, and has lost nothing since the state `s`.
  pub record Evolved (s t : Server S) : Type 0 where
    pub still : IsServer t
    pub later : rank s.state ≤ rank t.state
    pub grown : Grows s.managers t.managers

  -- The same, between the begin and the end of the specification.
  abbrev pub Active : Server S → Server S → Type 0
  Active s t = Evolved s t × (is_app_spec t.state ≡ true)

  pub Grows-trans : (o u w : Option (Managers S)) → Grows o u → Grows u w → Grows o w
  Grows-trans none u w a b = tt
  Grows-trans (some g) none w a b = absurd a
  Grows-trans (some g) (some h) none a b = absurd b
  Grows-trans (some g) (some h) (some k) a b = (
    Begins-trans g.table_mgr.tables h.table_mgr.tables k.table_mgr.tables a.0 b.0,
    Begins-trans (log g.qry_mgr) (log h.qry_mgr) (log k.qry_mgr) a.1 b.1,
  )

  pub Grows-refl : (o : Option (Managers S)) → Grows o o
  Grows-refl none = tt
  Grows-refl (some g) = (Begins-refl g.table_mgr.tables, Begins-refl (log g.qry_mgr))

  pub Evolved_refl : (s : Server S) → IsServer s → Evolved s s
  Evolved_refl s h = record { still = h; later = omega arith; grown = Grows-refl s.managers }

  pub Evolved-trans : (s t u : Server S) → Evolved s t → Evolved t u → Evolved s u
  Evolved-trans s t u a b = record {
    still = b.still;
    later = omega (arith, a.later, b.later);
    grown = Grows-trans s.managers t.managers u.managers a.grown b.grown;
  }

-- ===== src/Server/Evolution/Once.antt =====
-- A base table is registered at most once, whatever is called in between.
use p.Common.{ℕ, ◌≡◌, refl, subst, inl, inr, true, Option, none, some, List, Error, Option-cases}
use p.Parser.Nodes.{Tree}
use p.Metadata.Tables.{TableManager}
use p.Server.Reply.{Reply, Call, done, refused, crash, ◌>>=◌, ◌>>◌}
use p.Server.State.{
  is_app_spec, PlanManager, Managers, Server, on_tables, on_plans, in_app_spec, with_tables,
  with_plans,
}
use p.Server.Tables.{enter_table}
use p.Server.Calls.{parsed, register_named, register_base_table, base_table, serve}
use p.Server.Invariant.{IsServer, Grows, any-IsPlanManager}
use p.Server.Tables.Taken.{Specified, Specified-grows, enter_table-Specified, enter_table-refused}
use p.Server.Replies.{Yields, Yields->>=_from}
use p.Server.Evolution.Runs.{Reaches, here, answered, Reaches-Evolved}

-- What holds of the tables, if there are managers.
abbrev OfTables : {S : Type 0} → (TableManager → Type 0) → Option (Managers S) → Type 0
OfTables P none = ⊥
OfTables P (some g) = P g.table_mgr

module _ {S Source Output Plan : Type 0} (plans : PlanManager S Source Output Plan)
    (parse_command : List ℕ → ℕ → Option Tree) (text : List ℕ) (len : ℕ) where
  -- The text is parsed to the specification of a table, of which the name is taken.
  abbrev Known : Server S → Type 0
  Known t =
      (tree : Tree) × (parse_command text len ≡ some tree) × OfTables (Specified tree) t.managers

  on_tables-Known :
      (t : Server S) (tree : Tree)
      → parse_command text len ≡ some tree
      → Yields (λ id u. Known u) (on_tables (enter_table tree) t)
  on_tables-Known t tree e = by_managers t.managers
    where
      by_reply :
          (g : Managers S) (r : Reply TableManager ℕ)
          → Yields (λ id m. Specified tree m) r
          → Yields {S = Server S} {A = ℕ}
              (λ id u. Known u)
              (elim r as (λ _. Reply (Server S) ℕ) [
                | done a m ↦ done a (with_tables t g m)
                | refused x m ↦ refused x (with_tables t g m)
                | crash ↦ crash
              ])
      by_reply g (done a m) h = (tree, e, h)
      by_reply g (refused x m) h = tt
      by_reply g crash h = tt

      by_managers :
          (o : Option (Managers S))
          → Yields {S = Server S} {A = ℕ}
              (λ id u. Known u)
              (elim o as (λ _. Reply (Server S) ℕ) [
                | none ↦ crash
                | some g ↦ elim (enter_table tree g.table_mgr) as (λ _. Reply (Server S) ℕ) [
                  | done a m ↦ done a (with_tables t g m)
                  | refused x m ↦ refused x (with_tables t g m)
                  | crash ↦ crash
                ]
              ])
      by_managers none = tt
      by_managers (some g) =
          by_reply g (enter_table tree g.table_mgr) (enter_table-Specified tree g.table_mgr)

  -- The plan manager does not change the registry.
  on_plans-Known :
      (f : TableManager → Call S (Unit {0})) (t : Server S)
      → Known t
      → Yields (λ _ u. Known u) (on_plans f t)
  on_plans-Known f t (tree, e, h) = by_managers t.managers h
    where
      by_reply :
          (g : Managers S)
          → Specified tree g.table_mgr
          → (r : Reply S (Unit {0}))
          → Yields {S = Server S} {A = Unit {0}}
              (λ _ u. Known u)
              (elim r as (λ _. Reply (Server S) (Unit {0})) [
                | done a m ↦ done a (with_plans t g m)
                | refused x m ↦ refused x (with_plans t g m)
                | crash ↦ crash
              ])
      by_reply g h (done a m) = (tree, e, h)
      by_reply g h (refused x m) = tt
      by_reply g h crash = tt

      by_managers :
          (o : Option (Managers S))
          → OfTables (Specified tree) o
          → Yields {S = Server S} {A = Unit {0}}
              (λ _ u. Known u)
              (elim o as (λ _. Reply (Server S) (Unit {0})) [
                | none ↦ crash
                | some g ↦ elim (f g.table_mgr g.plan_mgr) as (λ _. Reply (Server S) (Unit {0})) [
                  | done a m ↦ done a (with_plans t g m)
                  | refused x m ↦ refused x (with_plans t g m)
                  | crash ↦ crash
                ]
              ])
      by_managers none h = tt
      by_managers (some g) h = by_reply g h (f g.table_mgr g.plan_mgr)

  parsed-Tree :
      (s : Server S)
      → Yields
          (λ tree _. parse_command text len ≡ some tree)
          ((in_app_spec >> parsed plans parse_command text len) s)
  parsed-Tree s =
      Yields->>=_from (λ _ _. Unit {0}) _ in_app_spec (λ _. parsed plans parse_command text len) s
        (nothing (in_app_spec s))
        λ _ t _. elim (Option-cases (parse_command text len)) [
          | inl wrong ↦ rw (Yields, parsed, wrong) tt
          | inr (tree, right) ↦ rw (Yields, parsed, right) right
        ]
    where
      nothing : (r : Reply (Server S) (Unit {0})) → Yields (λ _ _. Unit {0}) r
      nothing (done a t) = tt
      nothing (refused e t) = tt
      nothing crash = tt

  register_base_table-Known :
      (input : Source) (s : Server S)
      → Yields (λ _ t. Known t) (register_base_table plans parse_command (some text) len input s)
  unfolding register_base_table register_named
  register_base_table-Known input s =
      Yields->>=_from (λ id t. Known t) _ (register_named plans parse_command (some text) len) _ s
        (Yields->>=_from (λ tree _. parse_command text len ≡ some tree) _
          (in_app_spec >> parsed plans parse_command text len)
          (λ tree. on_tables (enter_table tree)) s (parsed-Tree s)
          λ tree t e. on_tables-Known t tree e)
        λ id t h. on_plans-Known (λ m. plans.add_base_table m id input) t h

  -- The registry only grows.
  Known-Grows : (t u : Server S) → Known t → Grows (λ _. Unit {0}) t.managers u.managers → Known u
  Known-Grows t u (tree, e, h) k = (tree, e, go t.managers u.managers h k)
    where
      go :
          (o w : Option (Managers S))
          → OfTables (Specified tree) o
          → Grows (λ _. Unit {0}) o w
          → OfTables (Specified tree) w
      go none w h k = absurd h
      go (some g) none h k = absurd k
      go (some g) (some g') h k = Specified-grows tree g.table_mgr g'.table_mgr k.0.0 k.0.1 h

  Known-refused :
      (input : Source) (u : Server S)
      → Known u
      → is_app_spec u.state ≡ true
      → (e : Error) × (register_base_table plans parse_command (some text) len input u
          ≡ refused e u)
  unfolding register_base_table register_named
  Known-refused input u (tree, e, h) active = elim (Option-cases u.managers) [
    | inl gone ↦ absurd (subst (OfTables (Specified tree)) gone h)
    | inr (g, at) ↦
        let (x, out) =
          enter_table-refused tree g.table_mgr (subst (OfTables (Specified tree)) at h) in
        (x, rw (◌>>=◌, ◌>>◌, in_app_spec, active, parsed, e, on_tables, at, out) refl)
  ]

  -- Over any plan manager, once a base table has been registered on a well-formed server, every
  -- later registration with the same text during the specification is refused and leaves the
  -- server as it is, whatever calls that return come in between.
  pub register_base_table_once :
      (input input' : Source) (s t u : Server S)
      → IsServer (λ _. Unit {0}) s
      → serve plans parse_command (base_table (some text) len input) s ≡ done tt t
      → Reaches plans parse_command t u
      → is_app_spec u.state ≡ true
      → (e : Error) × (serve plans parse_command (base_table (some text) len input') u
          ≡ refused e u)
  register_base_table_once input input' s t u h e run active =
      let known = subst (Yields λ _ t. Known t) e (register_base_table-Known input s) in
      let first =
        Reaches-Evolved plans parse_command (λ _. Unit {0}) (any-IsPlanManager plans)
          (answered (base_table (some text) len input) tt e here) h in
      let later =
        Reaches-Evolved plans parse_command (λ _. Unit {0}) (any-IsPlanManager plans) run
          first.still in
      Known-refused input' u (Known-Grows t u known later.grown) active

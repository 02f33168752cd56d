-- ===== src/Server/Evolution/Named.antt =====
-- The identifier of a table that has just been registered is the last of the registry.
use p.Common.{
  ℕ, suc, ◌≡◌, inl, inr, Bool, true, false, Option, none, some, List, [], ◌∷◌, arith, length,
  length-append, invalid_param_err,
}
use p.Parser.Nodes.{Tree, TableSpec}
use p.Metadata.Tables.{TableManager}
use p.Server.Reply.{Reply, refuse, done, refused, crash, ◌>>◌}
use p.Server.Replies.{Yields, Yields->>=}
use p.Server.State.{PlanManager, Managers, Server, on_tables, in_app_spec, with_tables}
use p.Server.Tables.{enter_table}
use p.Server.Tables.Rollback.{enter, enter_cases, table_of}
use p.Server.Calls.{parsed, register_named}

-- The registry has one table more than the identifier says.
abbrev pub Counted : {S : Type 0} → ℕ → Option (Managers S) → Type 0
Counted id none = Unit
Counted id (some g) = length g.table_mgr.tables ≡ suc id

abbrev LastOf : ℕ → TableManager → Type 0
LastOf id m = length m.tables ≡ suc id

enter-LastOf :
    (flag : Bool) (spec : TableSpec) (m : TableManager) → Yields LastOf (enter flag spec m)
enter-LastOf flag spec m = elim (enter_cases flag spec m) [
  | inl (free, made) ↦ rw made (omega (arith, length-append m.tables (table_of flag spec ∷ [])))
  | inr (taken, (e, out)) ↦ rw out tt
]

enter_table-LastOf : (tree : Tree) (m : TableManager) → Yields LastOf (enter_table tree m)
enter_table-LastOf (Tree.rel_spec spec) m = enter-LastOf false spec m
enter_table-LastOf (Tree.str_spec spec) m = enter-LastOf true spec m
enter_table-LastOf (Tree.cont_query q) m = tt

module _ {S : Type 0} where
  entered-Counted :
      (t : Server S) (tree : Tree)
      → Yields (λ id u. Counted id u.managers) (on_tables (enter_table tree) t)
  entered-Counted t tree = by_managers t.managers
    where
      by_reply :
          (g : Managers S) (r : Reply TableManager ℕ)
          → Yields LastOf r
          → Yields {S = Server S} {A = ℕ}
              (λ id u. Counted id u.managers)
              (elim r as (λ _. Reply (Server S) ℕ) [
                | done a m ↦ done a (with_tables t g m)
                | refused e m ↦ refused e (with_tables t g m)
                | crash ↦ crash
              ])
      by_reply g (done a m) h = h
      by_reply g (refused e m) h = tt
      by_reply g crash h = tt

      by_managers :
          (o : Option (Managers S))
          → Yields {S = Server S} {A = ℕ}
              (λ id u. Counted id u.managers)
              (elim o as (λ _. Reply (Server S) ℕ) [
                | none ↦ crash
                | some g ↦ elim (enter_table tree g.table_mgr) as (λ _. Reply (Server S) ℕ) [
                  | done a m ↦ done a (with_tables t g m)
                  | refused e m ↦ refused e (with_tables t g m)
                  | crash ↦ crash
                ]
              ])
      by_managers none = tt
      by_managers (some g) =
          by_reply g (enter_table tree g.table_mgr) (enter_table-LastOf tree g.table_mgr)

module _ {S Source Output Plan : Type 0} (plans : PlanManager S Source Output Plan)
    (parse_command : List ℕ → ℕ → Option Tree) where
  pub register_named-Counted :
      (info : Option (List ℕ)) (len : ℕ) (s : Server S)
      → Yields (λ id t. Counted id t.managers) (register_named plans parse_command info len s)
  unfolding register_named
  register_named-Counted none len s =
      Yields->>= _ in_app_spec (λ _. refuse invalid_param_err) s λ _ t. tt
  register_named-Counted (some text) len s =
      Yields->>= _ (in_app_spec >> parsed plans parse_command text len)
        (λ tree. on_tables (enter_table tree)) s λ tree t. entered-Counted t tree

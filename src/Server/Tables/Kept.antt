-- ===== src/Server/Tables/Kept.antt =====
-- A registration keeps the registry well formed, and the tables that it has.
use p.Common.{
  ◌≡◌, refl, sym, inl, inr, Bool, true, false, [], ◌∷◌, ◌++◌, append-nil, arith, length-append,
  All-append,
}
use p.Common.Index.{index_of-none, Distinct-append}
use p.Metadata.Tables.{TableManager, name_of, get_table_id}
use p.Metadata.Tables.Invariant.{IsValid, IsTable}
use p.Parser.Nodes.{TableSpec, Tree}
use p.Server.Invariant.{Holds}
use p.Server.Tables.{enter_table}
use p.Server.Tables.Rollback.{table_of, IsFree, enter, enter_cases}

extended-IsValid :
    (flag : Bool) (m : TableManager) (spec : TableSpec)
    → IsValid m
    → IsFree m spec
    → IsValid (record { tables = m.tables ++ table_of flag spec ∷ [] })
unfolding get_table_id
extended-IsValid flag m spec v (room, new, fits) =
    let t = table_of flag spec in
    record {
      few_tables = omega (arith, length-append m.tables (t ∷ []), v.few_tables, room);
      tables_distinct =
          Distinct-append name_of m.tables t v.tables_distinct
            (index_of-none name_of spec.name m.tables new);
      each_table =
          All-append IsTable m.tables (t ∷ []) v.each_table
            (record { few_attrs = fits.0; attrs_distinct = fits.1 }, tt);
    }

-- What a call has kept of the registry `m`.
abbrev pub Keeps : TableManager → TableManager → Type 0
Keeps m m' = IsValid m' × ((more : _) × (m'.tables ≡ m.tables ++ more))

enter-Holds :
    (flag : Bool) (spec : TableSpec) (m : TableManager)
    → IsValid m
    → Holds ⊥ (Keeps m) (enter flag spec m)
enter-Holds flag spec m v = elim (enter_cases flag spec m) [
  | inl (free, made) ↦
      rw made (extended-IsValid flag m spec v free, (table_of flag spec ∷ [], refl))
  | inr (taken, (e, out)) ↦ rw out (v, ([], sym (append-nil m.tables)))
]

pub enter_table-Holds :
    (tree : Tree) (m : TableManager) → IsValid m → Holds ⊥ (Keeps m) (enter_table tree m)
enter_table-Holds (Tree.rel_spec spec) m v = enter-Holds false spec m v
enter_table-Holds (Tree.str_spec spec) m v = enter-Holds true spec m v
enter_table-Holds (Tree.cont_query q) m v = (v, ([], sym (append-nil m.tables)))

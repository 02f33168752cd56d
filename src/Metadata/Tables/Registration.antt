-- ===== src/Metadata/Tables/Registration.antt =====
-- When a registration succeeds, and how it is undone.
use p.Common.{
  ℕ, ◌≡◌, ◌≢◌, refl, ap, ◌⊎◌, inl, inr, Bool, none, List, [], ◌∷◌, ◌++◌, String, ok, err, fail,
  duplicate_table_err, arith, length, init, Option-cases, Bool-cases, ◌==◌, ==_iff,
}
use p.Common.Index.{index_of}
use p.Metadata.Types.{max_tables}
use p.Metadata.Tables.{
  Table, TableManager, name_of, register, unregister_table, get_table_id, new_table,
}
use p.Metadata.Tables.Invariant.{register-eq-ok}

-- A registration never faults: it returns the code -1 if there is no room for a table; otherwise
-- DUPLICATE_TABLE_ERR if the name is taken; otherwise it succeeds with the next free identifier.
pub register_cases :
    (flag : Bool) (m : TableManager) (name : String)
    → (register flag m name ≡ err fail) × (length m.tables ≡ max_tables)
      ⊎ (length m.tables ≢ max_tables)
        × ((register flag m name ≡ err duplicate_table_err) × (get_table_id m name ≢ none)
            ⊎ ((m' : TableManager) × (register flag m name ≡ ok (length m.tables, m')))
              × (get_table_id m name ≡ none))
unfolding register get_table_id
register_cases flag m name = elim (Bool-cases (length m.tables == max_tables)) [
  | inl full ↦ inl (rw full refl, (==_iff _ _).0 full)
  | inr room ↦ inr (
    ground arith,
    elim (Option-cases (index_of name_of name m.tables)) [
      | inl new ↦
          inr ((record { tables = m.tables ++ new_table flag name ∷ [] }, rw (room, new) refl), new)
      | inr (i, used) ↦ inl (rw (room, used) refl, λ e. cc)
    ],
  )
]

pub init-append : (xs : List Table) (y : Table) → init (xs ++ y ∷ []) ≡ xs
init-append [] y = refl
init-append (x ∷ []) y = refl
init-append (x ∷ z ∷ xs) y = ap (λ r. x ∷ r) (init-append (z ∷ xs) y)

pub drop_last :
    (xs : List Table) (y : Table) (m : TableManager) (j : ℕ)
    → m.tables ≡ xs ++ y ∷ []
    → unregister_table m j ≡ ok (record { tables = xs })
unfolding unregister_table
drop_last [] y m j e = rw e refl
drop_last (x ∷ xs) y m j e = rw e (ap (λ r. ok (record { tables = r })) (init-append (x ∷ xs) y))

-- Removing a table directly after a registration that succeeded restores the registry, whichever
-- identifier is given.
pub unregister_table-register :
    (flag : Bool) (m : TableManager) (name : String) (id j : ℕ) (m' : TableManager)
    → register flag m name ≡ ok (id, m')
    → unregister_table m' j ≡ ok m
unregister_table-register flag m name id j m' e =
    drop_last m.tables (new_table flag name) m' j (register-eq-ok flag m name id m' e).3

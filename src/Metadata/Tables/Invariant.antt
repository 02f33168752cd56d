-- ===== src/Metadata/Tables/Invariant.antt =====
-- The registry stays well formed: no two tables have one name, no two attributes of a table have
-- one name, and the arrays of table_mgr.h are never overrun.
use p.Common.{
  ℕ, ◌≤◌, ◌≡◌, ◌≢◌, refl, inl, inr, Bool, true, false, none, some, List, [], ◌∷◌, ◌++◌, String,
  Result, ok, err, fault, arith, length, get_elem?, set, init, All, length-append, length-set,
  length-init, All-append, All-init, All-set, All-get, Option-cases, >>=-eq-ok, ok-injective, subst,
  ◌>>=◌,
}
use p.Common.Index.{index_of, Distinct, index_of-none, Distinct-append, Distinct-init, Distinct-set}
use p.Metadata.Types.{Kind, max_tables, max_attrs}
use p.Metadata.Tables.{
  Table, TableManager, no_tables, name_of, attr_name_of, register_stream, register_relation,
  unregister_table, add_table_attribute, register, new_table, with_attr, Command, stream, relation,
  unregister, attribute, apply, settle, run, second,
}

pub record IsTable (t : Table) : Type 0 where
  pub few_attrs : length t.attrs ≤ max_attrs
  pub attrs_distinct : Distinct attr_name_of t.attrs

pub record IsValid (m : TableManager) : Type 0 where
  pub few_tables : length m.tables ≤ max_tables
  pub tables_distinct : Distinct name_of m.tables
  pub each_table : All IsTable m.tables

pub no_tables-IsValid : IsValid no_tables
no_tables-IsValid = record { few_tables = omega arith; tables_distinct = tt; each_table = tt }

-- What a registration that succeeds has found and done.
pub register-eq-ok :
    (flag : Bool) (m : TableManager) (name : String) (id : ℕ) (m' : TableManager)
    → register flag m name ≡ ok (id, m')
    → (length m.tables ≢ max_tables)
      × (index_of name_of name m.tables ≡ none)
      × (id ≡ length m.tables)
      × (m'.tables ≡ m.tables ++ new_table flag name ∷ [])
unfolding register
register-eq-ok flag m name id m' e = ground arith

register-IsValid :
    (flag : Bool) (m : TableManager) (name : String) (id : ℕ) (m' : TableManager)
    → IsValid m
    → register flag m name ≡ ok (id, m')
    → IsValid m'
register-IsValid flag m name id m' v e =
    let r = register-eq-ok flag m name id m' e in
    record {
      few_tables =
          rw (r.3)
            (omega (arith, length-append m.tables (new_table flag name ∷ []), v.few_tables, r.0));
      tables_distinct = rw (r.3) (
          Distinct-append name_of m.tables (new_table flag name) v.tables_distinct
            (index_of-none name_of name m.tables r.1));
      each_table = rw (r.3) (
          All-append IsTable m.tables (new_table flag name ∷ []) v.each_table
            (record { few_attrs = omega arith; attrs_distinct = tt }, tt));
    }

-- What an attribute that is added has found and done.
pub add_table_attribute-eq-ok :
    (m : TableManager) (id : ℕ) (name : String) (type : Kind) (len : ℕ) (m' : TableManager)
    → add_table_attribute m id name type len ≡ ok m'
    → (t : Table) × (get_elem? m.tables id ≡ some t)
      × (length t.attrs ≢ max_attrs)
      × (index_of attr_name_of name t.attrs ≡ none)
      × (m'.tables ≡ set m.tables id (with_attr t name type len))
unfolding add_table_attribute
add_table_attribute-eq-ok m id name type len m' e = elim (Option-cases (get_elem? m.tables id)) [
  | inl h ↦ ground arith
  | inr (t, h) ↦ (t, h, ground arith, ground arith, ground arith)
]

unregister_table-eq-ok :
    (m : TableManager) (id : ℕ) (m' : TableManager)
    → unregister_table m id ≡ ok m'
    → m'.tables ≡ init m.tables
unfolding unregister_table
unregister_table-eq-ok m id m' e = ground arith

unregister_table-IsValid :
    (m : TableManager) (id : ℕ) (m' : TableManager)
    → IsValid m
    → unregister_table m id ≡ ok m'
    → IsValid m'
unregister_table-IsValid m id m' v e =
    let r = unregister_table-eq-ok m id m' e in
    record {
      few_tables = rw r (omega (arith, length-init m.tables, v.few_tables));
      tables_distinct = rw r (Distinct-init name_of m.tables v.tables_distinct);
      each_table = rw r (All-init IsTable m.tables v.each_table);
    }

with_attr-IsTable :
    (t : Table) (name : String) (type : Kind) (len : ℕ)
    → IsTable t
    → length t.attrs ≢ max_attrs
    → index_of attr_name_of name t.attrs ≡ none
    → IsTable (with_attr t name type len)
with_attr-IsTable t name type len v h e = record {
  few_attrs = omega (arith, length-append {0} t.attrs, v.few_attrs, h);
  attrs_distinct =
      Distinct-append attr_name_of t.attrs _ v.attrs_distinct
        (index_of-none attr_name_of name t.attrs e);
}

add_table_attribute-IsValid :
    (m : TableManager) (id : ℕ) (name : String) (type : Kind) (len : ℕ) (m' : TableManager)
    → IsValid m
    → add_table_attribute m id name type len ≡ ok m'
    → IsValid m'
add_table_attribute-IsValid m id name type len m' v e =
    let (t, found, room, new, r) = add_table_attribute-eq-ok m id name type len m' e in
    let old = All-get IsTable m.tables id v.each_table found in
    record {
      few_tables = rw (r, length-set m.tables id (with_attr t name type len)) v.few_tables;
      tables_distinct = rw r (
          Distinct-set name_of m.tables id (with_attr t name type len) v.tables_distinct found
            refl);
      each_table = rw r (
          All-set IsTable m.tables id (with_attr t name type len) v.each_table
            (with_attr-IsTable t name type len old room new));
    }

registers-IsValid :
    (flag : Bool) (m : TableManager) (name : String) (m' : TableManager)
    → IsValid m
    → (register flag m name >>= second) ≡ ok m'
    → IsValid m'
registers-IsValid flag m name m' v e =
    let (r, done, k) = >>=-eq-ok (register flag m name) second e in
    subst IsValid (ok-injective k) (register-IsValid flag m name r.0 r.1 v done)

settle-IsValid :
    (m : TableManager) (r : Result TableManager) (m' : TableManager)
    → IsValid m
    → ((n : TableManager) → r ≡ ok n → IsValid n)
    → settle m r ≡ ok m'
    → IsValid m'
settle-IsValid m (ok n) m' v h e = subst IsValid (ok-injective e) (h n refl)
settle-IsValid m (err x) m' v h e = subst IsValid (ok-injective e) v
settle-IsValid m fault m' v h e = cc

-- Every call that succeeds keeps the registry well formed.
pub apply-IsValid :
    (m : TableManager) (c : Command) (m' : TableManager)
    → IsValid m
    → apply m c ≡ ok m'
    → IsValid m'
unfolding register_stream register_relation
apply-IsValid m (stream name) m' v e = registers-IsValid true m name m' v e
apply-IsValid m (relation name) m' v e = registers-IsValid false m name m' v e
apply-IsValid m (unregister id) m' v e = unregister_table-IsValid m id m' v e
apply-IsValid m (attribute id name type len) m' v e =
    add_table_attribute-IsValid m id name type len m' v e

-- From a well-formed registry, any sequence of registrations, added attributes and removals, of
-- which some may return an error code and none faults, ends in a well-formed registry: no two
-- tables have one name, no two attributes of a table have one name, and no array is overrun.
pub run-IsValid :
    (m : TableManager) (cs : List Command) (m' : TableManager)
    → IsValid m
    → run m cs ≡ ok m'
    → IsValid m'
unfolding run
run-IsValid m [] m' v e = subst IsValid (ok-injective e) v
run-IsValid m (c ∷ cs) m' v e =
    let (n, settled, rest) = >>=-eq-ok (settle m (apply m c)) (λ n. run n cs) e in
    run-IsValid n cs m' (settle-IsValid m (apply m c) n v (λ k h. apply-IsValid m c k v h) settled)
      rest

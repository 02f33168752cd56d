-- ===== src/Metadata/Tables.antt =====
-- AQSIOSCoordinator/src/metadata/table_mgr.cc and its header: the registry of the named streams
-- and relations. `tables` holds the used part of `tableList`, so that `numTables` is its length
-- and a table's identifier is its position. `ASSERT` is empty in the build, so that an identifier
-- out of range is a `fault`. The constructor's `registerSysStr` and `printState` are compiled only
-- under flags that the build does not set.
pub mod Invariant
pub mod Lookup
pub mod Registration
mod Tests
use p.Common.{
  ℕ, Bool, true, false, Option, none, some, List, [], ◌∷◌, ◌++◌, String, ◌==◌, Result, ok, fault,
  fail, duplicate_table_err, duplicate_attr_err, ◌>>=◌, ◌>>◌, return_if, or_fault, length,
  get_elem?, set, init, err,
}
use p.Common.Index.{index_of}
use p.Metadata.Types.{Kind, max_tables, max_attrs}

pub record Attribute : Type 0 where
  pub attr_name : String
  pub attr_type : Kind
  pub attr_len : ℕ

pub record Table : Type 0 where
  pub table_name : String
  pub is_stream : Bool
  pub attrs : List Attribute

pub record TableManager : Type 0 where
  pub tables : List Table

abbrev pub name_of : Table → String
name_of t = t.table_name

abbrev pub attr_name_of : Attribute → String
attr_name_of a = a.attr_name

abbrev is_found : Option ℕ → Bool
is_found none = false
is_found (some i) = true

-- The constructor.
abbrev pub no_tables : TableManager
no_tables = record { tables = [] }

abbrev pub new_table : Bool → String → Table
new_table flag name = record { table_name = name; is_stream = flag; attrs = [] }

-- What `registerStream` and `registerRelation` share; they differ in the flag alone.
pub register : Bool → TableManager → String → Result (ℕ × TableManager)
register flag m name = do
  return_if (length m.tables == max_tables) fail
  return_if (is_found (index_of name_of name m.tables)) duplicate_table_err
  ok (length m.tables, record { tables = m.tables ++ new_table flag name ∷ [] })

-- `registerStream`: the identifier and the new state.
unfoldable pub register_stream : TableManager → String → Result (ℕ × TableManager)
unfolding register
register_stream = register true

-- `registerRelation`
unfoldable pub register_relation : TableManager → String → Result (ℕ × TableManager)
unfolding register
register_relation = register false

-- `unregisterTable`: the assertion on `tableId` is empty, so that the last table goes whatever the
-- identifier is. With no table, the unsigned `numTables` would wrap round.
unfoldable pub unregister_table : TableManager → ℕ → Result TableManager
unregister_table m id = elim m.tables [
  | [] ↦ fault
  | t ∷ ts ↦ ok (record { tables = init (t ∷ ts) })
]

abbrev pub with_attr : Table → String → Kind → ℕ → Table
with_attr t name type len = record t {
  attrs = t.attrs ++ record { attr_name = name; attr_type = type; attr_len = len } ∷ [];
}

-- `addTableAttribute`
unfoldable pub add_table_attribute : TableManager → ℕ → String → Kind → ℕ → Result TableManager
add_table_attribute m id name type len = do
  table ← or_fault (get_elem? m.tables id)
  return_if (length table.attrs == max_attrs) fail
  return_if (is_found (index_of attr_name_of name table.attrs)) duplicate_attr_err
  ok (record { tables = set m.tables id (with_attr table name type len) })

-- `getTableId`: `none` is the result `false`.
unfoldable pub get_table_id : TableManager → String → Option ℕ
get_table_id m name = index_of name_of name m.tables

unfoldable pub get_num_attrs : TableManager → ℕ → Result ℕ
get_num_attrs m id = do table ← or_fault (get_elem? m.tables id); ok (length table.attrs)

-- `getAttrId`
unfoldable pub get_attr_id : TableManager → ℕ → String → Result (Option ℕ)
get_attr_id m id name = do
  table ← or_fault (get_elem? m.tables id)
  ok (index_of attr_name_of name table.attrs)

get_attr : TableManager → ℕ → ℕ → Result Attribute
get_attr m id attr_id = do
  table ← or_fault (get_elem? m.tables id)
  or_fault (get_elem? table.attrs attr_id)

unfoldable pub get_attr_type : TableManager → ℕ → ℕ → Result Kind
unfolding get_attr
get_attr_type m id attr_id = do attr ← get_attr m id attr_id; ok attr.attr_type

unfoldable pub get_attr_len : TableManager → ℕ → ℕ → Result ℕ
unfolding get_attr
get_attr_len m id attr_id = do attr ← get_attr m id attr_id; ok attr.attr_len

unfoldable pub is_stream : TableManager → ℕ → Result Bool
is_stream m id = do table ← or_fault (get_elem? m.tables id); ok table.is_stream

unfoldable pub get_table_name : TableManager → ℕ → Result String
get_table_name m id = do table ← or_fault (get_elem? m.tables id); ok table.table_name

-- The calls that change the registry.
pub data Command : Type 0 where
  stream : String → Command
  relation : String → Command
  unregister : ℕ → Command
  attribute : ℕ → String → Kind → ℕ → Command

abbrev second : ℕ × TableManager → Result TableManager
second r = ok r.1

abbrev pub apply : TableManager → Command → Result TableManager
apply m (stream name) = register_stream m name >>= second
apply m (relation name) = register_relation m name >>= second
apply m (unregister id) = unregister_table m id
apply m (attribute id name type len) = add_table_attribute m id name type len

-- A call that returns an error code leaves the registry as it was.
abbrev pub settle : TableManager → Result TableManager → Result TableManager
settle m (ok m') = ok m'
settle m (err e) = ok m
settle m fault = fault

pub run : TableManager → List Command → Result TableManager
run m [] = ok m
run m (c ∷ cs) = settle m (apply m c) >>= λ m'. run m' cs

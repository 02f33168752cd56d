-- ===== src/Semantic/Scope.antt =====
-- AQSIOSCoordinator/src/querygen/sem_interp.cc, the symbol table and the resolution of names.
pub mod Resolve
pub mod Symbols
use p.Common.{
  ℕ, suc, Bool, true, false, Option, none, some, List, [], ◌∷◌, ◌++◌, String, ◌==◌, Result, ok, err,
  fail, unknown_table_err, unknown_var_err, unknown_attr_err, ambiguous_attr_err,
  ambiguous_table_err, ◌>>=◌, ◌>>◌, return_if, or_err, or_fault, length, get_elem?, map,
}
use p.Common.Index.{index_of}
use p.Metadata.Types.{max_tables}
use p.Metadata.Tables.{TableManager, get_table_id, get_attr_id}
use p.Parser.Nodes.{AttrRef, RelVar}
use p.Semantic.Query.{Attr}

pub record Entry : Type 0 where
  pub var_name : String
  pub table_id : ℕ

abbrev pub var_name_of : Entry → String
var_name_of e = e.var_name

-- `MAX_SYMBOLS`
abbrev pub max_symbols : ℕ
max_symbols = max_tables

abbrev is_found : Option ℕ → Bool
is_found none = false
is_found (some i) = true

-- `addSymbolTableEntry`
pub add_symbol_table_entry : TableManager → List Entry → String → String → Result (List Entry)
add_symbol_table_entry m symbols table_name var_name = do
  id ← or_err (get_table_id m table_name) unknown_table_err
  return_if (is_found (index_of var_name_of var_name symbols)) ambiguous_table_err
  return_if (length symbols == max_symbols) fail
  ok (symbols ++ record { var_name = var_name; table_id = id } ∷ [])

-- The variable name of a table in the FROM clause: its own name if none is given.
abbrev pub variable : RelVar → String
variable r = elim r.var_name [ none ↦ r.rel_name | some v ↦ v ]

-- The loop of `getSFWReferencedTables`
pub add_symbols : TableManager → List Entry → List RelVar → Result (List Entry)
add_symbols m symbols [] = ok symbols
add_symbols m symbols (r ∷ rs) = do
  symbols' ← add_symbol_table_entry m symbols r.rel_name (variable r)
  add_symbols m symbols' rs

-- `query.refTables`
abbrev pub tables_of : List Entry → List ℕ
tables_of = map λ e. e.table_id

-- `interpretVarName`
unfoldable pub interpret_var_name : List Entry → String → Result ℕ
interpret_var_name symbols name = or_err (index_of var_name_of name symbols) unknown_var_err

-- The loop of `interpretAttr` over all variables, from variable `v` on; `found` is what the
-- variables `varId` and `attrId` hold, once `bFound` is set.
pub find_attr : TableManager → String → ℕ → List Entry → Option Attr → Result Attr
find_attr m name v [] found = or_err found unknown_attr_err
find_attr m name v (e ∷ es) found = do
  hit ← get_attr_id m e.table_id name
  elim hit [
    | none ↦ find_attr m name (suc v) es found
    | some a ↦ elim found [
      | some _ ↦ err ambiguous_attr_err
      | none ↦ find_attr m name (suc v) es (some (record { var_id = v; attr_id = a }))
    ]
  ]

-- `interpretAttr`
pub interpret_attr : TableManager → List Entry → AttrRef → Result Attr
interpret_attr m symbols a = elim a.rel_var_name [
  | some name ↦ do
    v ← interpret_var_name symbols name
    e ← or_fault (get_elem? symbols v)
    hit ← get_attr_id m e.table_id a.attr_name
    id ← or_err hit unknown_attr_err
    ok (record { var_id = v; attr_id = id })
  | none ↦ find_attr m a.attr_name 0 symbols none
]

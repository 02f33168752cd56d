-- ===== src/Server/Tables.antt =====
-- AQSIOSCoordinator/src/server/server_impl.cc: a table is registered, with its attributes, or not at
-- all.
pub mod Rollback
pub mod Kept
pub mod Taken
use p.Common.{parse_err, ℕ, Bool, true, false, List, [], ◌∷◌, ok, err, fault}
use p.Metadata.Types.{Kind}
use p.Metadata.Tables.{
  TableManager, register_stream, register_relation, unregister_table, add_table_attribute,
}
use p.Parser.Nodes.{AttrSpec, TableSpec, Tree}
use p.Server.Reply.{Call, pure, refuse, refused, done, crash, update, ◌>>=◌, ◌>>◌}

-- `INT_SIZE`, `FLOAT_SIZE` and `BYTE_SIZE`, and the length of a string of fixed length
abbrev pub attr_len : AttrSpec → ℕ
attr_len a = elim a.attr_type [ Kind.int ↦ 4 | Kind.float ↦ 4 | Kind.byte ↦ 1 | Kind.char ↦ a.len ]

-- The loop over the attributes. One that is refused takes the table with it.
unfoldable pub add_attributes : ℕ → List AttrSpec → Call TableManager (Unit {0})
add_attributes id [] m = done tt m
add_attributes id (a ∷ attrs) m =
    elim (add_table_attribute m id a.attr_name a.attr_type (attr_len a)) [
      | ok m' ↦ add_attributes id attrs m'
      | err e ↦ elim (unregister_table m id) [
        | ok m' ↦ refused e m'
        | err e' ↦ refused e m
        | fault ↦ crash
      ]
      | fault ↦ crash
    ]

-- `registerRelation`, with the identifier
unfoldable pub enter_relation : TableSpec → Call TableManager ℕ
enter_relation spec = update (λ m. register_relation m spec.name) >>= λ id.
    add_attributes id spec.attr_list >> pure id

-- `registerStream`, with the identifier
unfoldable pub enter_stream : TableSpec → Call TableManager ℕ
enter_stream spec =
    update (λ m. register_stream m spec.name) >>= λ id. add_attributes id spec.attr_list >> pure id

-- The table of a parse tree, which must be the specification of one.
abbrev pub enter_table : Tree → Call TableManager ℕ
enter_table (Tree.rel_spec spec) = enter_relation spec
enter_table (Tree.str_spec spec) = enter_stream spec
enter_table (Tree.cont_query q) = refuse parse_err

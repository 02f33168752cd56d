-- ===== src/Metadata/Tables/Tests.antt =====
-- The registry of tables on a small catalogue: a stream of readings and a relation of rooms.
use p.Common.{
  ℕ, ◌≡◌, ◌↔◌, refl, List, [], ◌∷◌, String, duplicate_table_err, duplicate_attr_err, true, false,
  ◌<◌, ◌≢◌, if◌then◌else◌, str_eq, ok, err, arith, length, get_elem?, some,
}
use p.Metadata.Types.{Kind}
use p.Metadata.Tables.{
  TableManager, no_tables, register, register_stream, register_relation, add_table_attribute,
  get_table_id, get_table_name, get_num_attrs, run, Command, stream, relation, attribute, is_stream,
  get_attr_id, get_attr_type, get_attr_len,
}
use p.Examples.{room, readings, rooms, catalogue}
use p.Metadata.Tables.Invariant.{IsValid, run-IsValid}
use p.Metadata.Tables.Registration.{register_cases, unregister_table-register}
use p.Metadata.Tables.{unregister_table}
use p.Common.{fail, ◌⊎◌, none}
use p.Metadata.Types.{max_tables}
use p.Metadata.Tables.Lookup.{
  get_table_id-get_table_name, register_lookup, add_table_attribute_lookup,
}

abbrev alarms : TableManager
alarms = record {
  tables = readings ∷ rooms ∷ record { table_name = "Alarms"; is_stream = true; attrs = [] } ∷ [];
}

abbrev sized : TableManager
sized = record {
  tables =
      readings
      ∷ record rooms {
        attrs = room ∷ record { attr_name = "size"; attr_type = Kind.byte; attr_len = 1 } ∷ [];
      }
      ∷ [];
}

-- The third call returns an error code, and so does the one that repeats an attribute.
abbrev commands : List Command
commands =
    stream "Readings"
    ∷ attribute 0 "room" Kind.int 4
    ∷ stream "Readings"
    ∷ attribute 0 "heat" Kind.float 4
    ∷ attribute 0 "heat" Kind.int 4
    ∷ relation "Rooms"
    ∷ attribute 1 "room" Kind.int 4
    ∷ []

empty-IsValid : IsValid no_tables
empty-IsValid = record { few_tables = omega arith; tables_distinct = tt; each_table = tt }

run-commands : run no_tables commands ≡ ok catalogue
unfolding run register register_stream register_relation add_table_attribute
run-commands = refl

run-IsValid_example : IsValid catalogue
run-IsValid_example = run-IsValid no_tables commands catalogue empty-IsValid run-commands

catalogue-IsValid : IsValid catalogue
catalogue-IsValid = run-IsValid no_tables commands catalogue empty-IsValid run-commands

get_table_id-get_table_name_example :
    (get_table_name catalogue 1 ≡ ok "Rooms") ↔ (get_table_id catalogue "Rooms" ≡ some 1)
get_table_id-get_table_name_example =
    get_table_id-get_table_name catalogue 1 "Rooms" catalogue-IsValid

register-alarms : register true catalogue "Alarms" ≡ ok (2, alarms)
unfolding register
register-alarms = refl

register_lookup_example :
    (2 ≡ length catalogue.tables)
    × (is_stream alarms 2 ≡ ok true)
    × (get_num_attrs alarms 2 ≡ ok 0)
    × (get_table_name alarms 2 ≡ ok "Alarms")
    × ((s : String)
        → get_table_id alarms s ≡ (if str_eq "Alarms" s then some 2 else get_table_id catalogue s))
    × ((j : ℕ) → j < 2 → get_elem? alarms.tables j ≡ get_elem? catalogue.tables j)
register_lookup_example = register_lookup true catalogue "Alarms" 2 alarms register-alarms

sized_add : add_table_attribute catalogue 1 "size" Kind.byte 1 ≡ ok sized
unfolding add_table_attribute
sized_add = refl

rooms_size : get_num_attrs catalogue 1 ≡ ok 1
unfolding get_num_attrs
rooms_size = refl

add_table_attribute_lookup_example :
    (get_num_attrs sized 1 ≡ ok 2)
    × (get_attr_id sized 1 "size" ≡ ok (some 1))
    × (get_attr_type sized 1 1 ≡ ok Kind.byte)
    × (get_attr_len sized 1 1 ≡ ok 1)
    × ((s : String) → s ≢ "size" → get_attr_id sized 1 s ≡ get_attr_id catalogue 1 s)
    × ((j : ℕ) → j ≢ 1 → get_elem? sized.tables j ≡ get_elem? catalogue.tables j)
add_table_attribute_lookup_example =
    add_table_attribute_lookup catalogue 1 "size" Kind.byte 1 1 sized sized_add rooms_size

-- A name that is taken, an attribute that is repeated and a call on no table.
taken : register false catalogue "Readings" ≡ err duplicate_table_err
unfolding register
taken = refl

repeated : add_table_attribute catalogue 0 "heat" Kind.int 4 ≡ err duplicate_attr_err
unfolding add_table_attribute
repeated = refl

register_cases_example :
    (register true catalogue "Rooms" ≡ err fail) × (2 ≡ max_tables)
    ⊎ (2 ≢ max_tables)
      × ((register true catalogue "Rooms" ≡ err duplicate_table_err)
            × (get_table_id catalogue "Rooms" ≢ none)
          ⊎ ((m' : TableManager) × (register true catalogue "Rooms" ≡ ok (2, m')))
            × (get_table_id catalogue "Rooms" ≡ none))
register_cases_example = register_cases true catalogue "Rooms"

-- Whatever identifier is given, the table that was registered last goes.
unregister_table-register_example : unregister_table alarms 0 ≡ ok catalogue
unregister_table-register_example =
    unregister_table-register true catalogue "Alarms" 2 0 alarms register-alarms

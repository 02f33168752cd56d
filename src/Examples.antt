-- ===== src/Examples.antt =====
-- Data for the tests: a catalogue of a stream of readings and a relation of rooms, and the parse
-- tree of a query over both.
use p.Common.{true, false, none, some, List, [], ◌∷◌}
use p.Metadata.Types.{Kind, CompOp, AggrFn}
use p.Metadata.Tables.{Attribute, Table, TableManager}
use p.Parser.Nodes.{AttrRef, Node, Condn, TimeUnit, Window, RelVar, SfwBlock}
use p.Semantic.Query.{Query, QueryType, R2SOp, BinaryOp}
use p.Semantic.Scope.{Entry}

abbrev pub room : Attribute
room = record { attr_name = "room"; attr_type = Kind.int; attr_len = 4 }

abbrev pub heat : Attribute
heat = record { attr_name = "heat"; attr_type = Kind.float; attr_len = 4 }

abbrev pub readings : Table
readings = record { table_name = "Readings"; is_stream = true; attrs = room ∷ heat ∷ [] }

abbrev pub rooms : Table
rooms = record { table_name = "Rooms"; is_stream = false; attrs = room ∷ [] }

abbrev pub catalogue : TableManager
catalogue = record { tables = readings ∷ rooms ∷ [] }

-- The names of the FROM clause below.
abbrev pub symbols : List Entry
symbols = record { var_name = "R"; table_id = 0 } ∷ record { var_name = "Rooms"; table_id = 1 } ∷ []

abbrev pub heat_ref : AttrRef
heat_ref = record { rel_var_name = none; attr_name = "heat" }

abbrev pub room_of_r : AttrRef
room_of_r = record { rel_var_name = some "R"; attr_name = "room" }

abbrev pub room_of_rooms : AttrRef
room_of_rooms = record { rel_var_name = some "Rooms"; attr_name = "room" }

-- `R.room = Rooms.room`
abbrev pub same_room : Condn
same_room = record {
  op = CompOp.eq;
  left_expr = Node.attr_ref room_of_r;
  right_expr = Node.attr_ref room_of_rooms;
}

-- `[RANGE 2 MINUTES]`
abbrev pub two_minutes : Window
two_minutes = Window.time_win (record { unit = TimeUnit.minute; len = 2 })

-- `FROM Readings [RANGE 2 MINUTES] AS R, Rooms`
abbrev pub from : List RelVar
from =
    record { rel_name = "Readings"; var_name = some "R"; window_spec = some two_minutes }
    ∷ record { rel_name = "Rooms"; var_name = none; window_spec = none }
    ∷ []

-- `SELECT R.room, MAX (heat) FROM ... WHERE R.room = Rooms.room GROUP BY R.room`
abbrev pub block : SfwBlock
block = record {
  select_clause = record {
    b_distinct = false;
    proj_term_list = Node.attr_ref room_of_r ∷ Node.aggr_expr AggrFn.max (some heat_ref) ∷ [];
  };
  rel_list = from;
  condition_list = same_room ∷ [];
  group_list = room_of_r ∷ [];
}

-- The query object of the caller, before it is filled in.
abbrev pub blank : Query
blank = record {
  kind = QueryType.sfw_query;
  ref_tables = [];
  from_clause_tables = [];
  win_spec = [];
  preds = [];
  proj_exprs = [];
  b_distinct = false;
  gby_attrs = [];
  b_rel_to_str = false;
  r2s_op = R2SOp.istream;
  bin_op = BinaryOp.union;
  left_table = 0;
  right_table = 0;
}

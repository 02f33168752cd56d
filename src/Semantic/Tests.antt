-- ===== src/Semantic/Tests.antt =====
-- The interpretation of a query over readings and rooms.
use p.Common.{◌≡◌, ◌↔◌, refl, List, [], ◌++◌, ok, true, none, some, arith, Safely, range_from}
use p.Metadata.Types.{Kind, AggrFn, ArithOp}
use p.Parser.Nodes.{Node}
use p.Semantic.Query.{WindowSpec}
use p.Semantic.Scope.{Entry, add_symbols, interpret_attr, tables_of}
use p.Semantic.Scope.Resolve.{
  IsScope, Means, holders, only, interpret_attr-unqualified, interpret_attr-Means,
}
use p.Semantic.Scope.Symbols.{Declares, add_symbols-IsScope}
use p.Semantic.Exprs.{interpret_expr, interpret_condn}
use p.Semantic.Exprs.Typing.{
  HasFirst, IsTyped, IsTypedCondn, interpret_expr-IsTyped, interpret_condn-IsTyped,
}
use p.Semantic.Windows.{interpret_win, from_clause}
use p.Semantic.Windows.From.{IsWindow, Windowed, interpret_win-IsWindow, from_clause-Windowed}
use p.Semantic.Clauses.{star, schema_compatible, interpret_sfw}
use p.Semantic.Clauses.Star.{all_exprs, filled, star_lem}
use p.Semantic.Clauses.Compatible.{schema, schema_compatible_iff}
use p.Semantic.Clauses.Binary.{
  Operands, IsBinaryQuery, interpret_bin_op-IsBinaryQuery, interpret_bin_op_total,
}
use p.Common.{String, false, true, eq_iff, ◌≢◌, ok, ◌≡◌, refl, none, [], ◌∷◌}
use p.Semantic.Query.{Query}
use p.Semantic.Clauses.{interpret_bin_op}
use p.Parser.Nodes.{BinOp}
use p.Metadata.Tables.{TableManager}
use p.Metadata.Tables.Invariant.{IsTable, IsValid}
use p.Examples.{room, heat, readings, rooms, blank}
use p.Semantic.Clauses.Whole.{IsParsedBlock, IsSfwQuery, HasAttrs, interpret_sfw-IsSfwQuery}
use p.Examples.{
  room, readings, rooms, catalogue, symbols, heat_ref, room_of_r, same_room, two_minutes, from,
  block, blank,
}

symbols-IsScope : IsScope catalogue symbols
symbols-IsScope = record {
  registered = (omega arith, (omega arith, tt));
  distinct = (((λ e. cc), tt), (tt, tt));
  few = omega arith;
}

no_symbols-IsScope : IsScope catalogue []
no_symbols-IsScope = record { registered = tt; distinct = tt; few = omega arith }

first : HasFirst catalogue symbols
first = (
  Kind.int,
  record {
    entry = record { var_name = "R"; table_id = 0 };
    table = readings;
    attribute = room;
    entry_at = refl;
    table_at = refl;
    attribute_at = refl;
    typed = refl;
  },
)

-- `heat` is an attribute of one table, `room` of both.
interpret_attr-unqualified_example :
    interpret_attr catalogue symbols heat_ref ≡ only (holders catalogue "heat" 0 symbols)
interpret_attr-unqualified_example =
    interpret_attr-unqualified catalogue symbols "heat" symbols-IsScope

interpret_attr-Means_example :
    Safely (Means catalogue symbols room_of_r) (interpret_attr catalogue symbols room_of_r)
interpret_attr-Means_example = interpret_attr-Means catalogue symbols room_of_r symbols-IsScope

add_symbols-IsScope_example :
    Safely
      (λ s. IsScope catalogue s × ((es : List Entry) × (s ≡ [] ++ es) × Declares catalogue from es))
      (add_symbols catalogue [] from)
add_symbols-IsScope_example = add_symbols-IsScope catalogue [] from no_symbols-IsScope

-- `heat + MAX (heat)`
abbrev sum_of_heat : Node
sum_of_heat =
    Node.arith_expr ArithOp.add (Node.attr_ref heat_ref) (Node.aggr_expr AggrFn.max (some heat_ref))

interpret_expr-IsTyped_example :
    Safely
      (λ r. IsTyped catalogue symbols r.0 × (r.1 ≡ 3))
      (interpret_expr catalogue symbols sum_of_heat 0)
interpret_expr-IsTyped_example =
    interpret_expr-IsTyped catalogue symbols symbols-IsScope sum_of_heat 0 first (tt, tt)
      (omega arith)

interpret_condn-IsTyped_example :
    Safely
      (λ r. IsTypedCondn catalogue symbols r.0 × (r.1 ≡ 2))
      (interpret_condn catalogue symbols same_room 0)
interpret_condn-IsTyped_example =
    interpret_condn-IsTyped catalogue symbols symbols-IsScope same_room 0 first tt tt (omega arith)

interpret_win-IsWindow_example :
    Safely (IsWindow catalogue symbols) (interpret_win catalogue symbols (some two_minutes))
interpret_win-IsWindow_example =
    interpret_win-IsWindow catalogue symbols symbols-IsScope (some two_minutes) (omega arith)

from_clause-Windowed_example :
    Safely
      (λ x. (x.0 ≡ range_from 0 2) × Windowed catalogue symbols 0 from x.1)
      (from_clause catalogue symbols from [] [] WindowSpec.now)
from_clause-Windowed_example =
    from_clause-Windowed catalogue symbols from WindowSpec.now symbols-IsScope refl
      (omega arith, (tt, tt))

star_lem_example :
    star catalogue (tables_of symbols) (range_from 0 2) [] 0
    ≡ filled [] (all_exprs catalogue 0 symbols) 0
star_lem_example = star_lem catalogue symbols 0 symbols-IsScope (omega arith)

schema_compatible_iff_example :
    (schema_compatible catalogue 0 1 ≡ ok true) ↔ (schema readings ≡ schema rooms)
schema_compatible_iff_example = schema_compatible_iff catalogue 0 1 readings rooms refl refl

catalogue-HasAttrs : HasAttrs catalogue
catalogue-HasAttrs = (omega arith, (omega arith, tt))

block-IsParsedBlock : IsParsedBlock block
block-IsParsedBlock = record {
  some_table = omega arith;
  windows_fit = (omega arith, (tt, tt));
  conditions = ((tt, tt), tt);
  terms = (tt, (tt, tt));
  room = omega arith;
}

interpret_sfw-IsSfwQuery_example :
    Safely (IsSfwQuery catalogue block) (interpret_sfw catalogue WindowSpec.now block none blank)
interpret_sfw-IsSfwQuery_example =
    interpret_sfw-IsSfwQuery catalogue WindowSpec.now block none blank catalogue-HasAttrs
      block-IsParsedBlock

-- `Hot UNION Cold`, over two streams of readings.
abbrev two_streams : TableManager
two_streams = record {
  tables =
      record readings { table_name = "Hot" } ∷ rooms ∷ record readings { table_name = "Cold" } ∷ [];
}

abbrev hot_and_cold : BinOp
hot_and_cold = BinOp.union_node "Hot" "Cold"

abbrev hot_cold_operands : Operands two_streams hot_and_cold
hot_cold_operands = record {
  left = 0;
  right = 2;
  left_table = record readings { table_name = "Hot" };
  right_table = record readings { table_name = "Cold" };
  left_at = refl;
  right_at = refl;
  named = (refl, refl);
}

heat-room : heat.attr_name ≢ room.attr_name
heat-room e = let k : false ≡ true = (eq_iff "heat" "room").1 e in cc

readings-IsTable : (name : String) → IsTable (record readings { table_name = name })
readings-IsTable name = record {
  few_attrs = omega arith;
  attrs_distinct = ((heat-room, tt), (tt, tt));
}

two_streams-IsValid : IsValid two_streams
two_streams-IsValid = record {
  few_tables = omega arith;
  tables_distinct = (
    (
      (λ e. let k : false ≡ true = (eq_iff "Rooms" "Hot").1 e in cc),
      ((λ e. let k : false ≡ true = (eq_iff "Cold" "Hot").1 e in cc), tt),
    ),
    (((λ e. let k : false ≡ true = (eq_iff "Cold" "Rooms").1 e in cc), tt), (tt, tt)),
  );
  each_table = (
    readings-IsTable "Hot",
    (record { few_attrs = omega arith; attrs_distinct = (tt, tt) }, (readings-IsTable "Cold", tt)),
  );
}

interpret_bin_op-IsBinaryQuery_example :
    Safely
      (IsBinaryQuery two_streams hot_and_cold)
      (interpret_bin_op two_streams hot_and_cold none blank)
interpret_bin_op-IsBinaryQuery_example =
    interpret_bin_op-IsBinaryQuery two_streams hot_and_cold none blank

interpret_bin_op_total_example :
    (q' : Query) × (interpret_bin_op two_streams hot_and_cold none blank ≡ ok q')
    × (q'.ref_tables ≡ 0 ∷ 2 ∷ [])
interpret_bin_op_total_example =
    interpret_bin_op_total two_streams hot_and_cold none blank hot_cold_operands two_streams-IsValid
      refl

-- ===== src/Logical/Tests.antt =====
-- A SELECT clause of twelve terms over one source, and the plan of a query over two tables.
use p.Common.{
  ℕ, ◌≡◌, refl, List, [], ◌∷◌, Result, ok, fault, arith, none, some, true, false, length, eq_iff,
  ◌≢◌,
}
use p.Metadata.Types.{Kind, AggrFn, CompOp}
use p.Parser.Nodes.{Value}
use p.Semantic.Query as Semantic
use p.Logical.Plan.{Attr, Operator, OperatorKind}
use p.Logical.Pool.{Pool}
use p.Metadata.Tables.{get_num_attrs, is_stream}
use p.Metadata.Tables.Invariant.{IsValid}
use p.Semantic.Query.{Query, WindowSpec}
use p.Examples.{room, heat, readings, rooms, catalogue, blank}
use p.Logical.Pool.{Ptr, empty_pool}
use p.Logical.Pool.Invariant.{Points, IsPool}
use p.Logical.Generate.Bounds.{gen_plan-IsPool}
use p.Logical.Generate.{
  gen_plan, gen_sfw_plan, add_groups, add_aggrs, apply_aggr, add_projs, do_projs, apply_distinct,
  apply_r2s_ops,
}
use p.Metadata.Types.{ArithOp}
use p.Examples.{symbols}
use p.Semantic.Scope.{tables_of}
use p.Semantic.Exprs.Typing.{IsTyped}
use p.Logical.Plan.{Expr, type_of}
use p.Logical.Naive.Translate.{translate, taken, transform_expr-translate, transform_expr-type_of}
use p.Logical.Naive.{
  transform_attr, transform_aggr_attr, transform_expr, transform_bexpr, get_source, apply_window,
  table_plan, cross_tables, join_tables, apply_preds, collect_aggrs, collect_all,
}
use p.Logical.Operators.{
  mk_stream_source, mk_reln_source, mk_over, add_project_expr, add_group_attr, add_aggr, mk_cross,
  cross_add_input,
}
use p.Logical.Generate.Project.{do_projs-fault}

abbrev source : Operator
source = record {
  kind = OperatorKind.stream_source 0 0;
  out_attrs = Attr.named 0 0 0 ∷ [];
  b_stream = true;
  output = none;
  inputs = [];
}

abbrev pool : Pool
pool = record { ops = source ∷ []; expr_ptr = 0 }

abbrev one : Semantic.Expr
one = Semantic.const_val (Value.int_val 1)

abbrev twelve_terms : List Semantic.Expr
twelve_terms = one ∷ one ∷ one ∷ one ∷ one ∷ one ∷ one ∷ one ∷ one ∷ one ∷ one ∷ one ∷ []

do_projs-fault_example : do_projs (0 ∷ []) twelve_terms (some 0) pool ≡ fault
do_projs-fault_example =
    do_projs-fault (0 ∷ []) twelve_terms pool 0 source refl (λ e. omega (arith, e)) (omega arith)

-- `SELECT R.room, MAX (heat) FROM Readings [NOW] AS R, Rooms WHERE R.room = Rooms.room GROUP BY R.room`
abbrev room_of : ℕ → Semantic.Expr
room_of v = Semantic.attr_ref Kind.int (record { var_id = v; attr_id = 0 })

abbrev query : Query
query = record blank {
  ref_tables = 0 ∷ 1 ∷ [];
  from_clause_tables = 0 ∷ 1 ∷ [];
  win_spec = WindowSpec.now ∷ WindowSpec.now ∷ [];
  preds = record { op = CompOp.eq; left = room_of 0; right = room_of 1 } ∷ [];
  proj_exprs =
      room_of 0
      ∷ Semantic.aggr_expr Kind.float AggrFn.max (record { var_id = 0; attr_id = 1 })
      ∷ [];
  gby_attrs = record { var_id = 0; attr_id = 0 } ∷ [];
  b_rel_to_str = true;
}

abbrev pub plan_of : Result (Ptr × Pool) → Ptr
plan_of (ok x) = x.0
plan_of r = none

abbrev pub pool_of : Result (Ptr × Pool) → Pool
pool_of (ok x) = x.1
pool_of r = empty_pool

abbrev generated : Result (Ptr × Pool)
generated = gen_plan catalogue query empty_pool

query_plan : plan_of generated ≡ some 7
unfolding gen_plan gen_sfw_plan add_groups add_aggrs apply_aggr add_projs do_projs apply_distinct
    apply_r2s_ops transform_attr transform_aggr_attr transform_expr transform_bexpr get_source
    apply_window table_plan cross_tables join_tables apply_preds collect_aggrs collect_all
    mk_stream_source mk_reln_source mk_over add_project_expr add_group_attr add_aggr mk_cross
    cross_add_input get_num_attrs is_stream
query_plan = refl

gen_plan-query : gen_plan catalogue query empty_pool ≡ ok (plan_of generated, pool_of generated)
unfolding gen_plan gen_sfw_plan add_groups add_aggrs apply_aggr add_projs do_projs apply_distinct
    apply_r2s_ops transform_attr transform_aggr_attr transform_expr transform_bexpr get_source
    apply_window table_plan cross_tables join_tables apply_preds collect_aggrs collect_all
    mk_stream_source mk_reln_source mk_over add_project_expr add_group_attr add_aggr mk_cross
    cross_add_input get_num_attrs is_stream
gen_plan-query = refl

heat-room : heat.attr_name ≢ room.attr_name
heat-room e = let k : false ≡ true = (eq_iff "heat" "room").1 e in cc

rooms-readings : rooms.table_name ≢ readings.table_name
rooms-readings e = let k : false ≡ true = (eq_iff "Rooms" "Readings").1 e in cc

pub catalogue-IsValid : IsValid catalogue
catalogue-IsValid = record {
  few_tables = omega arith;
  tables_distinct = ((rooms-readings, tt), (tt, tt));
  each_table = (
    record { few_attrs = omega arith; attrs_distinct = ((heat-room, tt), (tt, tt)) },
    (record { few_attrs = omega arith; attrs_distinct = (tt, tt) }, tt),
  );
}

gen_plan-IsPool_example :
    IsPool (pool_of generated) × Points (length (pool_of generated).ops) (plan_of generated)
gen_plan-IsPool_example =
    gen_plan-IsPool catalogue query empty_pool (pool_of generated) (plan_of generated)
      catalogue-IsValid gen_plan-query

-- `room + 1`, of the readings
abbrev next_room : Semantic.Expr
next_room = Semantic.comp_expr Kind.int ArithOp.add (room_of 0) one

transform_expr-translate_example :
    transform_expr (tables_of symbols) next_room empty_pool
    ≡ taken 3 empty_pool (translate (tables_of symbols) next_room)
transform_expr-translate_example =
    transform_expr-translate (tables_of symbols) next_room empty_pool (omega arith)

next_room-IsTyped : IsTyped catalogue symbols next_room
next_room-IsTyped = (
  record {
    entry = record { var_name = "R"; table_id = 0 };
    table = readings;
    attribute = room;
    entry_at = refl;
    table_at = refl;
    attribute_at = refl;
    typed = refl;
  },
  tt,
  refl,
  refl,
)

transform_expr-type_of_example :
    (x : Expr) × (transform_expr (tables_of symbols) next_room empty_pool
      ≡ ok (some x, record { ops = []; expr_ptr = 3 }))
    × (type_of x ≡ Kind.int)
transform_expr-type_of_example =
    transform_expr-type_of catalogue symbols next_room empty_pool next_room-IsTyped (omega arith)

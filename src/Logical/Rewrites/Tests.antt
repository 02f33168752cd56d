-- ===== src/Logical/Rewrites/Tests.antt =====
-- A query over a window and two relations, of which the plan is rewritten.
use p.Common.{ℕ, false, none, some, arith, ◌≡◌, ◌↔◌, refl, [], ◌∷◌, ok, true, length}
use p.Metadata.Types.{Kind, CompOp}
use p.Metadata.Tables.{get_num_attrs, is_stream}
use p.Semantic.Query as Semantic
use p.Semantic.Query.{Query, WindowSpec, R2SOp}
use p.Examples.{catalogue, blank}
use p.Logical.Plan.{OperatorKind}
use p.Logical.Pool.{Pool, empty_pool}
use p.Logical.Pool.Invariant.{IsPool}
use p.Logical.Tests.{plan_of, pool_of, catalogue-IsValid}
use p.Logical.Generate.{
  gen_plan, gen_sfw_plan, add_groups, add_aggrs, apply_aggr, add_projs, do_projs, apply_distinct,
  apply_r2s_ops,
}
use p.Logical.Naive.{
  transform_attr, transform_aggr_attr, transform_expr, transform_bexpr, get_source, apply_window,
  table_plan, cross_tables, join_tables, apply_preds, collect_aggrs, collect_all,
}
use p.Logical.Operators.{
  mk_stream_source, mk_reln_source, mk_over, add_project_expr, mk_cross, cross_add_input,
}
use p.Logical.Joins.{mk_stream_cross, stream_cross_add_input}
use p.Logical.Rewrites.{rewrites, gen_log_plan}
use p.Logical.Rewrites.Bounds.{gen_log_plan-IsPool}
use p.Logical.Rewrites.Selects.Bounds.{IsRoot}
use p.Logical.Rewrites.Walk.{set_input, walk, fuel, is_plain, is_cross}
use p.Logical.Rewrites.Walk.Ends.{Leads, walk_iff}
use p.Logical.Rewrites.Schema.{
  append_schema, append_schemas, update_schema, all_streams, update_flags,
}
use p.Logical.Rewrites.Streams.{
  make_streams, remove_now, rstream_now, split_now, add_inputs, replace_cross, stream_cross,
}
use p.Logical.Rewrites.Projects.{unlink, remove_project}
use p.Logical.Rewrites.Crosses.{
  cross_of, cross_chain, stream_cross_of, stream_cross_chain, replace, make_cross_binary,
  make_stream_cross_binary,
}
use p.Logical.Rewrites.Selects.{
  find_child, can_be_pushed, descend, insert_select, push_select, drop_select, push_selects,
  push_all_selects,
}

abbrev room_of : ℕ → Semantic.Expr
room_of v = Semantic.attr_ref Kind.int (record { var_id = v; attr_id = 0 })

-- `RSTREAM (SELECT R.room FROM Readings [NOW] AS R, Rooms AS S, Rooms AS T WHERE S.room = T.room AND
-- R.room = S.room)`
abbrev query : Query
query = record blank {
  ref_tables = 0 ∷ 1 ∷ 1 ∷ [];
  from_clause_tables = 0 ∷ 1 ∷ 2 ∷ [];
  win_spec = WindowSpec.now ∷ WindowSpec.unbounded ∷ WindowSpec.unbounded ∷ [];
  preds =
      record { op = CompOp.eq; left = room_of 1; right = room_of 2 }
      ∷ record { op = CompOp.eq; left = room_of 0; right = room_of 1 }
      ∷ [];
  proj_exprs = room_of 0 ∷ [];
  b_rel_to_str = true;
  r2s_op = R2SOp.rstream;
}

abbrev plan : Pool
plan = pool_of (gen_log_plan catalogue query empty_pool)

-- The stream cross product of three inputs is a tree of two, and the selection on its first two
-- inputs stands between them.
rewritten :
    gen_log_plan catalogue query empty_pool
    ≡ ok (plan_of (gen_log_plan catalogue query empty_pool), plan)
unfolding gen_log_plan gen_plan gen_sfw_plan add_groups add_aggrs apply_aggr add_projs do_projs
    apply_distinct apply_r2s_ops transform_attr transform_aggr_attr transform_expr transform_bexpr
    get_source apply_window table_plan cross_tables join_tables apply_preds collect_aggrs
    collect_all mk_stream_source mk_reln_source mk_over add_project_expr mk_cross cross_add_input
    get_num_attrs is_stream mk_stream_cross stream_cross_add_input rewrites set_input walk
    append_schema append_schemas update_schema all_streams update_flags make_streams remove_now
    rstream_now split_now add_inputs replace_cross stream_cross unlink remove_project cross_of
    cross_chain stream_cross_of stream_cross_chain replace make_cross_binary
    make_stream_cross_binary find_child can_be_pushed descend insert_select push_select drop_select
    push_selects push_all_selects
rewritten = refl

gen_log_plan-IsPool_example :
    IsPool plan × IsRoot (length plan.ops) (plan_of (gen_log_plan catalogue query empty_pool))
gen_log_plan-IsPool_example =
    gen_log_plan-IsPool catalogue query empty_pool plan
      (plan_of (gen_log_plan catalogue query empty_pool)) catalogue-IsValid rewritten

-- A distinct operator over a source, and the ranks of both.
abbrev chain : Pool
chain = record {
  ops =
      record {
        kind = OperatorKind.reln_source 0 1;
        out_attrs = [];
        b_stream = false;
        output = some 1;
        inputs = [];
      }
      ∷ record {
        kind = OperatorKind.distinct;
        out_attrs = [];
        b_stream = false;
        output = none;
        inputs = 0 ∷ [];
      }
      ∷ [];
  expr_ptr = 0;
}

chain-IsPool : IsPool chain
chain-IsPool = record {
  few_ops = omega arith;
  few_exprs = omega arith;
  each = (
    record {
      few_attrs = omega arith;
      fits = tt;
      few_inputs = omega arith;
      inputs_in = tt;
      output_in = omega arith;
    },
    (
      record {
        few_attrs = omega arith;
        fits = tt;
        few_inputs = omega arith;
        inputs_in = (omega arith, tt);
        output_in = tt;
      },
      tt,
    ),
  );
}

walk_iff_example :
    (walk is_cross is_plain fuel 1 chain ≡ ok (some 0, chain))
    ↔ (chain ≡ chain) × ((h : ℕ) × Leads is_cross is_plain chain h 1 (some 0))
walk_iff_example = walk_iff is_cross is_plain chain 1 (some 0) chain chain-IsPool

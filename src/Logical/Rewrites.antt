-- ===== src/Logical/Rewrites.antt =====
-- AQSIOSCoordinator/src/querygen/log_plan_gen.cc: the rewrites of a plan, and `genLogPlan`.
mod Tests
pub mod Walk
pub mod Schema
pub mod Streams
pub mod Projects
pub mod Crosses
pub mod Selects
pub mod Bounds
use p.Common.{ℕ, none, some}
use p.Metadata.Tables.{TableManager}
use p.Semantic.Query.{Query}
use p.Logical.Pool.{M, Ptr, faults, ◌>>=◌}
use p.Logical.Generate.{gen_plan}
use p.Logical.Rewrites.Streams.{rstream_now, stream_cross}
use p.Logical.Rewrites.Projects.{remove_project}
use p.Logical.Rewrites.Crosses.{make_cross_binary, make_stream_cross_binary}
use p.Logical.Rewrites.Selects.{push_all_selects}

-- Every rewrite follows its plan at once.
abbrev pub at_root : (ℕ → M Ptr) → Ptr → M Ptr
at_root f none = faults
at_root f (some plan) = f plan

-- The rewrites of `genLogPlan`, in order.
unfoldable pub rewrites : Ptr → M Ptr
rewrites plan = rstream_now plan >>= λ a. stream_cross a >>= λ b. at_root remove_project b >>= λ c.
    at_root make_cross_binary c >>= λ d.
    at_root make_stream_cross_binary d >>= λ e. at_root push_all_selects e

-- `LogPlanGen::genLogPlan`
unfoldable pub gen_log_plan : TableManager → Query → M Ptr
gen_log_plan m q = gen_plan m q >>= λ plan. rewrites plan

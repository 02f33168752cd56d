-- ===== src/Semantic/Windows.antt =====
-- AQSIOSCoordinator/src/querygen/sem_interp.cc, the windows and the FROM clause. `len` of a time
-- specification is an `int`: a product that does not fit is signed overflow, a `fault`.
pub mod From
pub mod Means
use p.Common.{
  ℕ, ◌*◌, Bool, true, false, Option, none, some, List, [], ◌∷◌, ◌++◌, ◌==◌, leb, ltb, Result, ok,
  err, fault, fail, window_over_rel_err, ◌>>=◌, ◌>>◌, return_if, or_fault, get_elem?, length,
  if◌then◌else◌,
}
use p.Metadata.Types.{max_tables}
use p.Metadata.Tables.{TableManager, is_stream}
use p.Parser.Nodes.{
  AttrRef, RelVar, TimeSpec, TimeUnit, no_time_unit, second, minute, hour, day, Window, row_win,
  time_win, now_win, unbounded_win, part_win,
}
use p.Semantic.Query.{Attr, WindowSpec, range, row, partition, now, unbounded, max_partn_attrs}
use p.Semantic.Scope.{Entry, interpret_attr, interpret_var_name, variable}

-- One more than the largest `int`.
abbrev pub int_limit : ℕ
int_limit = 2147483648

abbrev pub seconds_per : TimeUnit → ℕ
seconds_per no_time_unit = 1
seconds_per second = 1
seconds_per minute = 60
seconds_per hour = 60 * 60
seconds_per day = 60 * 60 * 24

-- `interpretRangeWin`
pub interpret_range_win : TimeSpec → Result WindowSpec
interpret_range_win t =
    let total = t.len * seconds_per t.unit in
    if ltb total int_limit then ok (range total) else fault

-- The loop of `interpretPartnWin`
pub partn_attrs : TableManager → List Entry → List AttrRef → List Attr → Result (List Attr)
partn_attrs m symbols [] done = ok done
partn_attrs m symbols (r ∷ rs) done = do
  a ← interpret_attr m symbols r
  return_if (leb max_partn_attrs (length done)) fail
  partn_attrs m symbols rs (done ++ a ∷ [])

-- `interpretWin`, with `interpretRowWin`, `interpretPartnWin`, `interpretNowWin` and
-- `interpretUnboundedWin`
pub interpret_win : TableManager → List Entry → Option Window → Result WindowSpec
interpret_win m symbols none = ok unbounded
interpret_win m symbols (some (row_win n)) = ok (row n)
interpret_win m symbols (some (time_win t)) = interpret_range_win t
interpret_win m symbols (some now_win) = ok now
interpret_win m symbols (some unbounded_win) = ok unbounded
interpret_win m symbols (some (part_win attrs n)) = do
  done ← partn_attrs m symbols attrs []
  ok (partition n done)

-- The window of a table: `sem_win` is what the variable `semWin` held before, which a relation
-- leaves as it is.
abbrev pub window_of :
    TableManager → List Entry → Bool → Option Window → WindowSpec → Result WindowSpec
window_of m symbols true syn_win sem_win = interpret_win m symbols syn_win
window_of m symbols false none sem_win = ok sem_win
window_of m symbols false (some w) sem_win = err window_over_rel_err

-- The loop of `interpretFromClause`: the variables and their windows.
pub from_clause :
    TableManager
    → List Entry
    → List RelVar
    → List ℕ
    → List WindowSpec
    → WindowSpec
    → Result (List ℕ × List WindowSpec)
from_clause m symbols [] vars wins sem_win = ok (vars, wins)
from_clause m symbols (r ∷ rs) vars wins sem_win = do
  v ← interpret_var_name symbols (variable r)
  e ← or_fault (get_elem? symbols v)
  flag ← is_stream m e.table_id
  win ← window_of m symbols flag r.window_spec sem_win
  return_if (length vars == max_tables) fail
  from_clause m symbols rs (vars ++ v ∷ []) (wins ++ win ∷ []) win

-- ===== src/Metadata/Queries.antt =====
-- AQSIOSCoordinator/src/metadata/query_mgr.cc and its header: the texts of the registered queries,
-- one behind the other in one buffer. `query_buffer` is the part of `queryBuffer` before `next`, so
-- that `next` is its end; `queries` holds the used part of the array of that name, as positions in
-- the buffer. A text is the list of its bytes, without the null byte behind them. The difference of
-- two pointers has 64 bits, so that no sum wraps round.
pub mod Log
use p.Common.{
  ℕ, zero, suc, ◌+◌, List, [], ◌∷◌, ◌++◌, Result, ok, fail, ◌>>=◌, ◌>>◌, return_if, length, leb,
}

-- `QRY_BUF_LEN`
abbrev pub qry_buf_len : ℕ
qry_buf_len = 40906

-- `MAX_QUERIES`
abbrev pub max_queries : ℕ
max_queries = 1000

pub record QueryManager : Type 0 where
  pub query_buffer : List ℕ
  pub queries : List ℕ

-- The constructor.
abbrev pub no_queries : QueryManager
no_queries = record { query_buffer = []; queries = [] }

-- `strncpy`: the bytes that it writes, which are as many as it is told to: null bytes behind a text
-- that is shorter, and none behind one that is not.
abbrev pub strncpy : ℕ → List ℕ → List ℕ
strncpy zero str = []
strncpy (suc n) [] = zero ∷ strncpy n []
strncpy (suc n) (c ∷ str) = c ∷ strncpy n str

-- `registerQuery`: the identifier and the new state. The sanity checks are assertions, which are
-- empty in the build.
pub register_query : QueryManager → List ℕ → ℕ → Result (ℕ × QueryManager)
register_query m query_str len = do
  return_if (leb qry_buf_len (length m.query_buffer + len)) fail
  return_if (leb max_queries (length m.queries)) fail
  ok (
    length m.queries,
    record {
      query_buffer = m.query_buffer ++ strncpy (suc len) query_str;
      queries = m.queries ++ length m.query_buffer ∷ [];
    },
  )

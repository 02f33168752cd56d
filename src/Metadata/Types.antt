-- ===== src/Metadata/Types.antt =====
-- AQSIOSCoordinator/include/common: the data types of the system, the operations of the query
-- language, the aggregation functions and the limits.
use p.Common.{ℕ, Bool, true, ◌≡◌, ◌==◌, arith}

-- `Type`
pub data Kind : Type 0 where
  int float byte char : Kind

pub data ArithOp : Type 0 where
  add sub mul div : ArithOp

pub data CompOp : Type 0 where
  lt le gt ge eq ne : CompOp

pub data AggrFn : Type 0 where
  count sum avg max min : AggrFn

-- `getOutputType`
unfoldable pub get_output_type : AggrFn → Kind → Kind
get_output_type AggrFn.avg t = Kind.float
get_output_type f t = t

-- The positions of the enumeration, by which `==` compares.
abbrev pub kind_code : Kind → ℕ
kind_code Kind.int = 0
kind_code Kind.float = 1
kind_code Kind.byte = 2
kind_code Kind.char = 3

abbrev pub same_kind : Kind → Kind → Bool
same_kind a b = kind_code a == kind_code b

pub same_kind→eq : (a b : Kind) → same_kind a b ≡ true → a ≡ b
same_kind→eq a b h = ground arith

abbrev pub fn_code : AggrFn → ℕ
fn_code AggrFn.count = 0
fn_code AggrFn.sum = 1
fn_code AggrFn.avg = 2
fn_code AggrFn.max = 3
fn_code AggrFn.min = 4

abbrev pub max_tables : ℕ
max_tables = 1000

abbrev pub max_attrs : ℕ
max_attrs = 10

abbrev pub max_queries : ℕ
max_queries = 1000

-- ===== src/Logical/Pool.antt =====
-- The state of the plan generator: the pool of operators (logop.cc) and the number of expressions
-- in use (logexpr.cc). An expression is written once, so that a pointer to it is its value.
pub mod Invariant
use p.Common.{
  ℕ, ◌+◌, Option, none, some, List, [], ◌∷◌, ◌++◌, ◌==◌, Result, ok, err, fault, Error, length,
  get_elem?, set, if◌then◌else◌,
}
use p.Metadata.Types.{Kind, ArithOp}
use p.Parser.Nodes.{Value}
use p.Logical.Plan.{Attr, Expr, Operator, const_val, attr_ref, comp_expr, type_of}

pub record Pool : Type 0 where
  pub ops : List Operator
  pub expr_ptr : ℕ

-- `MAXOPERATOR` and `MAXEXPR`
abbrev pub max_operator : ℕ
max_operator = 500

abbrev pub max_expr : ℕ
max_expr = 500

abbrev pub M : Type 0 → Type 0
M A = Pool → Result (A × Pool)

infixl 5 ◌>>=◌ ◌>>◌
abbrev pub ◌>>=◌ : {A B : Type 0} → M A → (A → M B) → M B
◌>>=◌ m f s = elim (m s) [ ok r ↦ f r.0 r.1 | err e ↦ err e | fault ↦ fault ]

abbrev pub ◌>>◌ : {B : Type 0} → M (Unit {0}) → M B → M B
m >> k = m >>= λ _. k

abbrev pub pure : {A : Type 0} → A → M A
pure a s = ok (a, s)

abbrev pub fails : {A : Type 0} → Error → M A
fails e s = err e

abbrev pub faults : {A : Type 0} → M A
faults s = fault

abbrev pub lift : {A : Type 0} → Result A → M A
lift (ok a) s = ok (a, s)
lift (err e) s = err e
lift fault s = fault

abbrev pub Ptr : Type 0
Ptr = Option ℕ

-- `reset_op_pool` and `reset_expr_pool`
abbrev pub empty_pool : Pool
empty_pool = record { ops = []; expr_ptr = 0 }

-- Following a pointer.
abbrev pub deref : Ptr → M Operator
deref none s = fault
deref (some i) s = elim (get_elem? s.ops i) [ none ↦ fault | some op ↦ ok (op, s) ]

-- Writing an operator through a pointer that has been followed.
abbrev pub store : Ptr → Operator → M (Unit {0})
store none op s = fault
store (some i) op s = ok (tt, record s { ops = set s.ops i op })

-- `p -> output = q;`
abbrev pub set_output : Ptr → Ptr → M (Unit {0})
set_output p q = deref p >>= λ op. store p (record op { output = q })

-- `newop`, with the writes that fill the new operator in: null if the pool is full.
abbrev pub new_op : M Operator → M Ptr
new_op build s =
    if length s.ops == max_operator
    then ok (none, s)
    else (build >>= λ op s'. ok (some (length s'.ops), record s' { ops = s'.ops ++ op ∷ [] })) s

-- `new_expr`, with the writes that fill the new expression in.
abbrev pub new_expr : Result Expr → M (Option Expr)
new_expr build s =
    if s.expr_ptr == max_expr
    then ok (none, s)
    else (lift build >>= λ e. pure (some e)) (record s { expr_ptr = s.expr_ptr + 1 })

-- `mk_const_int_expr`, `mk_const_float_expr`, `mk_const_byte_expr` and `mk_const_char_expr`
abbrev pub mk_const_expr : Value → M (Option Expr)
mk_const_expr v = new_expr (ok (const_val v))

abbrev pub mk_attr_expr : Attr → Kind → M (Option Expr)
mk_attr_expr a k = new_expr (ok (attr_ref a k))

abbrev comp : ArithOp → Option Expr → Option Expr → Result Expr
comp op none r = fault
comp op (some l) none = fault
comp op (some l) (some r) = ok (comp_expr (type_of l) op l r)

-- `mk_comp_expr`: the type is read through `left`. A side is null only when the pool is full, and
-- then null is returned before a side is read.
abbrev pub mk_comp_expr : ArithOp → Option Expr → Option Expr → M (Option Expr)
mk_comp_expr op l r = new_expr (comp op l r)

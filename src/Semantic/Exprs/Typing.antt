-- ===== src/Semantic/Exprs/Typing.antt =====
-- Interpreted expressions are well typed, and their interpretation never faults while the pool of
-- expressions has room.
use p.Common.{
  ℕ, suc, ◌+◌, ◌≤◌, ◌≡◌, refl, sym, true, Option, none, some, List, ok, Safely, Safely->>=,
  Safely-map, ==_iff, Bool-cases, inl, inr, if◌then◌else◌, arith, get_elem?, ◌==◌,
}
use p.Metadata.Types.{Kind, AggrFn, get_output_type, same_kind, same_kind→eq, fn_code}
use p.Metadata.Tables.{TableManager, Table, Attribute, get_attr_type}
use p.Parser.Nodes.{AttrRef, Node, Condn}
use p.Semantic.Query.{Attr, Expr, BExpr, type_of}
use p.Semantic.Scope.{Entry, interpret_attr}
use p.Semantic.Scope.Resolve.{IsScope, Means, interpret_attr-Means}
use p.Semantic.Exprs.{
  num_exprs, new_expr, type_of_attr, interpret_aggr_attr, interpret_expr, interpret_condn,
}

-- The attribute exists, and has the type in the registry.
pub record HasType (m : TableManager) (symbols : List Entry) (a : Attr) (k : Kind) : Type 0 where
  pub entry : Entry
  pub table : Table
  pub attribute : Attribute
  pub entry_at : get_elem? symbols a.var_id ≡ some entry
  pub table_at : get_elem? m.tables entry.table_id ≡ some table
  pub attribute_at : get_elem? table.attrs a.attr_id ≡ some attribute
  pub typed : attribute.attr_type ≡ k

-- The typing rules of expressions.
abbrev pub IsTyped : TableManager → List Entry → Expr → Type 0
IsTyped m symbols (Expr.const_val v) = Unit
IsTyped m symbols (Expr.attr_ref k a) = HasType m symbols a k
IsTyped m symbols (Expr.aggr_expr k fn a) =
    (j : Kind) × HasType m symbols a j × (k ≡ get_output_type fn j)
IsTyped m symbols (Expr.comp_expr k op l r) =
    IsTyped m symbols l × IsTyped m symbols r × (type_of l ≡ k) × (type_of r ≡ k)

abbrev pub IsTypedCondn : TableManager → List Entry → BExpr → Type 0
IsTypedCondn m symbols b =
    IsTyped m symbols b.left × IsTyped m symbols b.right × (type_of b.left ≡ type_of b.right)

-- The number of expressions that a node takes from the pool.
abbrev pub size : Node → ℕ
size (Node.arith_expr op l r) = suc (size l + size r)
size e = 1

-- What the grammar guarantees: only a count may lack its attribute.
abbrev pub IsParsed : Node → Type 0
IsParsed (Node.arith_expr op l r) = IsParsed l × IsParsed r
IsParsed (Node.aggr_expr fn none) = fn_code fn ≡ fn_code AggrFn.count
IsParsed e = Unit

-- The attribute that a count is taken over exists.
abbrev pub HasFirst : TableManager → List Entry → Type 0
HasFirst m symbols = (k : Kind) × HasType m symbols (record { var_id = 0; attr_id = 0 }) k

type_of_attr-HasType :
    (m : TableManager) (symbols : List Entry) (a : Attr) (k : Kind)
    → HasType m symbols a k
    → type_of_attr m symbols a ≡ ok k
unfolding type_of_attr get_attr_type
type_of_attr-HasType m symbols a k h =
    let e = h.entry_at in
    let t = h.table_at in let x = h.attribute_at in let y = h.typed in ground arith

new_expr-room : (n : ℕ) → n + 1 ≤ num_exprs → new_expr n ≡ (true, n + 1)
new_expr-room n h = ground arith

-- What every node of size `k` keeps, from `n` expressions in use.
abbrev Post : TableManager → List Entry → ℕ → Expr × ℕ → Type 0
Post m symbols k r = IsTyped m symbols r.0 × (r.1 ≡ k)

module _ (m : TableManager) (symbols : List Entry) (s : IsScope m symbols) where
  Means-HasType :
      (r : AttrRef) (a : Attr) → Means m symbols r a → (k : Kind) × HasType m symbols a k
  Means-HasType r a h = (
    h.attribute.attr_type,
    record {
      entry = h.entry;
      table = h.table;
      attribute = h.attribute;
      entry_at = h.entry_at;
      table_at = h.table_at;
      attribute_at = h.attribute_at;
      typed = refl;
    },
  )

  -- The type of an attribute is read off the registry.
  type_of_attr-Safely :
      (a : Attr)
      → (k : Kind) × HasType m symbols a k
      → Safely (λ k. HasType m symbols a k) (type_of_attr m symbols a)
  type_of_attr-Safely a (k, h) = rw (type_of_attr-HasType m symbols a k h) h

  interpret_aggr_attr-Safely :
      (fn : AggrFn) (attr : Option AttrRef)
      → HasFirst m symbols
      → IsParsed (Node.aggr_expr fn attr)
      → Safely (λ a. (k : Kind) × HasType m symbols a k) (interpret_aggr_attr m symbols fn attr)
  interpret_aggr_attr-Safely fn none first p = rw ((==_iff _ _).1 p) first
  interpret_aggr_attr-Safely fn (some r) first p =
      elim (Bool-cases (fn_code fn == fn_code AggrFn.count)) [
        | inl counts ↦ rw counts first
        | inr other ↦
            rw (other, if◌then◌else◌)
              (Safely-map _ _ (interpret_attr m symbols r) (Means-HasType r)
                (interpret_attr-Means m symbols r s))
      ]

  -- Over a well-formed symbol table whose first table has an attribute, interpreting an
  -- expression that the grammar admits, with room in the pool for its nodes, never faults: it is
  -- refused with an error code, or it is well typed and has taken one expression of the pool for
  -- each node.
  pub interpret_expr-IsTyped :
      (e : Node) (n : ℕ)
      → HasFirst m symbols
      → IsParsed e
      → n + size e ≤ num_exprs
      → Safely (λ r. IsTyped m symbols r.0 × (r.1 ≡ n + size e)) (interpret_expr m symbols e n)
  unfolding interpret_expr
  interpret_expr-IsTyped (Node.const_val v) n first p room = rw (new_expr-room n room) (tt, refl)
  interpret_expr-IsTyped (Node.attr_ref r) n first p room = rw (new_expr-room n room) (
      Safely->>= _ _ (interpret_attr m symbols r) _ (interpret_attr-Means m symbols r s) λ a h.
        Safely->>= _ _ (type_of_attr m symbols a) _ (type_of_attr-Safely a (Means-HasType r a h))
          λ k t. (t, refl))
  interpret_expr-IsTyped (Node.aggr_expr fn r) n first p room = rw (new_expr-room n room) (
      Safely->>= _ _ (interpret_aggr_attr m symbols fn r) _
        (interpret_aggr_attr-Safely fn r first p)
        λ a h.
          Safely->>= _ _ (type_of_attr m symbols a) _ (type_of_attr-Safely a h)
            λ k t. ((k, t, refl), refl))
  interpret_expr-IsTyped (Node.arith_expr op l r) n first p room =
      rw (new_expr-room n (omega arith)) (
        Safely->>= _ _ (interpret_expr m symbols l (n + 1)) _
          (interpret_expr-IsTyped l (n + 1) first p.0 (omega arith))
          λ le hl.
            Safely->>= _ _ (interpret_expr m symbols r le.1) _
              (interpret_expr-IsTyped r le.1 first p.1 (omega arith))
              λ re hr. elim (Bool-cases (same_kind (type_of le.0) (type_of re.0))) [
                | inl same ↦ rw same ((hl.0, hr.0, refl, sym (same_kind→eq _ _ same)), omega arith)
                | inr other ↦ rw other tt
              ])
  interpret_expr-IsTyped Node.other_node n first p room = tt

  -- Over a well-formed symbol table whose first table has an attribute, interpreting a condition
  -- that the grammar admits, with room in the pool for its nodes, never faults: it is refused
  -- with an error code, or both sides are well typed and have one type.
  pub interpret_condn-IsTyped :
      (c : Condn) (n : ℕ)
      → HasFirst m symbols
      → IsParsed c.left_expr
      → IsParsed c.right_expr
      → n + size c.left_expr + size c.right_expr ≤ num_exprs
      → Safely
          (λ r. IsTypedCondn m symbols r.0 × (r.1 ≡ n + size c.left_expr + size c.right_expr))
          (interpret_condn m symbols c n)
  unfolding interpret_condn
  interpret_condn-IsTyped c n first p q room =
      Safely->>= _ _ (interpret_expr m symbols c.left_expr n) _
        (interpret_expr-IsTyped c.left_expr n first p (omega arith))
        λ le hl.
          Safely->>= _ _ (interpret_expr m symbols c.right_expr le.1) _
            (interpret_expr-IsTyped c.right_expr le.1 first q (omega arith))
            λ re hr. elim (Bool-cases (same_kind (type_of le.0) (type_of re.0))) [
              | inl same ↦ rw same ((hl.0, hr.0, same_kind→eq _ _ same), omega arith)
              | inr other ↦ rw other tt
            ]

-- ===== src/Semantic/Clauses/Binary.antt =====
-- The union or the difference of two tables.
use p.Common.{
  ℕ, ◌≡◌, refl, sym, ap, ◌∙◌, Option, some, String, [], ◌∷◌, ok, get_elem?, Safely, Bool-cases,
  Option-cases, inl, inr,
}
use p.Common.Index.{index_of, index_of_sound, index_of_unique}
use p.Metadata.Tables.{TableManager, Table, get_table_id, name_of}
use p.Metadata.Tables.Invariant.{IsValid}
use p.Parser.Nodes.{BinOp, union_node, except_node, RelToStrOp}
use p.Semantic.Query.{Query, QueryType, BinaryOp}
use p.Semantic.Clauses.{operand_names, interpret_r2s_op, interpret_bin_op}
use p.Semantic.Clauses.Compatible.{
  schema, same_schema, schema_compatible_lem, same_schema→eq, schema_compatible_iff,
}

-- `l` and `r` are the names that are written, in that order.
abbrev pub Names : BinOp → String → String → Type 0
Names (union_node a b) l r = (l ≡ a) × (r ≡ b)
Names (except_node a b) l r = (l ≡ a) × (r ≡ b)

-- `op` is the operator that is written.
abbrev pub IsOperator : BinOp → BinaryOp → Type 0
IsOperator (union_node a b) op = op ≡ BinaryOp.union
IsOperator (except_node a b) op = op ≡ BinaryOp.except

Names-of :
    (b : BinOp) (l r : String) → l ≡ (operand_names b).0 → r ≡ (operand_names b).1 → Names b l r
Names-of (union_node x y) l r e f = (e, f)
Names-of (except_node x y) l r e f = (e, f)

of_Names :
    (b : BinOp) (l r : String) → Names b l r → (l ≡ (operand_names b).0) × (r ≡ (operand_names b).1)
of_Names (union_node x y) l r h = h
of_Names (except_node x y) l r h = h

IsOperator-of : (b : BinOp) → IsOperator b (operand_names b).2
IsOperator-of (union_node x y) = refl
IsOperator-of (except_node x y) = refl

-- The registered tables that a query over two tables names.
pub record Operands (m : TableManager) (b : BinOp) : Type 0 where
  pub left : ℕ
  pub right : ℕ
  pub left_table : Table
  pub right_table : Table
  pub left_at : get_elem? m.tables left ≡ some left_table
  pub right_at : get_elem? m.tables right ≡ some right_table
  pub named : Names b left_table.table_name right_table.table_name

-- The interpreted query over these tables, which have one schema.
pub record IsBinaryQuery (m : TableManager) (b : BinOp) (q : Query) : Type 0 where
  pub operands : Operands m b
  pub same : schema operands.left_table ≡ schema operands.right_table
  pub kind : q.kind ≡ QueryType.binary_op
  pub tables : q.ref_tables ≡ operands.left ∷ operands.right ∷ []
  pub sides : (q.left_table ≡ 0) × (q.right_table ≡ 1)
  pub op : IsOperator b q.bin_op

-- Interpreting the union or the difference of two names never faults: it returns an error code,
-- or a query over two registered tables, which have the names on the left and on the right in
-- that order and the same types in the same order, with the operator union for UNION and except
-- for EXCEPT.
pub interpret_bin_op-IsBinaryQuery :
    (m : TableManager) (b : BinOp) (r2s : Option RelToStrOp) (q : Query)
    → Safely (IsBinaryQuery m b) (interpret_bin_op m b r2s q)
unfolding interpret_bin_op get_table_id
interpret_bin_op-IsBinaryQuery m b r2s q =
    elim (Option-cases (index_of name_of (operand_names b).0 m.tables)) [
      | inl lost ↦ rw lost tt
      | inr (i, left) ↦ elim (Option-cases (index_of name_of (operand_names b).1 m.tables)) [
        | inl lost ↦ rw (left, lost) tt
        | inr (j, right) ↦
            let (t, here, named) = index_of_sound name_of (operand_names b).0 m.tables i left in
            let (u, there, named') = index_of_sound name_of (operand_names b).1 m.tables j right in
            rw (left, right, schema_compatible_lem m i j t u here there)
              (elim (Bool-cases (same_schema m i j t u here there)) [
                | inl same ↦ rw same (record {
                  operands = record {
                    left = i;
                    right = j;
                    left_table = t;
                    right_table = u;
                    left_at = here;
                    right_at = there;
                    named = Names-of b t.table_name u.table_name named named';
                  };
                  same = same_schema→eq m i j t u here there same;
                  kind = refl;
                  tables = refl;
                  sides = (refl, refl);
                  op = IsOperator-of b;
                })
                | inr other ↦ rw other tt
              ])
      ]
    ]

-- Over a well-formed registry, the union or the difference of two names of registered tables that
-- have the same types in the same order is interpreted, to a query over these tables.
pub interpret_bin_op_total :
    (m : TableManager) (b : BinOp) (r2s : Option RelToStrOp) (q : Query) (o : Operands m b)
    → IsValid m
    → schema o.left_table ≡ schema o.right_table
    → (q' : Query) × (interpret_bin_op m b r2s q ≡ ok q') × (q'.ref_tables ≡ o.left ∷ o.right ∷ [])
unfolding interpret_bin_op get_table_id
interpret_bin_op_total m b r2s q o v same =
    let named = of_Names b o.left_table.table_name o.right_table.table_name o.named in
    let left : index_of name_of (operand_names b).0 m.tables ≡ some o.left =
      ap (λ n. index_of name_of n m.tables) (sym named.0)
      ∙ index_of_unique name_of m.tables o.left v.tables_distinct o.left_at in
    let right : index_of name_of (operand_names b).1 m.tables ≡ some o.right =
      ap (λ n. index_of name_of n m.tables) (sym named.1)
      ∙ index_of_unique name_of m.tables o.right v.tables_distinct o.right_at in
    let fits =
      (schema_compatible_iff m o.left o.right o.left_table o.right_table o.left_at o.right_at).1
        same in
    (
      record (interpret_r2s_op r2s q) {
        kind = QueryType.binary_op;
        ref_tables = o.left ∷ o.right ∷ [];
        left_table = 0;
        right_table = 1;
        bin_op = (operand_names b).2;
      },
      rw (left, right, fits) refl,
      refl,
    )

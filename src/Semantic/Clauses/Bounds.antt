-- ===== src/Semantic/Clauses/Bounds.antt =====
-- The loops over the WHERE, GROUP BY and SELECT clauses: no array is overrun, and what they
-- collect is well typed.
use p.Common.{
  ℕ, ◌+◌, ◌≤◌, ◌≡◌, false, List, [], ◌∷◌, ◌++◌, arith, length, Safely, Safely->>=, Safely-map,
  Bool-cases, inl, inr, leb, All, All-append, length-append,
}
use p.Metadata.Tables.{TableManager}
use p.Parser.Nodes.{AttrRef, Node, Condn}
use p.Semantic.Query.{Attr, Expr, BExpr, max_pred, max_proj, max_group_attrs}
use p.Semantic.Scope.{Entry, interpret_attr}
use p.Semantic.Scope.Resolve.{IsScope, interpret_attr-Means}
use p.Semantic.Exprs.{num_exprs, interpret_expr, interpret_condn}
use p.Semantic.Exprs.Typing.{
  IsTyped, IsTypedCondn, IsParsed, HasFirst, size, interpret_expr-IsTyped, interpret_condn-IsTyped,
}
use p.Semantic.Windows.From.{IsAttr}
use p.Semantic.Clauses.{where_clause, group_by_clause, proj_terms}

abbrev pub size_condn : Condn → ℕ
size_condn c = size c.left_expr + size c.right_expr

-- The expressions that the conditions take from the pool.
abbrev pub size_condns : List Condn → ℕ
size_condns [] = 0
size_condns (c ∷ cs) = size_condn c + size_condns cs

abbrev pub size_terms : List Node → ℕ
size_terms [] = 0
size_terms (e ∷ es) = size e + size_terms es

abbrev pub IsParsedCondn : Condn → Type 0
IsParsedCondn c = IsParsed c.left_expr × IsParsed c.right_expr

-- A list that its array holds, of values that are all well formed.
abbrev pub IsFilled {ℓ} : {A : Type ℓ} → (A → Type 0) → ℕ → List A → Type 0
IsFilled P n xs = (length xs ≤ n) × All P xs

pub push-IsFilled :
    {A : Type 0} (P : A → Type 0) (n : ℕ) (xs : List A) (x : A)
    → IsFilled P n xs
    → leb n (length xs) ≡ false
    → P x
    → IsFilled P n (xs ++ x ∷ [])
push-IsFilled P n xs x h room p =
    (ground (arith, length-append xs (x ∷ [])), All-append P xs (x ∷ []) h.1 (p, tt))

module _ (m : TableManager) (symbols : List Entry) (s : IsScope m symbols) where
  pub group_by_clause-IsFilled :
      (rs : List AttrRef) (done : List Attr)
      → IsFilled (IsAttr m symbols) max_group_attrs done
      → Safely (IsFilled (IsAttr m symbols) max_group_attrs) (group_by_clause m symbols rs done)
  unfolding group_by_clause
  group_by_clause-IsFilled [] done h = h
  group_by_clause-IsFilled (r ∷ rs) done h =
      Safely->>= _ _ (interpret_attr m symbols r) _ (interpret_attr-Means m symbols r s) λ a k.
        elim (Bool-cases (leb max_group_attrs (length done))) [
          | inl full ↦ rw full tt
          | inr room ↦ rw room (
              group_by_clause-IsFilled rs (done ++ a ∷ [])
                (push-IsFilled (IsAttr m symbols) max_group_attrs done a h room (r, k)))
        ]

  module _ (first : HasFirst m symbols) where
    pub where_clause-IsFilled :
        (cs : List Condn) (done : List BExpr) (n : ℕ)
        → All IsParsedCondn cs
        → IsFilled (IsTypedCondn m symbols) max_pred done
        → n + size_condns cs ≤ num_exprs
        → Safely
            (λ r. IsFilled (IsTypedCondn m symbols) max_pred r.0 × (r.1 ≡ n + size_condns cs))
            (where_clause m symbols cs done n)
    unfolding where_clause
    where_clause-IsFilled [] done n parsed h room = (h, omega arith)
    where_clause-IsFilled (c ∷ cs) done n parsed h room =
        Safely->>= _ _ (interpret_condn m symbols c n) _
          (interpret_condn-IsTyped m symbols s c n first parsed.0.0 parsed.0.1 (omega arith))
          λ b k. elim (Bool-cases (leb max_pred (length done))) [
            | inl full ↦ rw full tt
            | inr left ↦ rw left (
                Safely-map _ _ (where_clause m symbols cs (done ++ b.0 ∷ []) b.1)
                  (λ r q. (q.0, omega (arith, q.1, k.1)))
                  (where_clause-IsFilled cs (done ++ b.0 ∷ []) b.1 parsed.1
                    (push-IsFilled (IsTypedCondn m symbols) max_pred done b.0 h left k.0)
                    (omega (arith, k.1))))
          ]

    pub proj_terms-IsFilled :
        (es : List Node) (done : List Expr) (n : ℕ)
        → All IsParsed es
        → IsFilled (IsTyped m symbols) max_proj done
        → n + size_terms es ≤ num_exprs
        → Safely (λ r. IsFilled (IsTyped m symbols) max_proj r.0) (proj_terms m symbols es done n)
    unfolding proj_terms
    proj_terms-IsFilled [] done n parsed h room = h
    proj_terms-IsFilled (e ∷ es) done n parsed h room =
        Safely->>= _ _ (interpret_expr m symbols e n) _
          (interpret_expr-IsTyped m symbols s e n first parsed.0 (omega arith))
          λ r k. elim (Bool-cases (leb max_proj (length done))) [
            | inl full ↦ rw full tt
            | inr left ↦ rw left (
                proj_terms-IsFilled es (done ++ r.0 ∷ []) r.1 parsed.1
                  (push-IsFilled (IsTyped m symbols) max_proj done r.0 h left k.0)
                  (omega (arith, k.1)))
          ]

-- ===== src/Semantic/Clauses/Star.antt =====
-- `SELECT *` against its declarative reading: all attributes of all tables, in order.
use p.Common.{
  ℕ, suc, ◌+◌, ◌<◌, ◌≤◌, ◌≡◌, refl, sym, ap, ◌∙◌, true, none, some, List, [], ◌∷◌, ◌++◌, Result, ok,
  err, fail, arith, length, get_elem?, Bool-cases, inl, inr, leb, All, length-append, if◌then◌else◌,
  append_assoc, append-nil, range_from, get_elem?-append_here, get_elem?-some, get_elem?-map-some,
  All-get, All-append,
}
use p.Metadata.Tables.{TableManager, Table, Attribute, get_attr_type, get_num_attrs}
use p.Semantic.Query.{Expr, max_proj}
use p.Semantic.Scope.{Entry, tables_of}
use p.Semantic.Scope.Resolve.{IsScope, IsRegistered}
use p.Semantic.Exprs.{num_exprs, new_expr}
use p.Semantic.Exprs.Typing.{IsTyped}
use p.Semantic.Clauses.{star_attrs, star}

-- A reference to each attribute of the table of variable `v`, from attribute `id` on.
pub table_exprs : ℕ → ℕ → List Attribute → List Expr
table_exprs v id [] = []
table_exprs v id (x ∷ xs) =
    Expr.attr_ref x.attr_type (record { var_id = v; attr_id = id }) ∷ table_exprs v (suc id) xs

-- A reference to each attribute of each table, from variable `v` on.
pub all_exprs : TableManager → ℕ → List Entry → List Expr
all_exprs m v [] = []
all_exprs m v (e ∷ es) = elim (get_elem? m.tables e.table_id) [
  | none ↦ all_exprs m (suc v) es
  | some t ↦ table_exprs v 0 t.attrs ++ all_exprs m (suc v) es
]

-- All of `new` behind `done`, if the array has room for them.
abbrev pub filled : List Expr → List Expr → ℕ → Result (List Expr × ℕ)
filled done new n =
    if leb (length done + length new) max_proj then ok (done ++ new, n + length new) else err fail

new_expr-room : (n : ℕ) → n + 1 ≤ num_exprs → new_expr n ≡ (true, n + 1)
new_expr-room n h = ground arith

-- Filling in two goes.
filled_append :
    (done new rest : List Expr) (n : ℕ)
    → filled (done ++ new) rest (n + length new) ≡ filled done (new ++ rest) n
filled_append done new rest n =
    let size : length (done ++ new) + length rest ≡ length done + length (new ++ rest) =
      omega (arith, length-append done new, length-append new rest) in
    let count : n + length new + length rest ≡ n + length (new ++ rest) =
      omega (arith, length-append new rest) in
    rw (size, count, append_assoc)

filled-full :
    (done new : List Expr) (n : ℕ)
    → max_proj < length done + length new
    → filled done new n ≡ err fail
filled-full done new n h = ground arith

filled-fits :
    (done new : List Expr) (n : ℕ)
    → length done + length new ≤ max_proj
    → filled done new n ≡ ok (done ++ new, n + length new)
filled-fits done new n h = ground arith

module _ (m : TableManager) (table : ℕ) (t : Table) (here : get_elem? m.tables table ≡ some t) where
  type_at :
      (id : ℕ) (pre : List Attribute) (x : Attribute) (xs : List Attribute)
      → t.attrs ≡ pre ++ x ∷ xs
      → id ≡ length pre
      → get_attr_type m table id ≡ ok x.attr_type
  unfolding get_attr_type
  type_at id pre x xs p l =
      let at : get_elem? t.attrs id ≡ some x = rw (p, l) (get_elem?-append_here pre x xs) in
      ground arith

  star_attrs-filled :
      (v id : ℕ) (pre xs : List Attribute) (done : List Expr) (n : ℕ)
      → t.attrs ≡ pre ++ xs
      → id ≡ length pre
      → length done ≤ max_proj
      → n + max_proj ≤ num_exprs + length done
      → star_attrs m v table (length xs) id done n ≡ filled done (table_exprs v id xs) n
  unfolding star_attrs table_exprs
  star_attrs-filled v id pre [] done n p l few room =
      sym
        (filled-fits done [] n (omega arith) ∙ rw append-nil (ap (λ k. ok (done, k)) (omega arith)))
  star_attrs-filled v id pre (x ∷ xs) done n p l few room =
      elim (Bool-cases (leb max_proj (length done))) [
        | inl full ↦ rw full (sym (filled-full done (table_exprs v id (x ∷ xs)) n (ground arith)))
        | inr left ↦
            let e : Expr = Expr.attr_ref x.attr_type (record { var_id = v; attr_id = id }) in
            let longer = length-append done (e ∷ []) in
            rw (left, type_at id pre x xs p l, new_expr-room n (ground arith))
              (star_attrs-filled v (suc id) (pre ++ x ∷ []) xs (done ++ e ∷ []) (n + 1)
                  (p ∙ rw append_assoc) (omega (arith, length-append pre (x ∷ [])))
                  (ground (arith, longer)) (omega (arith, longer))
                ∙ filled_append done (e ∷ []) (table_exprs v (suc id) xs) n)
      ]

module _ (m : TableManager) (symbols : List Entry) (s : IsScope m symbols) where
  -- The table of the variable at the head of the remaining entries.
  table_of :
      (v : ℕ) (pre : List Entry) (e : Entry) (es : List Entry)
      → symbols ≡ pre ++ e ∷ es
      → v ≡ length pre
      → (t : Table) × (get_elem? (tables_of symbols) v ≡ some e.table_id)
        × (get_elem? m.tables e.table_id ≡ some t)
  table_of v pre e es p l =
      let at : get_elem? symbols v ≡ some e = rw (p, l) (get_elem?-append_here pre e es) in
      let (t, here) =
        get_elem?-some m.tables e.table_id
          (All-get (λ x. IsRegistered m x.table_id) symbols v s.registered at) in
      (t, get_elem?-map-some (λ x. x.table_id) symbols v at, here)

  all_exprs-cons :
      (v : ℕ) (e : Entry) (es : List Entry) (t : Table)
      → get_elem? m.tables e.table_id ≡ some t
      → all_exprs m v (e ∷ es) ≡ table_exprs v 0 t.attrs ++ all_exprs m (suc v) es
  unfolding all_exprs
  all_exprs-cons v e es t here = rw (here, all_exprs)

  star-filled :
      (v : ℕ) (pre es : List Entry) (done : List Expr) (n : ℕ)
      → symbols ≡ pre ++ es
      → v ≡ length pre
      → length done ≤ max_proj
      → n + max_proj ≤ num_exprs + length done
      → star m (tables_of symbols) (range_from v (length es)) done n
        ≡ filled done (all_exprs m v es) n
  unfolding star get_num_attrs
  star-filled v pre [] done n p l few room =
      unfold all_exprs in
      sym
        (filled-fits done [] n (omega arith) ∙ rw append-nil (ap (λ k. ok (done, k)) (omega arith)))
  star-filled v pre (e ∷ es) done n p l few room =
      let (t, at, here) = table_of v pre e es p l in
      let new = table_exprs v 0 t.attrs in
      rw (at, here, star_attrs-filled m e.table_id t here v 0 [] t.attrs done n refl refl few room)
        (elim (Bool-cases (leb (length done + length new) max_proj)) [
          | inl fits ↦
              rw (all_exprs-cons v e es t here, filled-fits done new n (ground arith))
                (star-filled (suc v) (pre ++ e ∷ []) es (done ++ new) (n + length new)
                    (p ∙ rw append_assoc) (omega (arith, length-append pre (e ∷ [])))
                    (ground (arith, length-append done new)) (omega (arith, length-append done new))
                  ∙ filled_append done new (all_exprs m (suc v) es) n)
          | inr full ↦
              rw (all_exprs-cons v e es t here, filled-full done new n (ground arith))
                (sym (
                  filled-full done (new ++ all_exprs m (suc v) es) n
                    (ground (arith, length-append new (all_exprs m (suc v) es)))))
        ])

  -- The references are well typed.
  table_exprs-IsTyped :
      (v id : ℕ) (pre xs : List Attribute) (e : Entry) (t : Table)
      → get_elem? symbols v ≡ some e
      → get_elem? m.tables e.table_id ≡ some t
      → t.attrs ≡ pre ++ xs
      → id ≡ length pre
      → All (IsTyped m symbols) (table_exprs v id xs)
  unfolding table_exprs
  table_exprs-IsTyped v id pre [] e t at here p l = tt
  table_exprs-IsTyped v id pre (x ∷ xs) e t at here p l = (
    record {
      entry = e;
      table = t;
      attribute = x;
      entry_at = at;
      table_at = here;
      attribute_at = rw (p, l) (get_elem?-append_here pre x xs);
      typed = refl;
    },
    table_exprs-IsTyped v (suc id) (pre ++ x ∷ []) xs e t at here (p ∙ rw append_assoc)
        (omega (arith, length-append pre (x ∷ []))),
  )

  pub all_exprs-IsTyped :
      (v : ℕ) (pre es : List Entry)
      → symbols ≡ pre ++ es
      → v ≡ length pre
      → All (IsTyped m symbols) (all_exprs m v es)
  all_exprs-IsTyped v pre [] p l = unfold all_exprs in tt
  all_exprs-IsTyped v pre (e ∷ es) p l =
      let (t, at, here) = table_of v pre e es p l in
      rw (all_exprs-cons v e es t here) (
        All-append (IsTyped m symbols) (table_exprs v 0 t.attrs) (all_exprs m (suc v) es)
          (table_exprs-IsTyped v 0 [] t.attrs e t (rw (p, l) (get_elem?-append_here pre e es)) here
            refl refl)
          (all_exprs-IsTyped (suc v) (pre ++ e ∷ []) es (p ∙ rw append_assoc)
            (omega (arith, length-append pre (e ∷ [])))))

-- For SELECT * over the variables of a well-formed symbol table, each once and in order, with
-- room in the pool for the whole array, the projections are all attributes of all tables, in
-- order, each with its type; they are refused exactly if the array does not hold them.
pub star_lem :
    (m : TableManager) (symbols : List Entry) (n : ℕ)
    → IsScope m symbols
    → n + max_proj ≤ num_exprs
    → star m (tables_of symbols) (range_from 0 (length symbols)) [] n
      ≡ filled [] (all_exprs m 0 symbols) n
star_lem m symbols n s room =
    star-filled m symbols s 0 [] symbols [] n refl refl (omega arith) (omega arith)

-- ===== src/Semantic/Scope/Resolve.antt =====
-- What a name of a query means, and that `interpret_attr` finds exactly that.
use p.Common.{
  ℕ, suc, ◌+◌, ◌<◌, ◌≤◌, ◌≡◌, refl, ◌∙◌, Option, none, some, List, [], ◌∷◌, String, Result, ok, err,
  unknown_attr_err, ambiguous_attr_err, arith, length, get_elem?, some-inj, get_elem?-some, All-get,
  inl, inr, All, Safely, Option-cases, subst,
}
use p.Common.Index.{index_of, Distinct, index_of_sound}
use p.Metadata.Tables.{Table, Attribute, TableManager, get_attr_id, attr_name_of}
use p.Parser.Nodes.{AttrRef}
use p.Semantic.Query.{Attr}
use p.Semantic.Scope.{
  Entry, var_name_of, max_symbols, find_attr, interpret_attr, interpret_var_name,
}

-- The identifier is registered.
abbrev pub IsRegistered : TableManager → ℕ → Type 0
IsRegistered m id = id < length m.tables

-- Every variable stands for a registered table, and no two have one name.
pub record IsScope (m : TableManager) (symbols : List Entry) : Type 0 where
  pub registered : All (λ e. IsRegistered m e.table_id) symbols
  pub distinct : Distinct var_name_of symbols
  pub few : length symbols ≤ max_symbols

-- The attributes of a name among the variables from `v` on, read off the registry.
pub holders : TableManager → String → ℕ → List Entry → List Attr
holders m name v [] = []
holders m name v (e ∷ es) = elim (get_elem? m.tables e.table_id) [
  | none ↦ holders m name (suc v) es
  | some t ↦ elim (index_of attr_name_of name t.attrs) [
    | none ↦ holders m name (suc v) es
    | some a ↦ record { var_id = v; attr_id = a } ∷ holders m name (suc v) es
  ]
]

-- The one candidate, or why there is none.
abbrev pub only : List Attr → Result Attr
only [] = err unknown_attr_err
only (a ∷ []) = ok a
only (a ∷ b ∷ rest) = err ambiguous_attr_err

abbrev given : Option Attr → List Attr → List Attr
given none found = found
given (some a) found = a ∷ found

get_attr_id-some :
    (m : TableManager) (id : ℕ) (name : String) {t : Table}
    → get_elem? m.tables id ≡ some t
    → get_attr_id m id name ≡ ok (index_of attr_name_of name t.attrs)
unfolding get_attr_id
get_attr_id-some m id name e = rw e

find_attr-holders :
    (m : TableManager) (name : String) (v : ℕ) (es : List Entry) (found : Option Attr)
    → All (λ e. IsRegistered m e.table_id) es
    → find_attr m name v es found ≡ only (given found (holders m name v es))
unfolding find_attr holders get_attr_id
find_attr-holders m name v [] none h = refl
find_attr-holders m name v [] (some a) h = refl
find_attr-holders m name v (e ∷ es) none h =
    let (t, here) = get_elem?-some m.tables e.table_id h.0 in
    elim (Option-cases (index_of attr_name_of name t.attrs)) [
      | inl miss ↦
          rw (here, find_attr, holders, get_attr_id, miss)
            (find_attr-holders m name (suc v) es none h.1)
      | inr (a, hit) ↦
          rw (here, find_attr, holders, get_attr_id, hit)
            (find_attr-holders m name (suc v) es (some (record { var_id = v; attr_id = a })) h.1)
    ]
find_attr-holders m name v (e ∷ es) (some b) h =
    let (t, here) = get_elem?-some m.tables e.table_id h.0 in
    elim (Option-cases (index_of attr_name_of name t.attrs)) [
      | inl miss ↦
          rw (here, find_attr, holders, get_attr_id, miss)
            (find_attr-holders m name (suc v) es (some b) h.1)
      | inr (a, hit) ↦ rw (here, find_attr, holders, get_attr_id, hit) refl
    ]

-- Over a well-formed symbol table, an attribute that is written without a variable resolves to
-- the one variable whose table has that attribute; it is unknown if no table has it, and
-- ambiguous if several have.
pub interpret_attr-unqualified :
    (m : TableManager) (symbols : List Entry) (name : String)
    → IsScope m symbols
    → interpret_attr m symbols (record { rel_var_name = none; attr_name = name })
      ≡ only (holders m name 0 symbols)
unfolding interpret_attr
interpret_attr-unqualified m symbols name s = find_attr-holders m name 0 symbols none s.registered

-- The attribute is one of its variable's table, and the variable is the one that is written.
pub record Means (m : TableManager) (symbols : List Entry) (r : AttrRef) (a : Attr) : Type 0 where
  pub entry : Entry
  pub table : Table
  pub attribute : Attribute
  pub entry_at : get_elem? symbols a.var_id ≡ some entry
  pub table_at : get_elem? m.tables entry.table_id ≡ some table
  pub attribute_at : get_elem? table.attrs a.attr_id ≡ some attribute
  pub named : attribute.attr_name ≡ r.attr_name
  pub qualified : (v : String) → r.rel_var_name ≡ some v → entry.var_name ≡ v

abbrev Aligned : List Entry → ℕ → List Entry → Type 0
Aligned symbols v es =
    (i : ℕ) (e : Entry) → get_elem? es i ≡ some e → get_elem? symbols (v + i) ≡ some e

Aligned-tail :
    (symbols : List Entry) (v : ℕ) (e : Entry) (es : List Entry)
    → Aligned symbols v (e ∷ es)
    → Aligned symbols (suc v) es
Aligned-tail symbols v e es h i x p =
    subst (λ k. get_elem? symbols k ≡ some x) (omega arith) (h (suc i) x p)

module _ (m : TableManager) (symbols : List Entry) (name : String) where
  abbrev unqualified : AttrRef
  unqualified = record { rel_var_name = none; attr_name = name }

  holders-Means :
      (v : ℕ) (es : List Entry)
      → Aligned symbols v es
      → All (Means m symbols unqualified) (holders m name v es)
  unfolding holders
  holders-Means v [] h = tt
  holders-Means v (e ∷ es) h =
      let rest = holders-Means (suc v) es (Aligned-tail symbols v e es h) in
      elim (Option-cases (get_elem? m.tables e.table_id)) [
        | inl gone ↦ rw (gone, holders) rest
        | inr (t, here) ↦ elim (Option-cases (index_of attr_name_of name t.attrs)) [
          | inl miss ↦ rw (here, holders, miss) rest
          | inr (a, hit) ↦
              rw (here, holders, hit)
                (
                  let (x, at, same) = index_of_sound attr_name_of name t.attrs a hit in
                      record {
                        entry = e;
                        table = t;
                        attribute = x;
                        entry_at =
                            subst (λ k. get_elem? symbols k ≡ some e) (omega arith) (h 0 e refl);
                        table_at = here;
                        attribute_at = at;
                        named = same;
                        qualified = λ w p. cc;
                      },
                  rest,
                )
        ]
      ]

only-Safely : (P : Attr → Type 0) (found : List Attr) → All P found → Safely P (only found)
only-Safely P [] h = tt
only-Safely P (a ∷ []) h = h.0
only-Safely P (a ∷ b ∷ rest) h = tt

-- The code for a variable that is in the symbol table.
qualified_result :
    (m : TableManager) (symbols : List Entry) (v name : String) (i : ℕ) (e : Entry) (t : Table)
    → index_of var_name_of v symbols ≡ some i
    → get_elem? symbols i ≡ some e
    → get_elem? m.tables e.table_id ≡ some t
    → interpret_attr m symbols (record { rel_var_name = some v; attr_name = name })
      ≡ elim (index_of attr_name_of name t.attrs) [
        | none ↦ err unknown_attr_err
        | some a ↦ ok (record { var_id = i; attr_id = a })
      ]
unfolding interpret_attr interpret_var_name get_attr_id
qualified_result m symbols v name i e t hit at here =
    elim (Option-cases (index_of attr_name_of name t.attrs)) [
      | inl lost ↦ ground arith
      | inr (a, found) ↦ ground arith
    ]

interpret_attr-qualified :
    (m : TableManager) (symbols : List Entry) (v name : String)
    → IsScope m symbols
    → let r : AttrRef = record { rel_var_name = some v; attr_name = name } in
      Safely (Means m symbols r) (interpret_attr m symbols r)
unfolding interpret_attr interpret_var_name
interpret_attr-qualified m symbols v name s = elim (Option-cases (index_of var_name_of v symbols)) [
  | inl miss ↦ rw (miss, interpret_attr, interpret_var_name) tt
  | inr (i, hit) ↦
      let (e, at, same) = index_of_sound var_name_of v symbols i hit in
      let registered = All-get (λ x. IsRegistered m x.table_id) symbols i s.registered at in
      let (t, here) = get_elem?-some m.tables e.table_id registered in
      rw (qualified_result m symbols v name i e t hit at here)
        (elim (Option-cases (index_of attr_name_of name t.attrs)) [
          | inl lost ↦ rw lost tt
          | inr (a, found) ↦
              let (x, there, named) = index_of_sound attr_name_of name t.attrs a found in
              rw found (record {
                entry = e;
                table = t;
                attribute = x;
                entry_at = at;
                table_at = here;
                attribute_at = there;
                named = named;
                qualified = λ w p. same ∙ some-inj p;
              })
        ])
]

interpret_attr_by :
    (m : TableManager) (symbols : List Entry) (v : Option String) (name : String)
    → IsScope m symbols
    → let r : AttrRef = record { rel_var_name = v; attr_name = name } in
      Safely (Means m symbols r) (interpret_attr m symbols r)
interpret_attr_by m symbols none name s = rw (interpret_attr-unqualified m symbols name s) (
    only-Safely (Means m symbols (unqualified m symbols name)) (holders m name 0 symbols) (
      holders-Means m symbols name 0 symbols
        (λ i e p. subst (λ k. get_elem? symbols k ≡ some e) (omega arith) p)))
interpret_attr_by m symbols (some v) name s = interpret_attr-qualified m symbols v name s

-- Over a well-formed symbol table, resolving an attribute never reads beyond an array, and what
-- it finds is an attribute of that name in the table of a variable, the one that is written if
-- one is.
pub interpret_attr-Means :
    (m : TableManager) (symbols : List Entry) (r : AttrRef)
    → IsScope m symbols
    → Safely (Means m symbols r) (interpret_attr m symbols r)
interpret_attr-Means m symbols r s = interpret_attr_by m symbols r.rel_var_name r.attr_name s

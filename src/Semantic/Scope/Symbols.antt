-- ===== src/Semantic/Scope/Symbols.antt =====
-- The symbol table that the FROM clause builds.
use p.Common.{
  ◌≡◌, refl, ◌∙◌, Option, none, some, get_elem?, List, [], ◌∷◌, ◌++◌, String, arith, length,
  All-append, Safely, Safely->>=, Safely-map, Option-cases, Bool-cases, inl, inr, map, append_assoc,
  append-nil, length-append, get_elem?-lt, ◌==◌,
}
use p.Common.Index.{index_of, index_of-none, index_of_sound, Distinct-append}
use p.Metadata.Tables.{Table, TableManager, get_table_id, name_of}
use p.Parser.Nodes.{RelVar}
use p.Semantic.Scope.{
  Entry, var_name_of, max_symbols, add_symbol_table_entry, add_symbols, variable,
}
use p.Semantic.Scope.Resolve.{IsScope}

-- The variable of a listed table has the name that is given, or that of the table.
abbrev pub IsVarName : RelVar → String → Type 0
IsVarName r x = elim r.var_name [ none ↦ x ≡ r.rel_name | some v ↦ x ≡ v ]

-- The entry of a listed table: the name of its variable, and the registered table of that name.
abbrev pub DeclaresOne : TableManager → RelVar → Entry → Type 0
DeclaresOne m r e =
    IsVarName r e.var_name
    × ((t : Table) × (get_elem? m.tables e.table_id ≡ some t) × (t.table_name ≡ r.rel_name))

-- An entry for each listed table, in order.
abbrev pub Declares : TableManager → List RelVar → List Entry → Type 0
Declares m [] [] = Unit
Declares m [] (e ∷ es) = ⊥
Declares m (r ∷ rs) [] = ⊥
Declares m (r ∷ rs) (e ∷ es) = DeclaresOne m r e × Declares m rs es

variable-IsVarName : (r : RelVar) → IsVarName r (variable r)
variable-IsVarName r = by_name r.var_name
  where
    by_name : (o : Option String) → elim o as (λ _. Type 0) [
      | none ↦ elim o as (λ _. String) [ none ↦ r.rel_name | some v ↦ v ] ≡ r.rel_name
      | some v ↦ elim o as (λ _. String) [ none ↦ r.rel_name | some v ↦ v ] ≡ v
    ]
    by_name none = refl
    by_name (some v) = refl

IsVarName-eq : (r : RelVar) (x : String) → IsVarName r x → x ≡ variable r
IsVarName-eq r x h = by_name r.var_name h
  where
    by_name :
        (o : Option String)
        → elim o as (λ _. Type 0) [ none ↦ x ≡ r.rel_name | some v ↦ x ≡ v ]
        → x ≡ elim o as (λ _. String) [ none ↦ r.rel_name | some v ↦ v ]
    by_name none h = h
    by_name (some v) h = h

pub Declares-names :
    (m : TableManager) (rels : List RelVar) (es : List Entry)
    → Declares m rels es
    → map var_name_of es ≡ map variable rels
Declares-names m [] [] h = refl
Declares-names m [] (e ∷ es) h = absurd h
Declares-names m (r ∷ rs) [] h = absurd h
Declares-names m (r ∷ rs) (e ∷ es) (h, k) =
    rw (IsVarName-eq r e.var_name h.0, Declares-names m rs es k) refl

-- An added entry keeps the symbol table well formed, and comes last.
add_symbol_table_entry-IsScope :
    (m : TableManager) (symbols : List Entry) (r : RelVar)
    → IsScope m symbols
    → Safely
        (λ s. IsScope m s × ((e : Entry) × (s ≡ symbols ++ e ∷ []) × DeclaresOne m r e))
        (add_symbol_table_entry m symbols r.rel_name (variable r))
unfolding add_symbol_table_entry get_table_id
add_symbol_table_entry-IsScope m symbols r s =
    let name = variable r in
    elim (Option-cases (index_of name_of r.rel_name m.tables)) [
      | inl unknown ↦ rw unknown tt
      | inr (id, known) ↦ elim (Option-cases (index_of var_name_of name symbols)) [
        | inr (i, used) ↦ rw (known, add_symbol_table_entry, used) tt
        | inl new ↦ elim (Bool-cases (length symbols == max_symbols)) [
          | inl full ↦ rw (known, add_symbol_table_entry, new, full) tt
          | inr room ↦
              let (t, at, same) = index_of_sound name_of r.rel_name m.tables id known in
              let e : Entry = record { var_name = name; table_id = id } in
              rw (known, add_symbol_table_entry, new, room)
                (
                  record {
                    registered =
                        All-append _ symbols (e ∷ []) s.registered
                          (get_elem?-lt m.tables id at, tt);
                    distinct =
                        Distinct-append var_name_of symbols e s.distinct
                          (index_of-none var_name_of name symbols new);
                    few = ground (arith, length-append symbols (e ∷ []));
                  },
                  (e, refl, (variable-IsVarName r, (t, at, same))),
                )
        ]
      ]
    ]

-- From a well-formed symbol table, the FROM clause adds one entry for each table that it lists,
-- in order, with the name that is given to the variable or that of the table if none is, and with
-- the identifier under which a table of the listed name is registered, and keeps the symbol table
-- well formed, or it returns an error code; it never faults.
pub add_symbols-IsScope :
    (m : TableManager) (symbols : List Entry) (rels : List RelVar)
    → IsScope m symbols
    → Safely
        (λ s. IsScope m s × ((es : List Entry) × (s ≡ symbols ++ es) × Declares m rels es))
        (add_symbols m symbols rels)
unfolding add_symbols
add_symbols-IsScope m symbols [] s = (s, ([], rw append-nil refl, tt))
add_symbols-IsScope m symbols (r ∷ rs) s =
    Safely->>= _ _ (add_symbol_table_entry m symbols r.rel_name (variable r)) _
      (add_symbol_table_entry-IsScope m symbols r s)
      λ symbols' (h, (e, last, one)).
        Safely-map _ _ (add_symbols m symbols' rs)
          (λ x (k, (es, after, each)).
            (k, (e ∷ es, after ∙ rw (last, append_assoc) refl, (one, each))))
          (add_symbols-IsScope m symbols' rs h)

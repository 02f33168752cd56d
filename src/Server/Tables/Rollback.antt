-- ===== src/Server/Tables/Rollback.antt =====
-- A registration is all or nothing.
use p.Common.{
  ℕ, ◌≤◌, ◌≡◌, ◌≢◌, refl, sym, ap, ◌∙◌, subst, ◌⊎◌, inl, inr, Bool, true, false, none, some, List,
  [], ◌∷◌, ◌++◌, ok, err, Error, fail, duplicate_attr_err, duplicate_table_err, arith, length, map,
  Bool-cases, Option-cases, ◌==◌, ==_iff, get_elem?-append_self, set-append_self, append_assoc,
  append-nil, length-append,
}
use p.Common.Index.{
  index_of, Distinct, index_of-none, index_of-absent, Distinct-append, Distinct-before,
}
use p.Metadata.Types.{max_attrs, max_tables}
use p.Metadata.Tables.{
  Attribute, Table, TableManager, attr_name_of, register, register_stream, register_relation,
  add_table_attribute, get_table_id, new_table,
}
use p.Metadata.Tables.Invariant.{register-eq-ok}
use p.Metadata.Tables.Registration.{register_cases, drop_last}
use p.Parser.Nodes.{AttrSpec, TableSpec}
use p.Server.Reply.{Call, pure, refused, done, update, ◌>>=◌, ◌>>◌}
use p.Server.Tables.{attr_len, add_attributes, enter_relation, enter_stream}

abbrev pub attribute_of : AttrSpec → Attribute
attribute_of a = record { attr_name = a.attr_name; attr_type = a.attr_type; attr_len = attr_len a }

-- The table that a specification describes.
abbrev pub table_of : Bool → TableSpec → Table
table_of flag spec = record {
  table_name = spec.name;
  is_stream = flag;
  attrs = map attribute_of spec.attr_list;
}

-- The attributes fit a table, and have different names.
abbrev pub Fits : List Attribute → Type 0
Fits attrs = (length attrs ≤ max_attrs) × Distinct attr_name_of attrs

abbrev extended : Table → List Attribute → Table
extended t attrs = record t { attrs = t.attrs ++ attrs }

-- The registry of which the last table is `t`.
abbrev ending : List Table → Table → TableManager
ending ts t = record { tables = ts ++ t ∷ [] }

added :
    (ts : List Table) (t : Table) (a : AttrSpec)
    → (length t.attrs ≢ max_attrs)
    → (index_of attr_name_of a.attr_name t.attrs ≡ none)
    → add_table_attribute (ending ts t) (length ts) a.attr_name a.attr_type (attr_len a)
      ≡ ok (ending ts (extended t (attribute_of a ∷ [])))
unfolding add_table_attribute
added ts t a room new =
    let there = get_elem?-append_self ts t in
    let put = set-append_self ts t (extended t (attribute_of a ∷ [])) in
    let few : (length t.attrs == max_attrs) ≡ false = ground arith in rw (there, few, new, put) refl

-- An attribute that is refused takes the table with it.
dropped :
    (ts : List Table) (t : Table) (a : AttrSpec) (attrs : List AttrSpec) (e : Error)
    → add_table_attribute (ending ts t) (length ts) a.attr_name a.attr_type (attr_len a) ≡ err e
    → add_attributes (length ts) (a ∷ attrs) (ending ts t) ≡ refused e (record { tables = ts })
unfolding add_attributes
dropped ts t a attrs e h =
    rw (add_attributes, h, drop_last ts t (ending ts t) (length ts) refl) refl

full :
    (ts : List Table) (t : Table) (a : AttrSpec)
    → length t.attrs ≡ max_attrs
    → add_table_attribute (ending ts t) (length ts) a.attr_name a.attr_type (attr_len a) ≡ err fail
unfolding add_table_attribute
full ts t a h =
    let many : (length t.attrs == max_attrs) ≡ true = ground arith in
    rw (get_elem?-append_self ts t, many) refl

used :
    (ts : List Table) (t : Table) (a : AttrSpec) (i : ℕ)
    → length t.attrs ≢ max_attrs
    → index_of attr_name_of a.attr_name t.attrs ≡ some i
    → add_table_attribute (ending ts t) (length ts) a.attr_name a.attr_type (attr_len a)
      ≡ err duplicate_attr_err
unfolding add_table_attribute
used ts t a i room h =
    let few : (length t.attrs == max_attrs) ≡ false = ground arith in
    rw (get_elem?-append_self ts t, few, h) refl

passed :
    (ts : List Table) (t : Table) (a : AttrSpec) (attrs : List AttrSpec)
    → (length t.attrs ≢ max_attrs)
    → (index_of attr_name_of a.attr_name t.attrs ≡ none)
    → add_attributes (length ts) (a ∷ attrs) (ending ts t)
      ≡ add_attributes (length ts) attrs (ending ts (extended t (attribute_of a ∷ [])))
unfolding add_attributes
passed ts t a attrs room new = rw (add_attributes, added ts t a room new) refl

-- The attributes are all added, or the table is gone, when they do not fit.
Entered : List Table → Table → List AttrSpec → Type 0
unfolding add_attributes
Entered ts t attrs =
    (add_attributes (length ts) attrs (ending ts t)
        ≡ done tt (ending ts (extended t (map attribute_of attrs))))
      × Fits (t.attrs ++ map attribute_of attrs)
    ⊎ ((e : Error) × (add_attributes (length ts) attrs (ending ts t)
          ≡ refused e (record { tables = ts }))
        × ¬ Fits (t.attrs ++ map attribute_of attrs))

continued :
    (ts : List Table) (t : Table) (a : AttrSpec) (attrs : List AttrSpec)
    → add_attributes (length ts) (a ∷ attrs) (ending ts t)
      ≡ add_attributes (length ts) attrs (ending ts (extended t (attribute_of a ∷ [])))
    → Entered ts (extended t (attribute_of a ∷ [])) attrs
    → Entered ts t (a ∷ attrs)
unfolding Entered
continued ts t a attrs e h =
    let assoc = append_assoc t.attrs (attribute_of a ∷ []) (map attribute_of attrs) in
    elim h [
      | inl k ↦ inl (e ∙ (rw assoc at (k.0)), subst Fits assoc k.1)
      | inr (x, k, g) ↦ inr (x, e ∙ k, λ f. g (subst Fits (sym assoc) f))
    ]

add_attributes_cases :
    (ts : List Table) (t : Table) (attrs : List AttrSpec) → Fits t.attrs → Entered ts t attrs
unfolding Entered add_attributes
add_attributes_cases ts t [] f = inl (rw (append-nil t.attrs) refl, rw (append-nil t.attrs) f)
add_attributes_cases ts t (a ∷ attrs) f =
    let again = add_attributes_cases ts (extended t (attribute_of a ∷ [])) attrs in
    let rest = map attribute_of attrs in
    elim (Bool-cases (length t.attrs == max_attrs)) [
      | inl many ↦
          let at_max = (==_iff _ _).0 many in
          inr (
            fail,
            dropped ts t a attrs fail (full ts t a at_max),
            λ g. omega (arith, at_max, g.0, length-append t.attrs (attribute_of a ∷ rest)),
          )
      | inr few ↦
          let room : length t.attrs ≢ max_attrs = ground arith in
          elim (Option-cases (index_of attr_name_of a.attr_name t.attrs)) [
            | inr (i, taken) ↦ inr (
              duplicate_attr_err,
              dropped ts t a attrs duplicate_attr_err (used ts t a i room taken),
              λ g.
                  let gone =
                    index_of-absent attr_name_of a.attr_name t.attrs
                      (Distinct-before attr_name_of t.attrs (attribute_of a) rest g.1) in
                  cc,
            )
            | inl new ↦
                let fits' : Fits (t.attrs ++ attribute_of a ∷ []) = (
                  omega (arith, room, f.0, length-append t.attrs (attribute_of a ∷ [])),
                  Distinct-append attr_name_of t.attrs (attribute_of a) f.1
                      (index_of-none attr_name_of a.attr_name t.attrs new),
                ) in
                continued ts t a attrs (passed ts t a attrs room new) (again fits')
          ]
    ]

-- The specification can be registered: there is room for a table, the name is free, and the
-- attributes fit.
abbrev pub IsFree : TableManager → TableSpec → Type 0
IsFree m spec =
    (length m.tables ≢ max_tables)
    × (get_table_id m spec.name ≡ none)
    × Fits (map attribute_of spec.attr_list)

abbrev pub enter : Bool → TableSpec → Call TableManager ℕ
enter true = enter_stream
enter false = enter_relation

enter_lem :
    (flag : Bool) (spec : TableSpec) (m : TableManager)
    → enter flag spec m
      ≡ (update (λ n. register flag n spec.name) >>= λ id.
            add_attributes id spec.attr_list >> pure id)
          m
unfolding enter_stream enter_relation register_stream register_relation
enter_lem true spec m = refl
enter_lem false spec m = refl

entered :
    (flag : Bool) (spec : TableSpec) (m m' : TableManager)
    → register flag m spec.name ≡ ok (length m.tables, m')
    → (enter flag spec m
        ≡ (add_attributes (length m.tables) spec.attr_list >> pure (length m.tables))
            (ending m.tables (new_table flag spec.name)))
entered flag spec m m' e =
    let grown : m' ≡ ending m.tables (new_table flag spec.name) =
      ap (λ ts. record { tables = ts })
        (register-eq-ok flag m spec.name (length m.tables) m' e).3 in
    enter_lem flag spec m ∙ rw (update, e, ◌>>=◌, grown) refl

-- Registering a table with its attributes is all or nothing: if there is room for a table, its
-- name is free, and its attributes fit a table and have different names, the registry is extended
-- by just that table, under the next free identifier; otherwise the call is refused and the
-- registry is as before; it never crashes.
pub enter_cases :
    (flag : Bool) (spec : TableSpec) (m : TableManager)
    → IsFree m spec
        × (enter flag spec m
            ≡ done (length m.tables) (record { tables = m.tables ++ table_of flag spec ∷ [] }))
      ⊎ (¬ IsFree m spec) × ((e : Error) × (enter flag spec m ≡ refused e m))
unfolding Entered
enter_cases flag spec m = elim (register_cases flag m spec.name) [
  | inl (no_room, at_max) ↦
      inr
        ((λ free. free.0 at_max), (fail, enter_lem flag spec m ∙ rw (update, no_room, ◌>>=◌) refl))
  | inr (room, inl (taken, found)) ↦ inr (
    (λ free. found free.1),
    (duplicate_table_err, enter_lem flag spec m ∙ rw (update, taken, ◌>>=◌) refl),
  )
  | inr (room, inr ((m', made), new)) ↦
      elim (add_attributes_cases m.tables (new_table flag spec.name) spec.attr_list
        (omega arith, tt)) [
          | inl (all_in, fits) ↦
              inl ((room, new, fits), entered flag spec m m' made ∙ rw (◌>>◌, all_in, ◌>>=◌) refl)
          | inr (e, out, misfit) ↦ inr (
            (λ free. misfit free.2),
            (e, entered flag spec m m' made ∙ rw (◌>>◌, out, ◌>>=◌) refl),
          )
        ]
]

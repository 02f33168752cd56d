-- ===== src/Metadata/Tables/Lookup.antt =====
-- Lookups in the registry, and lookups after a registration or an added attribute.
use p.Common.{
  ℕ, ◌+◌, ◌<◌, ◌≡◌, ◌≢◌, ◌↔◌, sym, inl, inr, Bool, some, [], ◌∷◌, String, str_eq, eq_iff, ok, arith,
  length, get_elem?, if◌then◌else◌, Option-cases, get_elem?-append_left, get_elem?-append_self,
  get_elem?-lt, length-append, get_elem?-set_self, get_elem?-set_ne,
}
use p.Common.Index.{index_of-append, index_of_sound, index_of_unique}
use p.Metadata.Types.{Kind}
use p.Metadata.Tables.{
  Attribute, TableManager, name_of, attr_name_of, register, new_table, with_attr,
  add_table_attribute, get_table_id, get_num_attrs, get_attr_id, get_attr_type, get_attr_len,
  get_table_name, is_stream,
}
use p.Metadata.Tables.Invariant.{IsValid, register-eq-ok, add_table_attribute-eq-ok}

-- In a well-formed registry, an identifier has a name exactly when the lookup of that name finds
-- that identifier.
pub get_table_id-get_table_name :
    (m : TableManager) (id : ℕ) (name : String)
    → IsValid m
    → (get_table_name m id ≡ ok name) ↔ (get_table_id m name ≡ some id)
unfolding get_table_name get_table_id
get_table_id-get_table_name m id name v = (forth, back)
  where
    forth : get_table_name m id ≡ ok name → get_table_id m name ≡ some id
    forth e = elim (Option-cases (get_elem? m.tables id)) [
      | inl h ↦ ground arith
      | inr (t, h) ↦ ground (arith, index_of_unique name_of m.tables id v.tables_distinct h)
    ]

    back : get_table_id m name ≡ some id → get_table_name m id ≡ ok name
    back e = let (t, h, k) = index_of_sound name_of name m.tables id e in ground arith

-- A registration that succeeds gives the next free identifier: the new table is found under its
-- name, has the flag of the call and no attribute; every other name is looked up as before, and
-- every older identifier still means the same table.
pub register_lookup :
    (flag : Bool) (m : TableManager) (name : String) (id : ℕ) (m' : TableManager)
    → register flag m name ≡ ok (id, m')
    → (id ≡ length m.tables)
      × (is_stream m' id ≡ ok flag)
      × (get_num_attrs m' id ≡ ok 0)
      × (get_table_name m' id ≡ ok name)
      × ((s : String) → get_table_id m' s ≡ (if str_eq name s then some id else get_table_id m s))
      × ((j : ℕ) → j < id → get_elem? m'.tables j ≡ get_elem? m.tables j)
unfolding is_stream get_num_attrs get_table_name get_table_id
register_lookup flag m name id m' e =
    let (room, new, at, r) = register-eq-ok flag m name id m' e in
    let here = get_elem?-append_self m.tables (new_table flag name) in
    (
      at,
      ground (arith, here),
      ground (arith, here),
      ground (arith, here),
      (λ s.
          ground (arith, index_of-append name_of s m.tables (new_table flag name), eq_iff name s)),
      λ j h. rw r (get_elem?-append_left m.tables (new_table flag name ∷ []) j (omega arith)),
    )

-- An attribute that is added is found under its name, last in its table and with the type and the
-- length of the call; the other names of the table are looked up as before, and the other tables
-- are unchanged.
pub add_table_attribute_lookup :
    (m : TableManager) (id : ℕ) (name : String) (type : Kind) (len n : ℕ) (m' : TableManager)
    → add_table_attribute m id name type len ≡ ok m'
    → get_num_attrs m id ≡ ok n
    → (get_num_attrs m' id ≡ ok (n + 1))
      × (get_attr_id m' id name ≡ ok (some n))
      × (get_attr_type m' id n ≡ ok type)
      × (get_attr_len m' id n ≡ ok len)
      × ((s : String) → s ≢ name → get_attr_id m' id s ≡ get_attr_id m id s)
      × ((j : ℕ) → j ≢ id → get_elem? m'.tables j ≡ get_elem? m.tables j)
unfolding get_num_attrs get_attr_id get_attr_type get_attr_len
add_table_attribute_lookup m id name type len n m' e k =
    let (t, found, room, new, r) = add_table_attribute-eq-ok m id name type len m' e in
    let t' = with_attr t name type len in
    let attr : Attribute = record { attr_name = name; attr_type = type; attr_len = len } in
    let here : get_elem? m'.tables id ≡ some t' =
      rw r (get_elem?-set_self m.tables id t' (get_elem?-lt m.tables id found)) in
    let last = get_elem?-append_self t.attrs attr in
    let size : length t.attrs ≡ n = ground arith in
    (
      ground (arith, length-append t.attrs (attr ∷ [])),
      ground (arith, index_of-append attr_name_of name t.attrs attr, eq_iff name name),
      ground arith,
      ground arith,
      (λ s other. ground (arith, index_of-append attr_name_of s t.attrs attr, eq_iff name s)),
      (λ j other. rw r (get_elem?-set_ne m.tables id j t' (λ q. other (sym q)))),
    )

-- ===== src/Semantic/Clauses/Compatible.antt =====
-- The operands of a binary operator.
use p.Common.{
  ℕ, suc, ◌≡◌, ◌↔◌, refl, sym, ap, ◌∙◌, Bool, true, false, some, List, [], ◌∷◌, ◌++◌, ok, arith,
  length, get_elem?, Bool-cases, inl, inr, if◌then◌else◌, append_assoc, ◌==◌, get_elem?-append_here,
  map, length-append, ok-injective, length-map, ==_iff,
}
use mathlib.Core.Path.{ap₂}
use p.Metadata.Types.{Kind, same_kind, same_kind→eq}
use p.Metadata.Tables.{TableManager, Table, Attribute, get_attr_type, get_num_attrs}
use p.Semantic.Clauses.{same_types, schema_compatible}

-- The types of a table's attributes, in order.
abbrev pub kind_of : Attribute → Kind
kind_of x = x.attr_type

abbrev pub schema : Table → List Kind
schema t = map kind_of t.attrs

same_kind_refl : (k : Kind) → same_kind k k ≡ true
same_kind_refl k = ground arith

module _ (m : TableManager) (i j : ℕ) (t u : Table) (here : get_elem? m.tables i ≡ some t)
    (there : get_elem? m.tables j ≡ some u) where
  type_at :
      (k : ℕ) (n : ℕ) (x : Table) (pre : List Attribute) (a : Attribute) (post : List Attribute)
      → get_elem? m.tables n ≡ some x
      → x.attrs ≡ pre ++ a ∷ post
      → k ≡ length pre
      → get_attr_type m n k ≡ ok a.attr_type
  unfolding get_attr_type
  type_at k n x pre a post at p l =
      let e : get_elem? x.attrs k ≡ some a = rw (p, l) (get_elem?-append_here pre a post) in
      ground arith

  abbrev pub same_list : List Attribute → List Attribute → Bool
  same_list [] ys = true
  same_list (x ∷ xs) [] = true
  same_list (x ∷ xs) (y ∷ ys) = if same_kind x.attr_type y.attr_type then same_list xs ys else false

  same_types_lem :
      (k : ℕ) (pre xs post ys : List Attribute)
      → t.attrs ≡ pre ++ xs
      → u.attrs ≡ post ++ ys
      → k ≡ length pre
      → k ≡ length post
      → length xs ≡ length ys
      → same_types m i j (length xs) k ≡ ok (same_list xs ys)
  unfolding same_types
  same_types_lem k pre [] post ys p q l l' eq = refl
  same_types_lem k pre (x ∷ xs) post [] p q l l' eq = absurd (omega arith)
  same_types_lem k pre (x ∷ xs) post (y ∷ ys) p q l l' eq =
      rw (type_at k i t pre x xs here p l, type_at k j u post y ys there q l')
        (elim (Bool-cases (same_kind x.attr_type y.attr_type)) [
          | inl same ↦ rw same (
              same_types_lem (suc k) (pre ++ x ∷ []) xs (post ++ y ∷ []) ys (p ∙ rw append_assoc)
                (q ∙ rw append_assoc) (omega (arith, length-append pre (x ∷ [])))
                (omega (arith, length-append post (y ∷ []))) (omega arith))
          | inr other ↦ rw other refl
        ])

  same_list→eq :
      (xs ys : List Attribute)
      → length xs ≡ length ys
      → same_list xs ys ≡ true
      → map kind_of xs ≡ map kind_of ys
  same_list→eq [] [] l e = refl
  same_list→eq [] (y ∷ ys) l e = absurd (omega arith)
  same_list→eq (x ∷ xs) [] l e = absurd (omega arith)
  same_list→eq (x ∷ xs) (y ∷ ys) l e = elim (Bool-cases (same_kind x.attr_type y.attr_type)) [
    | inl same ↦ ap₂ ◌∷◌ (same_kind→eq _ _ same) (same_list→eq xs ys (omega arith) (rw same at e))
    | inr other ↦ cc (rw other at e)
  ]

  eq→same_list : (xs ys : List Attribute) → map kind_of xs ≡ map kind_of ys → same_list xs ys ≡ true
  eq→same_list [] ys e = refl
  eq→same_list (x ∷ xs) [] e = refl
  eq→same_list (x ∷ xs) (y ∷ ys) e =
      let head : x.attr_type ≡ y.attr_type = cc in
      let rest : map kind_of xs ≡ map kind_of ys = cc in
      rw (head, same_kind_refl) (eq→same_list xs ys rest)

  abbrev pub same_schema : Bool
  same_schema = if length t.attrs == length u.attrs then same_list t.attrs u.attrs else false

  pub schema_compatible_lem : schema_compatible m i j ≡ ok same_schema
  unfolding schema_compatible get_num_attrs
  schema_compatible_lem =
      rw (here, there)
        (elim (Bool-cases (length t.attrs == length u.attrs)) [
          | inl same ↦
              rw same
                (same_types_lem 0 [] t.attrs [] u.attrs refl refl refl refl ((==_iff _ _).0 same))
          | inr other ↦ rw other refl
        ])

  pub same_schema→eq : same_schema ≡ true → schema t ≡ schema u
  same_schema→eq e = elim (Bool-cases (length t.attrs == length u.attrs)) [
    | inl same ↦ same_list→eq t.attrs u.attrs ((==_iff _ _).0 same) (rw same at e)
    | inr other ↦ cc (rw other at e)
  ]

  eq→same_schema : schema t ≡ schema u → same_schema ≡ true
  eq→same_schema e =
      let size : length t.attrs ≡ length u.attrs =
        sym (length-map kind_of t.attrs) ∙ ap length e ∙ length-map kind_of u.attrs in
      rw ((==_iff (length t.attrs) (length u.attrs)).1 size) (eq→same_list t.attrs u.attrs e)

  -- Two registered tables are compatible exactly when they have the same types in the same order.
  pub schema_compatible_iff : (schema_compatible m i j ≡ ok true) ↔ (schema t ≡ schema u)
  schema_compatible_iff = (
    (λ e. same_schema→eq (ok-injective (sym schema_compatible_lem ∙ e))),
    (λ e. schema_compatible_lem ∙ ap ok (eq→same_schema e)),
  )

-- ===== src/Semantic/Clauses/Whole.antt =====
-- A whole query: what the interpreter returns is well formed, and it never faults.
use p.Common.{
  ℕ, ◌+◌, ◌<◌, ◌≤◌, ◌≡◌, refl, sym, ap, subst, ◌∙◌, Option, List, [], ◌∷◌, arith, length, Safely,
  Safely->>=, map, range_from, All, All-get, Bool-cases, inl, inr, leb, length-map, get_elem?-some,
}
use p.Metadata.Tables.{TableManager}
use p.Parser.Nodes.{Node, RelVar, SfwBlock, RelToStrOp}
use p.Semantic.Query.{WindowSpec, Query, sfw_query, max_pred, max_proj, max_group_attrs}
use p.Semantic.Scope.{Entry, var_name_of, variable, add_symbols, tables_of}
use p.Semantic.Scope.Resolve.{IsScope, IsRegistered}
use p.Semantic.Scope.Symbols.{Declares, Declares-names, add_symbols-IsScope}
use p.Semantic.Exprs.{num_exprs}
use p.Semantic.Exprs.Typing.{IsTyped, IsTypedCondn, IsParsed, HasFirst}
use p.Semantic.Windows.{from_clause}
use p.Semantic.Windows.Means.{WindowFits}
use p.Semantic.Windows.From.{IsAttr, Windowed, from_clause-Windowed}
use p.Semantic.Clauses.{where_clause, group_by_clause, select_clause, interpret_sfw}
use p.Semantic.Clauses.Bounds.{
  IsFilled, IsParsedCondn, size_condns, size_terms, where_clause-IsFilled, group_by_clause-IsFilled,
  proj_terms-IsFilled,
}
use p.Semantic.Clauses.Star.{all_exprs, all_exprs-IsTyped, star_lem}

-- What the grammar guarantees of a select-from-where block, and that its numbers stay in bounds:
-- the time windows fit an `int`, and the pool of expressions holds the expressions of the query
-- beside a full array of projections.
pub record IsParsedBlock (b : SfwBlock) : Type 0 where
  pub some_table : 0 < length b.rel_list
  pub windows_fit : All (λ r. WindowFits r.window_spec) b.rel_list
  pub conditions : All IsParsedCondn b.condition_list
  pub terms : All IsParsed b.select_clause.proj_term_list
  pub room :
      size_condns b.condition_list + size_terms b.select_clause.proj_term_list + max_proj
      ≤ num_exprs

-- The invariant of an interpreted select-from-where query (query.h).
pub record IsSfwQuery (m : TableManager) (b : SfwBlock) (q : Query) : Type 0 where
  pub symbols : List Entry
  pub scope : IsScope m symbols
  pub declared : Declares m b.rel_list symbols
  pub kind : q.kind ≡ sfw_query
  pub tables : q.ref_tables ≡ tables_of symbols
  pub variables : q.from_clause_tables ≡ range_from 0 (length q.ref_tables)
  pub windows : Windowed m symbols 0 b.rel_list q.win_spec
  pub predicates : IsFilled (IsTypedCondn m symbols) max_pred q.preds
  pub projections : IsFilled (IsTyped m symbols) max_proj q.proj_exprs
  pub groups : IsFilled (IsAttr m symbols) max_group_attrs q.gby_attrs
  pub distinct : q.b_distinct ≡ b.select_clause.b_distinct

-- Every registered table has an attribute, as the grammar of table declarations has it.
abbrev pub HasAttrs : TableManager → Type 0
HasAttrs m = All (λ t. 0 < length t.attrs) m.tables

module _ (m : TableManager) (full : HasAttrs m) where
  -- The first attribute of the first table exists.
  first_of_scope :
      (symbols : List Entry) → IsScope m symbols → 0 < length symbols → HasFirst m symbols
  first_of_scope symbols s h =
      let (e, at) = get_elem?-some symbols 0 h in
      let (t, here) =
        get_elem?-some m.tables e.table_id
          (All-get (λ x. IsRegistered m x.table_id) symbols 0 s.registered at) in
      let (x, there) =
        get_elem?-some t.attrs 0
          (All-get (λ t. 0 < length t.attrs) m.tables e.table_id full here) in
      (
        x.attr_type,
        record {
          entry = e;
          table = t;
          attribute = x;
          entry_at = at;
          table_at = here;
          attribute_at = there;
          typed = refl;
        },
      )

  module _ (symbols : List Entry) (s : IsScope m symbols) (first : HasFirst m symbols) where
    select_clause-IsFilled :
        (es : List Node) (n : ℕ)
        → All IsParsed es
        → n + size_terms es + max_proj ≤ num_exprs
        → Safely
            (λ r. IsFilled (IsTyped m symbols) max_proj r.0)
            (select_clause m symbols (range_from 0 (length symbols)) es n)
    unfolding select_clause
    select_clause-IsFilled [] n parsed room =
        rw (star_lem m symbols n s (omega arith))
          (elim (Bool-cases (leb (0 + length (all_exprs m 0 symbols)) max_proj)) [
            | inl fits ↦
                rw fits (ground arith, all_exprs-IsTyped m symbols s 0 [] symbols refl refl)
            | inr over ↦ rw over tt
          ])
    select_clause-IsFilled (e ∷ es) n parsed room =
        proj_terms-IsFilled m symbols s first (e ∷ es) [] n parsed (omega arith, tt) (omega arith)

length-symbols :
    (symbols : List Entry) (rels : List RelVar)
    → map var_name_of symbols ≡ map variable rels
    → length symbols ≡ length rels
length-symbols symbols rels e =
    sym (length-map var_name_of symbols) ∙ ap length e ∙ length-map variable rels

-- Interpreting a select-from-where block over a registry whose tables all have an attribute, when
-- the block is as the grammar has it, its time windows fit an int and the pool of expressions has
-- room for it, never faults: it returns an error code, or a query whose variables are those of
-- the FROM clause, each once and in order and for the table that is listed, whose windows are as
-- written, whose predicates, projections and grouping attributes are well typed over the
-- registered tables, and whose arrays are not overrun.
pub interpret_sfw-IsSfwQuery :
    (m : TableManager) (w : WindowSpec) (b : SfwBlock) (r2s : Option RelToStrOp) (q : Query)
    → HasAttrs m
    → IsParsedBlock b
    → Safely (IsSfwQuery m b) (interpret_sfw m w b r2s q)
unfolding interpret_sfw
interpret_sfw-IsSfwQuery m w b r2s q full p =
    Safely->>= _ _ (add_symbols m [] b.rel_list) _
      (add_symbols-IsScope m [] b.rel_list
        (record { registered = tt; distinct = tt; few = omega arith }))
      λ symbols (scope, (es, e, listed)).
        let declared = subst (Declares m b.rel_list) (sym e) listed in
        let names = Declares-names m b.rel_list symbols declared in
        let size = length-symbols symbols b.rel_list names in
        let first = first_of_scope m full symbols scope (omega (arith, size, p.some_table)) in
        Safely->>= _ _ (from_clause m symbols b.rel_list [] [] w) _
          (from_clause-Windowed m symbols b.rel_list w scope names p.windows_fit)
          λ from hf.
            Safely->>= _ _ (where_clause m symbols b.condition_list [] 0) _
              (where_clause-IsFilled m symbols scope first b.condition_list [] 0 p.conditions
                (omega arith, tt) (omega (arith, p.room)))
              λ preds hp.
                Safely->>= _ _ (group_by_clause m symbols b.group_list []) _
                  (group_by_clause-IsFilled m symbols scope b.group_list [] (omega arith, tt))
                  λ gby hg.
                    Safely->>= _ _
                      (select_clause m symbols from.0 b.select_clause.proj_term_list preds.1) _
                      (subst
                        (λ vars.
                          Safely (λ r. IsFilled (IsTyped m symbols) max_proj r.0)
                            (select_clause m symbols vars b.select_clause.proj_term_list preds.1))
                        (ap (range_from 0) size ∙ sym hf.0)
                        (select_clause-IsFilled m full symbols scope first
                          b.select_clause.proj_term_list preds.1 p.terms
                          (omega (arith, hp.1, p.room))))
                      λ proj hs. record {
                        symbols = symbols;
                        scope = scope;
                        declared = declared;
                        kind = refl;
                        tables = refl;
                        variables =
                            hf.0
                            ∙ ap (range_from 0) (sym (length-map (λ e. e.table_id) symbols ∙ size));
                        windows = hf.1;
                        predicates = hp.0;
                        projections = hs;
                        groups = hg;
                        distinct = refl;
                      }

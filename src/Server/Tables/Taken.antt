-- ===== src/Server/Tables/Taken.antt =====
-- A table of which the name is taken is not entered.
use p.Common.{
  ◌≡◌, ◌≢◌, refl, subst, inl, inr, Bool, true, false, List, [], ◌∷◌, ◌++◌, String, Error, All,
}
use p.Common.Index.{index_of-none}
use p.Parser.Nodes.{Tree, TableSpec}
use p.Metadata.Tables.{Table, TableManager, name_of, get_table_id}
use p.Server.Reply.{refused}
use p.Server.Tables.{enter_table}
use p.Server.Tables.Rollback.{enter, enter_cases, table_of}
use p.Server.Replies.{Yields}

-- The name is that of one of the tables.
abbrev pub Taken : String → List Table → Type 0
Taken name ts = ¬ All (λ t. name_of t ≢ name) ts

-- The tree specifies a table, of which the name is taken.
abbrev pub Specified : Tree → TableManager → Type 0
Specified (Tree.rel_spec spec) m = Taken spec.name m.tables
Specified (Tree.str_spec spec) m = Taken spec.name m.tables
Specified (Tree.cont_query q) m = ⊥

All-left : (P : Table → Type 0) (xs ys : List Table) → All P (xs ++ ys) → All P xs
All-left P [] ys h = tt
All-left P (x ∷ xs) ys h = (h.0, All-left P xs ys h.1)

Taken-last : (ts : List Table) (t : Table) → Taken (name_of t) (ts ++ t ∷ [])
Taken-last [] t h = h.0 refl
Taken-last (x ∷ xs) t h = Taken-last xs t h.1

pub Specified-grows :
    (tree : Tree) (m m' : TableManager) (more : List Table)
    → m'.tables ≡ m.tables ++ more
    → Specified tree m
    → Specified tree m'
Specified-grows (Tree.rel_spec spec) m m' more e h =
    λ all. h (All-left _ m.tables more (subst (All λ t. name_of t ≢ spec.name) e all))
Specified-grows (Tree.str_spec spec) m m' more e h =
    λ all. h (All-left _ m.tables more (subst (All λ t. name_of t ≢ spec.name) e all))
Specified-grows (Tree.cont_query q) m m' more e h = h

enter-Taken :
    (flag : Bool) (spec : TableSpec) (m : TableManager)
    → Yields (λ id m'. Taken spec.name m'.tables) (enter flag spec m)
enter-Taken flag spec m = elim (enter_cases flag spec m) [
  | inl (free, made) ↦ rw made (Taken-last m.tables (table_of flag spec))
  | inr (taken, (e, out)) ↦ rw out tt
]

pub enter_table-Specified :
    (tree : Tree) (m : TableManager) → Yields (λ id m'. Specified tree m') (enter_table tree m)
enter_table-Specified (Tree.rel_spec spec) m = enter-Taken false spec m
enter_table-Specified (Tree.str_spec spec) m = enter-Taken true spec m
enter_table-Specified (Tree.cont_query q) m = tt

enter-refused :
    (flag : Bool) (spec : TableSpec) (m : TableManager)
    → Taken spec.name m.tables
    → (e : Error) × (enter flag spec m ≡ refused e m)
unfolding get_table_id
enter-refused flag spec m h = elim (enter_cases flag spec m) [
  | inl (free, made) ↦ absurd (h (index_of-none name_of spec.name m.tables free.1))
  | inr (taken, out) ↦ out
]

pub enter_table-refused :
    (tree : Tree) (m : TableManager)
    → Specified tree m
    → (e : Error) × (enter_table tree m ≡ refused e m)
enter_table-refused (Tree.rel_spec spec) m h = enter-refused false spec m h
enter_table-refused (Tree.str_spec spec) m h = enter-refused true spec m h
enter_table-refused (Tree.cont_query q) m h = absurd h

-- ===== src/Semantic/Windows/From.antt =====
-- The FROM clause against its declarative reading.
use p.Common.{
  ℕ, suc, ◌≤◌, ◌≡◌, refl, sym, subst, ◌∙◌, ◌⊎◌, inl, inr, Bool, true, false, Option, none, some,
  List, [], ◌∷◌, ◌++◌, String, Result, ok, arith, length, get_elem?, Safely, Safely->>=, Safely-map,
  Bool-cases, map, append_assoc, append-nil, range_from, get_elem?-map, get_elem?-some, All,
  All-get, ◌>>=◌, or_fault, or_err, unknown_var_err, get_elem?-append_here, lt→ltb, leb, ◌==◌,
  length-append, All-append,
}
use p.Common.Index.{index_of, index_of_unique}
use p.Metadata.Types.{max_tables}
use p.Metadata.Tables.{Table, TableManager, is_stream}
use p.Parser.Nodes.{AttrRef, RelVar, Window, row_win, time_win, now_win, unbounded_win, part_win}
use p.Semantic.Query.{Attr, WindowSpec, partition, max_partn_attrs}
use p.Semantic.Scope.{Entry, var_name_of, interpret_var_name, interpret_attr, variable}
use p.Semantic.Scope.Resolve.{IsScope, IsRegistered, Means, interpret_attr-Means}
use p.Semantic.Windows.Means.{WindowFits, WindowMeans, interpret_win-WindowMeans}
use p.Semantic.Windows.{interpret_range_win, partn_attrs, interpret_win, window_of, from_clause}

-- The attribute is one of a table of the query.
abbrev pub IsAttr : TableManager → List Entry → Attr → Type 0
IsAttr m symbols a = (r : AttrRef) × Means m symbols r a

-- A window partitions by at most as many attributes as its array holds, all of the query.
abbrev pub IsWindow : TableManager → List Entry → WindowSpec → Type 0
IsWindow m symbols (partition n attrs) =
    (length attrs ≤ max_partn_attrs) × All (IsAttr m symbols) attrs
IsWindow m symbols w = Unit

module _ (m : TableManager) (symbols : List Entry) (s : IsScope m symbols) where
  partn_attrs-IsWindow :
      (rs : List AttrRef) (done : List Attr)
      → length done ≤ max_partn_attrs
      → All (IsAttr m symbols) done
      → Safely
          (λ a. (length a ≤ max_partn_attrs) × All (IsAttr m symbols) a)
          (partn_attrs m symbols rs done)
  unfolding partn_attrs
  partn_attrs-IsWindow [] done few each = (few, each)
  partn_attrs-IsWindow (r ∷ rs) done few each =
      Safely->>= _ _ (interpret_attr m symbols r) _ (interpret_attr-Means m symbols r s) λ a h.
        elim (Bool-cases (leb max_partn_attrs (length done))) [
          | inl full ↦ rw full tt
          | inr room ↦ rw room (
              partn_attrs-IsWindow rs (done ++ a ∷ []) (ground (arith, length-append done (a ∷ [])))
                (All-append _ done (a ∷ []) each ((r, h), tt)))
        ]

  -- Over a well-formed symbol table, a window whose length fits an int is refused with an error
  -- code, or it partitions by at most as many attributes as its array holds, all of tables of the
  -- query.
  pub interpret_win-IsWindow :
      (w : Option Window) → WindowFits w → Safely (IsWindow m symbols) (interpret_win m symbols w)
  unfolding interpret_win interpret_range_win
  interpret_win-IsWindow none h = tt
  interpret_win-IsWindow (some (row_win n)) h = tt
  interpret_win-IsWindow (some (time_win t)) h = rw (lt→ltb _ _ h) tt
  interpret_win-IsWindow (some now_win) h = tt
  interpret_win-IsWindow (some unbounded_win) h = tt
  interpret_win-IsWindow (some (part_win attrs n)) h =
      Safely->>= _ _ (partn_attrs m symbols attrs []) _
        (partn_attrs-IsWindow attrs [] (omega arith) tt) λ a k. k

-- Whether the table of variable `v` is a stream.
abbrev pub is_stream_var : TableManager → List Entry → ℕ → Result Bool
is_stream_var m symbols v = or_fault (get_elem? symbols v) >>= λ e. is_stream m e.table_id

-- The tables of the FROM clause from variable `v` on, and their windows: a stream has the window
-- that its specification means, the unbounded one if there is none, and a relation has none.
abbrev pub Windowed : TableManager → List Entry → ℕ → List RelVar → List WindowSpec → Type 0
Windowed m symbols v [] [] = Unit
Windowed m symbols v [] (w ∷ ws) = ⊥
Windowed m symbols v (r ∷ rs) [] = ⊥
Windowed m symbols v (r ∷ rs) (w ∷ ws) =
    ((is_stream_var m symbols v ≡ ok true) × WindowMeans m symbols r.window_spec w
      ⊎ (is_stream_var m symbols v ≡ ok false) × (r.window_spec ≡ none))
    × Windowed m symbols (suc v) rs ws

-- What the loop adds to the variables and to the windows.
abbrev Extends :
    TableManager
    → List Entry
    → List RelVar
    → List ℕ
    → List WindowSpec
    → List ℕ × List WindowSpec
    → Type 0
Extends m symbols rs vars wins r =
    (ws : List WindowSpec) × (r.0 ≡ vars ++ range_from (length vars) (length rs))
    × (r.1 ≡ wins ++ ws)
    × Windowed m symbols (length vars) rs ws

abbrev HeadWindowed : TableManager → List Entry → ℕ → Option Window → WindowSpec → Type 0
HeadWindowed m symbols v spec w =
    (is_stream_var m symbols v ≡ ok true) × WindowMeans m symbols spec w
    ⊎ (is_stream_var m symbols v ≡ ok false) × (spec ≡ none)

Extends-step :
    (m : TableManager) (symbols : List Entry) (r : RelVar) (rs : List RelVar) (vars : List ℕ)
    (wins : List WindowSpec) (w : WindowSpec) (x : List ℕ × List WindowSpec)
    → HeadWindowed m symbols (length vars) r.window_spec w
    → Extends m symbols rs (vars ++ length vars ∷ []) (wins ++ w ∷ []) x
    → Extends m symbols (r ∷ rs) vars wins x
Extends-step m symbols r rs vars wins w x h (ws, p, q, k) =
    let last : length (vars ++ length vars ∷ []) ≡ suc (length vars) =
      omega (arith, length-append vars (length vars ∷ [])) in
    (
      w ∷ ws,
      p ∙ rw (last, append_assoc),
      q ∙ rw append_assoc,
      (h, subst (λ v. Windowed m symbols v rs ws) last k),
    )

longer :
    (xs : List String) (ys : List ℕ) (x : String) (y : ℕ)
    → length ys ≡ length xs
    → length (ys ++ y ∷ []) ≡ length (xs ++ x ∷ [])
longer xs ys x y l = omega (arith, length-append xs (x ∷ []), length-append ys (y ∷ []))

module _ (m : TableManager) (symbols : List Entry) (s : IsScope m symbols) where
  -- The entry of the variable that a listed table declares, and its table.
  declared :
      (n : ℕ) (pre : List String) (name : String) (post : List String)
      → map var_name_of symbols ≡ pre ++ name ∷ post
      → n ≡ length pre
      → (e : Entry) × (t : Table) × (interpret_var_name symbols name ≡ ok n)
        × (get_elem? symbols n ≡ some e)
        × (get_elem? m.tables e.table_id ≡ some t)
  unfolding interpret_var_name
  declared n pre name post p l =
      let (e, at, same) =
        get_elem?-map var_name_of symbols n (rw (p, l) (get_elem?-append_here pre name post)) in
      let (t, here) =
        get_elem?-some m.tables e.table_id
          (All-get (λ x. IsRegistered m x.table_id) symbols n s.registered at) in
      (
        e,
        t,
        subst (λ k. or_err (index_of var_name_of k symbols) unknown_var_err ≡ ok n) same
            (rw (index_of_unique var_name_of symbols n s.distinct at)),
        at,
        here,
      )

  -- The window of one listed table.
  window_of-Windowed :
      (v : ℕ) (spec : Option Window) (flag : Bool) (w : WindowSpec)
      → is_stream_var m symbols v ≡ ok flag
      → WindowFits spec
      → Safely (HeadWindowed m symbols v spec) (window_of m symbols flag spec w)
  window_of-Windowed v spec true w h fits =
      Safely-map _ _ (interpret_win m symbols spec) (λ a k. inl (h, k))
        (interpret_win-WindowMeans m symbols s spec fits)
  window_of-Windowed v none false w h fits = inr (h, refl)
  window_of-Windowed v (some spec) false w h fits = tt

  stream_of :
      (e : Entry) (t : Table)
      → get_elem? m.tables e.table_id ≡ some t
      → is_stream m e.table_id ≡ ok t.is_stream
  unfolding is_stream
  stream_of e t here = rw here

  from_clause-Extends :
      (pre : List String) (rs : List RelVar) (vars : List ℕ) (wins : List WindowSpec)
      (w : WindowSpec)
      → map var_name_of symbols ≡ pre ++ map variable rs
      → length vars ≡ length pre
      → All (λ r. WindowFits r.window_spec) rs
      → Safely (Extends m symbols rs vars wins) (from_clause m symbols rs vars wins w)
  unfolding from_clause
  from_clause-Extends pre [] vars wins w p l fits = ([], rw append-nil, rw append-nil, tt)
  from_clause-Extends pre (r ∷ rs) vars wins w p l fits =
      let (e, t, named, at, here) = declared (length vars) pre (variable r) (map variable rs) p l in
      let flag : is_stream_var m symbols (length vars) ≡ ok t.is_stream =
        rw at (stream_of e t here) in
      rw named (
        rw at (
          rw (stream_of e t here) (
            Safely->>= _ _ (window_of m symbols t.is_stream r.window_spec w) _
              (window_of-Windowed (length vars) r.window_spec t.is_stream w flag fits.0)
              λ win h. elim (Bool-cases (length vars == max_tables)) [
                | inl full ↦ rw full tt
                | inr room ↦ rw room (
                    Safely-map _ _ (from_clause m symbols rs _ _ win)
                      (λ x. Extends-step m symbols r rs vars wins win x h)
                      (from_clause-Extends (pre ++ variable r ∷ []) rs (vars ++ length vars ∷ [])
                        (wins ++ win ∷ []) win (p ∙ rw append_assoc)
                        (longer pre vars (variable r) (length vars) l) fits.1))
              ])))

-- Over the well-formed symbol table of the FROM clause, whose time windows fit an int,
-- interpreting the clause never faults; if it succeeds, the variables are those of the symbol
-- table, each once and in order; a stream has the window that is written, of so many rows, of so
-- many seconds, a minute being 60, an hour 3600 and a day 86400 of them, of the last instant,
-- unbounded, or of so many rows for the attributes that are listed, in that order, and the
-- unbounded one if none is written; and a relation has none written.
pub from_clause-Windowed :
    (m : TableManager) (symbols : List Entry) (rs : List RelVar) (w : WindowSpec)
    → IsScope m symbols
    → map var_name_of symbols ≡ map variable rs
    → All (λ r. WindowFits r.window_spec) rs
    → Safely
        (λ x. (x.0 ≡ range_from 0 (length rs)) × Windowed m symbols 0 rs x.1)
        (from_clause m symbols rs [] [] w)
from_clause-Windowed m symbols rs w s p fits =
    Safely-map _ _ (from_clause m symbols rs [] [] w)
      (λ x h. (h.1, subst (Windowed m symbols 0 rs) (sym h.2) h.3))
      (from_clause-Extends m symbols s [] rs [] [] w p refl fits)

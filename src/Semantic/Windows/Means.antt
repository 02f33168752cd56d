-- ===== src/Semantic/Windows/Means.antt =====
-- A window against what is written.
use p.Common.{
  ℕ, ◌*◌, ◌<◌, ◌≡◌, refl, sym, ap, subst, ◌∙◌, inl, inr, Option, none, some, List, [], ◌∷◌, ◌++◌,
  arith, length, Safely, Safely->>=, Safely-map, Bool-cases, append_assoc, append-nil, lt→ltb, leb,
}
use p.Metadata.Tables.{TableManager}
use p.Parser.Nodes.{
  AttrRef, TimeSpec, TimeUnit, no_time_unit, second, minute, hour, day, Window, row_win, time_win,
  now_win, unbounded_win, part_win,
}
use p.Semantic.Query.{Attr, WindowSpec, range, row, now, unbounded, partition, max_partn_attrs}
use p.Semantic.Scope.{Entry, interpret_attr}
use p.Semantic.Scope.Resolve.{IsScope, Means, interpret_attr-Means}
use p.Semantic.Windows.{int_limit, seconds_per, interpret_range_win, partn_attrs, interpret_win}

-- The length of a time window, in seconds, is an `int`.
abbrev pub WindowFits : Option Window → Type 0
WindowFits (some (time_win t)) = t.len * seconds_per t.unit < int_limit
WindowFits w = Unit

-- The seconds that a time specification means.
abbrev in_seconds : TimeSpec → ℕ
in_seconds t = elim t.unit [
  | no_time_unit ↦ t.len
  | second ↦ t.len
  | minute ↦ t.len * 60
  | hour ↦ t.len * 3600
  | day ↦ t.len * 86400
]

-- The attributes that are written, one after the other.
abbrev pub AllMean : TableManager → List Entry → List AttrRef → List Attr → Type 0
AllMean m symbols [] [] = Unit
AllMean m symbols [] (a ∷ attrs) = ⊥
AllMean m symbols (r ∷ rs) [] = ⊥
AllMean m symbols (r ∷ rs) (a ∷ attrs) = Means m symbols r a × AllMean m symbols rs attrs

-- The window that is written: the unbounded one if there is none, a number of rows, a length in
-- seconds, or the last rows for each value of the attributes that are listed.
abbrev pub WindowMeans : TableManager → List Entry → Option Window → WindowSpec → Type 0
WindowMeans m symbols none w = w ≡ unbounded
WindowMeans m symbols (some (row_win n)) w = w ≡ row n
WindowMeans m symbols (some (time_win t)) w = w ≡ range (in_seconds t)
WindowMeans m symbols (some now_win) w = w ≡ now
WindowMeans m symbols (some unbounded_win) w = w ≡ unbounded
WindowMeans m symbols (some (part_win rs n)) w =
    (attrs : List Attr) × (w ≡ partition n attrs) × AllMean m symbols rs attrs

module _ (m : TableManager) (symbols : List Entry) (s : IsScope m symbols) where
  partn_attrs-AllMean :
      (rs : List AttrRef) (done : List Attr)
      → Safely
          (λ a. (attrs : List Attr) × (a ≡ done ++ attrs) × AllMean m symbols rs attrs)
          (partn_attrs m symbols rs done)
  unfolding partn_attrs
  partn_attrs-AllMean [] done = ([], rw append-nil refl, tt)
  partn_attrs-AllMean (r ∷ rs) done =
      Safely->>= _ _ (interpret_attr m symbols r) _ (interpret_attr-Means m symbols r s) λ a h.
        elim (Bool-cases (leb max_partn_attrs (length done))) [
          | inl full ↦ rw full tt
          | inr room ↦ rw room (
              Safely-map _ _ (partn_attrs m symbols rs (done ++ a ∷ []))
                (λ x (attrs, e, each). (a ∷ attrs, e ∙ rw append_assoc refl, (h, each)))
                (partn_attrs-AllMean rs (done ++ a ∷ [])))
        ]

  in_seconds_lem : (t : TimeSpec) → t.len * seconds_per t.unit ≡ in_seconds t
  in_seconds_lem t = by_unit t.unit
    where
      by_unit :
          (u : TimeUnit)
          → t.len * seconds_per u ≡ elim u as (λ _. ℕ) [
            | no_time_unit ↦ t.len
            | second ↦ t.len
            | minute ↦ t.len * 60
            | hour ↦ t.len * 3600
            | day ↦ t.len * 86400
          ]
      by_unit no_time_unit = omega arith
      by_unit second = omega arith
      by_unit minute = refl
      by_unit hour = refl
      by_unit day = refl

  pub interpret_win-WindowMeans :
      (w : Option Window)
      → WindowFits w
      → Safely (WindowMeans m symbols w) (interpret_win m symbols w)
  unfolding interpret_win interpret_range_win
  interpret_win-WindowMeans none h = refl
  interpret_win-WindowMeans (some (row_win n)) h = refl
  interpret_win-WindowMeans (some (time_win t)) h = rw (lt→ltb _ _ h) (ap range (in_seconds_lem t))
  interpret_win-WindowMeans (some now_win) h = refl
  interpret_win-WindowMeans (some unbounded_win) h = refl
  interpret_win-WindowMeans (some (part_win rs n)) h =
      Safely->>= _ _ (partn_attrs m symbols rs []) _ (partn_attrs-AllMean rs [])
        λ a (attrs, e, each). (a, refl, subst (AllMean m symbols rs) (sym e) each)

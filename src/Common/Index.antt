-- ===== src/Common/Index.antt =====
-- The search loops over a table of named entries: the first entry with a given name.
use mathlib.Core.Option
use p.Common.{
  ℕ, zero, suc, ◌≡◌, refl, ◌≢◌, Option, none, some, List, [], ◌∷◌, ◌++◌, String, str_eq, eq_iff,
  arith, if◌then◌else◌, length, get_elem?, All, All-append, All-init, All-get, All-set, All-map,
  init, set, some-inj, sym, ap, ◌∙◌, get_elem?-append_here,
}

module _ {A : Type 0} (name : A → String) where
  -- `for (i = 0; i < n; i++) if (strcmp (xs [i].name, s) == 0) return true; return false;`
  abbrev pub index_of : String → List A → Option ℕ
  index_of s [] = none
  index_of s (x ∷ xs) = if str_eq (name x) s then some 0 else Option.map suc (index_of s xs)

  -- No two entries have one name.
  abbrev pub Distinct : List A → Type 0
  Distinct [] = Unit
  Distinct (x ∷ xs) = All (λ y. name y ≢ name x) xs × Distinct xs

module _ {A : Type 0} (name : A → String) where
  pub index_of_sound :
      (s : String) (xs : List A) (i : ℕ)
      → index_of name s xs ≡ some i
      → (x : A) × (get_elem? xs i ≡ some x) × (name x ≡ s)
  index_of_sound s [] i e = cc
  index_of_sound s (x ∷ xs) zero e = (x, refl, ground (arith, eq_iff (name x) s))
  index_of_sound s (x ∷ xs) (suc i) e = index_of_sound s xs i (ground (arith, eq_iff (name x) s))

  pub index_of-none :
      (s : String) (xs : List A) → index_of name s xs ≡ none → All (λ x. name x ≢ s) xs
  index_of-none s [] e = tt
  index_of-none s (x ∷ xs) e = ground (arith, eq_iff (name x) s, index_of-none s xs)

  pub index_of-absent :
      (s : String) (xs : List A) → All (λ x. name x ≢ s) xs → index_of name s xs ≡ none
  index_of-absent s [] h = refl
  index_of-absent s (x ∷ xs) h = ground (arith, eq_iff (name x) s, index_of-absent s xs h.1)

  pub index_of-append :
      (s : String) (xs : List A) (y : A)
      → index_of name s (xs ++ y ∷ []) ≡ elim (index_of name s xs) [
        | some i ↦ some i
        | none ↦ if str_eq (name y) s then some (length xs) else none
      ]
  index_of-append s [] y = ground arith
  index_of-append s (x ∷ xs) y = ground (arith, index_of-append s xs y)

  pub index_of_unique :
      (xs : List A) (i : ℕ) {x : A}
      → Distinct name xs
      → get_elem? xs i ≡ some x
      → index_of name (name x) xs ≡ some i
  index_of_unique [] i d e = cc
  index_of_unique (y ∷ xs) zero {x} d e = ground (arith, eq_iff (name y) (name x))
  index_of_unique (y ∷ xs) (suc i) {x} d e =
      let other = All-get (λ z. name z ≢ name y) xs i d.0 e in
      ground (arith, eq_iff (name y) (name x), index_of_unique xs i d.1 e, other)

  pub Distinct-append :
      (xs : List A) (y : A)
      → Distinct name xs
      → All (λ x. name x ≢ name y) xs
      → Distinct name (xs ++ y ∷ [])
  Distinct-append [] y d h = (tt, tt)
  Distinct-append (x ∷ xs) y d h = (
    All-append (λ z. name z ≢ name x) xs (y ∷ []) d.0 (λ e. h.0 (sym e), tt),
    Distinct-append xs y d.1 h.1,
  )

  pub Distinct-init : (xs : List A) → Distinct name xs → Distinct name (init xs)
  Distinct-init [] d = tt
  Distinct-init (x ∷ []) d = tt
  Distinct-init (x ∷ y ∷ xs) d =
      (All-init (λ z. name z ≢ name x) (y ∷ xs) d.0, Distinct-init (y ∷ xs) d.1)

  -- A write that keeps the entry's name.
  pub Distinct-set :
      (xs : List A) (i : ℕ) {x : A} (y : A)
      → Distinct name xs
      → get_elem? xs i ≡ some x
      → name x ≡ name y
      → Distinct name (set xs i y)
  Distinct-set [] i y d e h = tt
  Distinct-set (z ∷ xs) zero y d e h =
      let same : name z ≡ name y = ap name (some-inj e) ∙ h in
      (
        All-map (λ w. name w ≢ name z) (λ w. name w ≢ name y) (λ w other k. other (k ∙ sym same)) xs
            d.0,
        d.1,
      )
  Distinct-set (z ∷ xs) (suc i) y d e h = (
    All-set (λ w. name w ≢ name z) xs i y d.0
        (λ same. All-get (λ w. name w ≢ name z) xs i d.0 e (h ∙ same)),
    Distinct-set xs i y d.1 e h,
  )

  -- What stands before an entry has other names.
  pub Distinct-before :
      (xs : List A) (y : A) (ys : List A)
      → Distinct name (xs ++ y ∷ ys)
      → All (λ x. name x ≢ name y) xs
  Distinct-before [] y ys d = tt
  Distinct-before (x ∷ xs) y ys d = (
    (λ e.
        All-get (λ z. name z ≢ name x) (xs ++ y ∷ ys) (length xs) d.0
          (get_elem?-append_here xs y ys) (sym e)),
    Distinct-before xs y ys d.1,
  )

-- ===== src/Logical/Rewrites/Walk/Ends.antt =====
-- A walk down the plan against its declarative reading: it finds what the chain of first inputs leads
-- to, and its fuel is enough whenever the chain leads to anything.
use p.Common.{
  ℕ, zero, suc, ◌<◌, ◌≤◌, ◌≡◌, ◌≢◌, ◌↔◌, refl, ap, Bool, true, false, none, some, List, [], ◌∷◌, ok,
  arith, length, get_elem?, get_elem?-lt, Bool-cases, Option-cases, inl, inr, All, All-map, subst,
  sym, Gives, Gives-map,
}
use p.Common.Pigeon.{Different, length-Different}
use p.Logical.Plan.{Operator, OperatorKind}
use p.Logical.Pool.{Ptr, Pool, deref, ◌>>=◌, lift}
use p.Logical.Pool.Invariant.{IsPool}
use p.Logical.Rewrites.Walk.{fuel, input, walk}

-- From the operator `p` on, `h` first inputs lead, through operators that are passed and not looked
-- for, to `r`: an operator that is looked for, or null for one that is neither.
pub data Leads (stops passes : OperatorKind → Bool) (s : Pool) : ℕ → ℕ → Ptr → Type 0 where
  stop :
      {p : ℕ} (op : Operator)
      → get_elem? s.ops p ≡ some op
      → stops op.kind ≡ true
      → Leads stops passes s 0 p (some p)
  miss :
      {p : ℕ} (op : Operator)
      → get_elem? s.ops p ≡ some op
      → stops op.kind ≡ false
      → passes op.kind ≡ false
      → Leads stops passes s 0 p none
  pass :
      {h p : ℕ} {r : Ptr} (op : Operator) (q : ℕ)
      → get_elem? s.ops p ≡ some op
      → stops op.kind ≡ false
      → passes op.kind ≡ true
      → get_elem? op.inputs 0 ≡ some q
      → Leads stops passes s h q r
      → Leads stops passes s (suc h) p r

module _ (stops passes : OperatorKind → Bool) (s : Pool) where
  abbrev To : ℕ → ℕ → Ptr → Type 0
  To = Leads stops passes s

  -- An operator has one distance.
  To-unique : {h k p : ℕ} {r t : Ptr} → To h p r → To k p t → h ≡ k
  To-unique (stop op at e) (stop op' at' e') = refl
  To-unique (stop op at e) (miss op' at' e' f') = refl
  To-unique (stop op at e) (pass op' q at' e' f' i d) = cc
  To-unique (miss op at e f) (stop op' at' e') = refl
  To-unique (miss op at e f) (miss op' at' e' f') = refl
  To-unique (miss op at e f) (pass op' q at' e' f' i d) = cc
  To-unique (pass op q at e f i d) (stop op' at' e') = cc
  To-unique (pass op q at e f i d) (miss op' at' e' f') = cc
  To-unique {t = t} (pass op q at e f i d) (pass {h = k} op' q' at' e' f' i' d') =
      ap suc (To-unique d (subst (λ x. To k x t) (cc) d'))

  -- The operators on the way.
  abbrev OnWay : ℕ → ℕ → Type 0
  OnWay h x = (x < length s.ops) × ((k : ℕ) × (r : Ptr) × (k ≤ h) × To k x r)

  way :
      {h p : ℕ} {r : Ptr}
      → To h p r
      → (xs : List ℕ) × (length xs ≡ suc h) × All (OnWay h) xs × Different xs
  way {p = p} (stop op at e) = (
    p ∷ [],
    refl,
    ((get_elem?-lt s.ops p at, (0, some p, omega arith, stop op at e)), tt),
    (tt, tt),
  )
  way {p = p} (miss op at e f) = (
    p ∷ [],
    refl,
    ((get_elem?-lt s.ops p at, (0, none, omega arith, miss op at e f)), tt),
    (tt, tt),
  )
  way {h = suc h} {p} {r} (pass op q at e f i d) =
      let (xs, size, each, apart) = way d in
      (
        p ∷ xs,
        ap suc size,
        (
          (get_elem?-lt s.ops p at, (suc h, r, omega arith, pass op q at e f i d)),
          All-map (OnWay h) (OnWay (suc h))
              (λ x (l, (k, t, le, c)). (l, (k, t, omega (arith, le), c))) xs each,
        ),
        (
          All-map (OnWay h) (λ x. x ≢ p)
              (λ x (l, (k, t, le, c)) same.
                omega (arith, le, To-unique (subst (λ y. To k y t) same c) (pass op q at e f i d)))
              xs each,
          apart,
        ),
      )

  To-short : {h p : ℕ} {r : Ptr} → IsPool s → To h p r → h < fuel
  To-short pool d =
      let (xs, size, each, apart) = way d in
      let few = length-Different (length s.ops) xs (All-map _ _ (λ x o. o.0) xs each) apart in
      omega (arith, size, few, pool.few_ops)

  To-walk : {h p : ℕ} {r : Ptr} (k : ℕ) → To h p r → h < k → walk stops passes k p s ≡ ok (r, s)
  unfolding walk
  To-walk zero d less = elim less [ ]
  To-walk (suc k) (stop op at e) less = rw (◌>>=◌, deref, at, e) refl
  To-walk (suc k) (miss op at e f) less = rw (◌>>=◌, deref, at, e, f) refl
  To-walk (suc k) (pass op q at e f i d) less =
      let rest = To-walk k d (omega (arith, less)) in
      rw (◌>>=◌, deref, at, e, f, input, i, lift) rest

  -- What a walk that ends has found.
  abbrev Sound : ℕ → Ptr × Pool → Type 0
  Sound p x = (x.1 ≡ s) × ((h : ℕ) × To h p x.0)

  further :
      (p q : ℕ) (op : Operator)
      → get_elem? s.ops p ≡ some op
      → stops op.kind ≡ false
      → passes op.kind ≡ true
      → get_elem? op.inputs 0 ≡ some q
      → (x : Ptr × Pool) → Sound q x
      → Sound p x
  further p q op at e f i x (same, (h, d)) = (same, (suc h, pass op q at e f i d))

  walk-Sound : (k p : ℕ) → Gives (Sound p) (walk stops passes k p s)
  unfolding walk
  walk-Sound zero p = tt
  walk-Sound (suc k) p =
      let again = walk-Sound k in
      elim (Option-cases (get_elem? s.ops p)) [
        | inl gone ↦ rw (Gives, ◌>>=◌, deref, gone) tt
        | inr (op, at) ↦ elim (Bool-cases (stops op.kind)) [
          | inl e ↦ rw (Gives, ◌>>=◌, deref, at, e) (refl, (0, stop op at e))
          | inr e ↦ elim (Bool-cases (passes op.kind)) [
            | inr f ↦ rw (Gives, ◌>>=◌, deref, at, e, f) (refl, (0, miss op at e f))
            | inl f ↦ elim (Option-cases (get_elem? op.inputs 0)) [
              | inl none_left ↦ rw (Gives, ◌>>=◌, deref, at, e, f, input, none_left, lift) tt
              | inr (q, i) ↦
                  rw (Gives, ◌>>=◌, deref, at, e, f, input, i, lift)
                    (Gives-map (Sound q) (Sound p) (walk stops passes k q s)
                      (λ x y. further p q op at e f i x y) (again q))
            ]
          ]
        ]
      ]

  -- Over a well-formed pool, a walk down the plan returns a pointer exactly when the chain of
  -- first inputs leads to it, and then changes nothing: the chain goes through operators that the
  -- walk passes and does not look for, to the first operator that it looks for, or to null at the
  -- first one that it neither looks for nor passes; so the fuel of the walk is enough whenever
  -- the chain leads anywhere.
  pub walk_iff :
      (p : ℕ) (r : Ptr) (t : Pool)
      → IsPool s
      → (walk stops passes fuel p s ≡ ok (r, t))
        ↔ ((t ≡ s) × ((h : ℕ) × Leads stops passes s h p r))
  walk_iff p r t pool = (
    (λ e. subst (Gives (Sound p)) e (walk-Sound fuel p)),
    (λ (same, (h, d)).
        subst (λ u. walk stops passes fuel p s ≡ ok (r, u)) (sym same)
          (To-walk fuel d (To-short pool d))),
  )

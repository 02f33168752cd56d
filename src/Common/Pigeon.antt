-- ===== src/Common/Pigeon.antt =====
-- Different numbers below a bound are no more than the bound.
use p.Common.{
  ℕ, zero, suc, ◌<◌, ◌≤◌, ◌≡◌, ◌≢◌, List, [], ◌∷◌, All, arith, length, ◌==◌, Bool-cases, inl, inr,
  if◌then◌else◌, refl, ap,
}

abbrev pub Different : List ℕ → Type 0
Different [] = Unit
Different (x ∷ xs) = All (λ y. y ≢ x) xs × Different xs

-- The list without `n`.
without : ℕ → List ℕ → List ℕ
without n [] = []
without n (x ∷ xs) = let rest = without n xs in if x == n then rest else x ∷ rest

All-without : (P : ℕ → Type 0) (n : ℕ) (xs : List ℕ) → All P xs → All P (without n xs)
unfolding without
All-without P n [] h = tt
All-without P n (x ∷ xs) h = elim (Bool-cases (x == n)) [
  | inl same ↦ rw same (All-without P n xs h.1)
  | inr other ↦ rw other (h.0, All-without P n xs h.1)
]

without_below : (n : ℕ) (xs : List ℕ) → All (λ x. x < suc n) xs → All (λ x. x < n) (without n xs)
unfolding without
without_below n [] h = tt
without_below n (x ∷ xs) h = elim (Bool-cases (x == n)) [
  | inl same ↦ rw same (without_below n xs h.1)
  | inr other ↦ rw other (ground (arith, h.0), without_below n xs h.1)
]

without-Different : (n : ℕ) (xs : List ℕ) → Different xs → Different (without n xs)
unfolding without
without-Different n [] h = tt
without-Different n (x ∷ xs) h = elim (Bool-cases (x == n)) [
  | inl same ↦ rw same (without-Different n xs h.1)
  | inr other ↦ rw other (All-without (λ y. y ≢ x) n xs h.0, without-Different n xs h.1)
]

without_absent : (n : ℕ) (xs : List ℕ) → All (λ y. y ≢ n) xs → without n xs ≡ xs
unfolding without
without_absent n [] h = refl
without_absent n (x ∷ xs) h = elim (Bool-cases (x == n)) [
  | inl same ↦ absurd (h.0 (ground arith))
  | inr other ↦ rw other (ap (λ l. x ∷ l) (without_absent n xs h.1))
]

length-without : (n : ℕ) (xs : List ℕ) → Different xs → length xs ≤ suc (length (without n xs))
unfolding without
length-without n [] h = omega arith
length-without n (x ∷ xs) h = elim (Bool-cases (x == n)) [
  | inl same ↦
      let e : x ≡ n = ground arith in rw (same, without_absent n xs (rw⁻¹ e h.0)) (omega arith)
  | inr other ↦ rw other (omega (arith, length-without n xs h.1))
]

pub length-Different : (n : ℕ) (xs : List ℕ) → All (λ x. x < n) xs → Different xs → length xs ≤ n
length-Different zero [] below h = omega arith
length-Different zero (x ∷ xs) below h = elim below.0 [ ]
length-Different (suc n) xs below h = omega (
  arith,
  length-without n xs h,
  length-Different n (without n xs) (without_below n xs below) (without-Different n xs h),
)

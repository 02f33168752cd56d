-- ===== src/Logical/Rewrites/Walk/Bounds.antt =====
-- Following and changing inputs keeps the invariant of the pool.
use p.Common.{
  ℕ, zero, suc, ◌<◌, ◌≤◌, refl, Bool, true, false, none, some, arith, length, get_elem?, set,
  if◌then◌else◌, ltb, Bool-cases, Option-cases, inl, inr, All-get, All-set, length-set,
}
use p.Logical.Plan.{Operator, OperatorKind}
use p.Logical.Pool.{M, Ptr, Pool, pure, deref, ◌>>=◌, ◌>>◌}
use p.Logical.Pool.Invariant.{
  Points, IsOperator, IsPool, Keeps, Keeps->>=, Keeps-Reads, Reads, Reads->>=, deref-Reads,
  deref-Keeps, store-Keeps, Any,
}
use p.Logical.Naive.{or_fail}
use p.Logical.Naive.Bounds.{then_or_fail-Keeps}
use p.Logical.Rewrites.Walk.{input, set_input, walk}

-- The value is one of the pool's operators.
abbrev pub In : ℕ → ℕ → Type 0
In n i = i < n

pub input-Reads :
    (i : ℕ) (op : Operator) (s : Pool) (n : ℕ) → IsOperator n op → Reads (In n) s (input i op s)
input-Reads i op s n o = elim (Option-cases (get_elem? op.inputs i)) [
  | inl gone ↦ rw gone tt
  | inr (q, at) ↦ rw at (refl, All-get (λ j. j < n) op.inputs i o.inputs_in at)
]

-- What follows after an input has been read.
pub input-Keeps :
    {A : Type 0} (Q : ℕ → A → Type 0) (i : ℕ) (op : Operator) (f : ℕ → M A) (s : Pool)
    → IsPool s
    → IsOperator (length s.ops) op
    → ((q : ℕ) (t : Pool)
        → IsPool t
        → length s.ops ≤ length t.ops
        → q < length t.ops
        → Keeps Q t (f q t))
    → Keeps Q s ((input i op >>= f) s)
input-Keeps Q i op f s h o k =
    Keeps->>= In Q s (input i op) f (Keeps-Reads In s _ h (input-Reads i op s (length s.ops) o)) k

pub set_input-Keeps :
    (p : Ptr) (i q : ℕ) (s : Pool) → IsPool s → q < length s.ops → Keeps Any s (set_input p i q s)
unfolding set_input
set_input-Keeps p i q s h in_pool = deref-Keeps Any p _ s h λ op t h' le o.
    elim (Bool-cases (ltb i (length op.inputs))) [
      | inl there ↦ rw there (
          store-Keeps p (record op { inputs = set op.inputs i q }) t h'
            (record {
              few_attrs = o.few_attrs;
              fits = o.fits;
              few_inputs = omega (arith, length-set op.inputs i q, o.few_inputs);
              inputs_in = All-set _ op.inputs i q o.inputs_in (omega (arith, in_pool, le));
              output_in = o.output_in;
            }))
      | inr beyond ↦ rw beyond tt
    ]

-- A write, and what follows it.
pub then-Keeps :
    {A : Type 0} (Q : ℕ → A → Type 0) (s : Pool) (m : M (Unit {0})) (k : M A)
    → Keeps Any s (m s)
    → ((t : Pool) → IsPool t → length s.ops ≤ length t.ops → Keeps Q t (k t))
    → Keeps Q s ((m >> k) s)
then-Keeps Q s m k first rest = Keeps->>= Any Q s m (λ _. k) first λ _ t h le _. rest t h le

pub pure-Keeps :
    (p : Ptr) (s : Pool) → IsPool s → Points (length s.ops) p → Keeps Points s (pure p s)
pure-Keeps p s h q = (h, omega arith, q)

pub walk-Reads :
    (stops passes : OperatorKind → Bool) (k p : ℕ) (s : Pool)
    → IsPool s
    → p < length s.ops
    → Reads (Points (length s.ops)) s (walk stops passes k p s)
unfolding walk
walk-Reads stops passes zero p s h q = tt
walk-Reads stops passes (suc k) p s h q =
    let n = length s.ops in
    Reads->>= (IsOperator n) (Points n) s (deref (some p)) _ (deref-Reads (some p) s h) λ op o.
      elim (Bool-cases (stops op.kind)) [
        | inl stop ↦ rw stop (refl, q)
        | inr go ↦ elim (Bool-cases (passes op.kind)) [
          | inl pass ↦
              rw (go, pass)
                (Reads->>= (In n) (Points n) s (input 0 op) (walk stops passes k)
                  (input-Reads 0 op s n o) λ r in_pool. walk-Reads stops passes k r s h in_pool)
          | inr fail ↦ rw (go, fail) (refl, tt)
        ]
      ]

-- What follows after a walk.
pub walk-Keeps :
    {A : Type 0} (Q : ℕ → A → Type 0) (stops passes : OperatorKind → Bool) (k p : ℕ) (f : Ptr → M A)
    (s : Pool)
    → IsPool s
    → p < length s.ops
    → ((q : Ptr) (t : Pool)
        → IsPool t
        → length s.ops ≤ length t.ops
        → Points (length t.ops) q
        → Keeps Q t (f q t))
    → Keeps Q s ((walk stops passes k p >>= f) s)
walk-Keeps Q stops passes k p f s h q rest =
    Keeps->>= Points Q s (walk stops passes k p) f
      (Keeps-Reads Points s _ h (walk-Reads stops passes k p s h q)) rest

-- Null, or not.
pub ptr-Keeps :
    {A : Type 0} (Q : ℕ → A → Type 0) (p : Ptr) (m0 : M A) (m1 : ℕ → M A) (t : Pool)
    → Points (length t.ops) p
    → Keeps Q t (m0 t)
    → ((i : ℕ) → i < length t.ops → Keeps Q t (m1 i t))
    → Keeps Q t ((elim p as (λ _. M A) [ none ↦ m0 | some i ↦ m1 i ]) t)
ptr-Keeps Q none m0 m1 t q at_null at_op = at_null
ptr-Keeps Q (some i) m0 m1 t q at_null at_op = at_op i q

-- Both sides of a test.
pub if-Keeps :
    {A : Type 0} (Q : ℕ → A → Type 0) (b : Bool) (yes_m no_m : M A) (t : Pool)
    → Keeps Q t (yes_m t)
    → Keeps Q t (no_m t)
    → Keeps Q t ((if b then yes_m else no_m) t)
if-Keeps Q true yes_m no_m t f g = f
if-Keeps Q false yes_m no_m t f g = g

-- What follows after a call whose null is an error.
pub or_fail->>=-Keeps :
    {A : Type 0} (Q : ℕ → A → Type 0) (s : Pool) (m : M Ptr) (f : Ptr → M A)
    → Keeps Points s (m s)
    → ((p : Ptr) (t : Pool)
        → IsPool t
        → length s.ops ≤ length t.ops
        → Points (length t.ops) p
        → Keeps Q t (f p t))
    → Keeps Q s (((m >>= or_fail) >>= f) s)
or_fail->>=-Keeps Q s m f first rest =
    Keeps->>= Points Q s (m >>= or_fail) f (then_or_fail-Keeps m s first) rest

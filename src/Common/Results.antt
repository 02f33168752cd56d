-- ===== src/Common/Results.antt =====
-- Results of calls that return an error code (include/interface/error.h), as values.
use mathlib.Core.Path.{◌≡◌, refl, subst}
use mathlib.Core.Bool.{Bool, true, false}
use mathlib.Core.Option.{Option, none, some}

-- `fail` is the code -1; the others are the named codes.
pub data Error : Type 0 where
  fail : Error
  parse_err : Error
  duplicate_table_err : Error
  duplicate_attr_err : Error
  unknown_table_err : Error
  unknown_var_err : Error
  ambiguous_attr_err : Error
  unknown_attr_err : Error
  window_over_rel_err : Error
  type_err : Error
  schema_mismatch_err : Error
  ambiguous_table_err : Error
  invalid_use_err : Error
  invalid_param_err : Error
  internal_err : Error

-- `fault` is undefined behaviour: a null pointer is followed, an array is read or written beyond
-- its end, or a signed operation overflows.
pub data Result {ℓ} (A : Type ℓ) : Type ℓ where
  ok : A → Result A
  err : Error → Result A
  fault : Result A

infixl 5 ◌>>=◌ ◌>>◌
-- The next call is made only if this one succeeds.
abbrev pub ◌>>=◌ {ι κ} : {A : Type ι} {B : Type κ} → Result A → (A → Result B) → Result B
fault >>= next = fault
err e >>= next = err e
ok a >>= next = next a

-- The same for a call whose value does not matter.
abbrev pub ◌>>◌ {κ} : {B : Type κ} → Result (Unit {0}) → Result B → Result B
check >> rest = check >>= λ _. rest

-- `if (c) return e;`
abbrev pub return_if : Bool → Error → Result (Unit {0})
return_if true e = err e
return_if false e = ok tt

abbrev pub or_err {ℓ} : {A : Type ℓ} → Option A → Error → Result A
or_err none e = err e
or_err (some a) e = ok a

-- What a null pointer or an index out of range leads to.
abbrev pub or_fault {ℓ} : {A : Type ℓ} → Option A → Result A
or_fault none = fault
or_fault (some a) = ok a

-- What a chain of two calls that succeeds has done.
pub >>=-eq-ok {ι κ} :
    {A : Type ι} {B : Type κ} {y : B} (r : Result A) (next : A → Result B)
    → (r >>= next) ≡ ok y
    → (x : A) × (r ≡ ok x) × (next x ≡ ok y)
>>=-eq-ok fault next e = cc
>>=-eq-ok (err x) next e = cc
>>=-eq-ok (ok x) next e = (x, refl, e)

-- A postcondition of a call that must not fault; errors are allowed.
abbrev pub Safely {ℓ} : {A : Type ℓ} → (A → Type 0) → Result A → Type 0
Safely P (ok a) = P a
Safely P (err e) = Unit
Safely P fault = ⊥

pub ok-injective {ℓ} : {A : Type ℓ} {a b : A} → ok a ≡ ok b → a ≡ b
ok-injective e = cc

-- The rule for a bind.
pub Safely->>= {ℓ κ} :
    {A : Type ℓ} {B : Type κ} (P : A → Type 0) (Q : B → Type 0) (m : Result A) (f : A → Result B)
    → Safely P m
    → ((a : A) → P a → Safely Q (f a))
    → Safely Q (m >>= f)
Safely->>= P Q (ok a) f h k = k a h
Safely->>= P Q (err e) f h k = tt
Safely->>= P Q fault f h k = absurd h

-- A postcondition that holds of a result holds of the value that is returned.
pub Safely-ok {ℓ} :
    {A : Type ℓ} (P : A → Type 0) (r : Result A) {a : A} → Safely P r → r ≡ ok a → P a
Safely-ok P (ok b) h e = subst P (ok-injective e) h
Safely-ok P (err x) h e = cc
Safely-ok P fault h e = cc

pub Safely-map {ℓ} :
    {A : Type ℓ} (P Q : A → Type 0) (r : Result A) → ((a : A) → P a → Q a) → Safely P r → Safely Q r
Safely-map P Q (ok a) f h = f a h
Safely-map P Q (err e) f h = tt
Safely-map P Q fault f h = h

-- A postcondition of a call that may fail in any way.
abbrev pub Gives {ℓ} : {A : Type ℓ} → (A → Type 0) → Result A → Type 0
Gives P (ok a) = P a
Gives P (err e) = Unit
Gives P fault = Unit

pub Gives->>= {ℓ κ} :
    {A : Type ℓ} {B : Type κ} (P : A → Type 0) (Q : B → Type 0) (m : Result A) (f : A → Result B)
    → Gives P m
    → ((a : A) → P a → Gives Q (f a))
    → Gives Q (m >>= f)
Gives->>= P Q (ok a) f h k = k a h
Gives->>= P Q (err e) f h k = tt
Gives->>= P Q fault f h k = tt

pub Gives-map {ℓ} :
    {A : Type ℓ} (P Q : A → Type 0) (m : Result A) → ((a : A) → P a → Q a) → Gives P m → Gives Q m
Gives-map P Q (ok a) k h = k a h
Gives-map P Q (err e) k h = tt
Gives-map P Q fault k h = tt

-- A call of which nothing is known.
pub Gives-any {ℓ} : {A : Type ℓ} (m : Result A) → Gives (λ _. Unit) m
Gives-any (ok a) = tt
Gives-any (err e) = tt
Gives-any fault = tt

pub Gives-both {ℓ} :
    {A : Type ℓ} (P Q : A → Type 0) (m : Result A)
    → Gives P m
    → Gives Q m
    → Gives (λ a. P a × Q a) m
Gives-both P Q (ok a) h k = (h, k)
Gives-both P Q (err e) h k = tt
Gives-both P Q fault h k = tt

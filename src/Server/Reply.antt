-- ===== src/Server/Reply.antt =====
-- What a call of the server does: it returns a value, or an error code, and in both cases it may have
-- changed the state; or it faults.
use p.Common.{Error, Result, ok, err, fault, Bool, true, false}

pub data Reply (S A : Type 0) : Type 0 where
  done : A → S → Reply S A
  refused : Error → S → Reply S A
  crash : Reply S A

-- A call on a state.
abbrev pub Call : Type 0 → Type 0 → Type 0
Call S A = S → Reply S A

module _ {S : Type 0} where
  abbrev pub pure : {A : Type 0} → A → Call S A
  pure a s = done a s

  abbrev pub refuse : {A : Type 0} → Error → Call S A
  refuse e s = refused e s

  abbrev pub crashes : {A : Type 0} → Call S A
  crashes s = crash

  infixl 5 ◌>>=◌ ◌>>◌
  -- `if ((rc = ...) != 0) return rc;`
  abbrev pub ◌>>=◌ : {A B : Type 0} → Call S A → (A → Call S B) → Call S B
  (m >>= f) s = elim (m s) [ done a t ↦ f a t | refused e t ↦ refused e t | crash ↦ crash ]

  abbrev pub ◌>>◌ : {B : Type 0} → Call S (Unit {0}) → Call S B → Call S B
  m >> k = m >>= λ _. k

  -- A call that computes a value and changes nothing.
  abbrev pub compute : {A : Type 0} → Result A → Call S A
  compute (ok a) s = done a s
  compute (err e) s = refused e s
  compute fault s = crash

  -- A call that changes the state, or returns an error code and changes nothing.
  abbrev pub update : {A : Type 0} → (S → Result (A × S)) → Call S A
  update f s = elim (f s) [ ok r ↦ done r.0 r.1 | err e ↦ refused e s | fault ↦ crash ]

  -- `if (c) return e;`
  abbrev pub refuse_if : Bool → Error → Call S (Unit {0})
  refuse_if true e s = refused e s
  refuse_if false e s = done tt s

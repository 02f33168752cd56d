-- ===== src/Server/Replies.antt =====
-- What a reply says of the state, and how a sequence of calls keeps it.
use p.Common.{◌≡◌, refl}
use p.Server.Reply.{Reply, Call, done, refused, crash, ◌>>=◌}
use p.Server.Invariant.{Holds}

-- A reply with which a call ends or goes on: `I` holds where it goes on, and `J` where it is refused.
abbrev pub Leads : {S A : Type 0} → Type 0 → (S → Type 0) → (S → Type 0) → Reply S A → Type 0
Leads C I J (done a s) = I s
Leads C I J (refused e s) = J s
Leads C I J crash = C

pub Leads->>= :
    {S A B : Type 0} (C : Type 0) (I K J : S → Type 0) (m : Call S A) (f : A → Call S B) (s : S)
    → Leads C I J (m s)
    → ((a : A) (t : S) → I t → Leads C K J (f a t))
    → Leads C K J ((m >>= f) s)
Leads->>= {S} {A} {B} C I K J m f s h k = go (m s) h
  where
    go :
        (r : Reply S A)
        → Leads C I J r
        → Leads C K J (elim r as (λ _. Reply S B) [
          | done a t ↦ f a t
          | refused e t ↦ refused e t
          | crash ↦ crash
        ])
    go (done a t) h = k a t h
    go (refused e t) h = h
    go crash h = h

-- The same, with the equation of the first call.
pub Leads->>=_eq :
    {S A B : Type 0} (C : Type 0) (I K J : S → Type 0) (m : Call S A) (f : A → Call S B) (s : S)
    → Leads C I J (m s)
    → ((a : A) (t : S) → m s ≡ done a t → I t → Leads C K J (f a t))
    → Leads C K J ((m >>= f) s)
Leads->>=_eq {S} {A} {B} C I K J m f s h k = go (m s) h k
  where
    go :
        (r : Reply S A)
        → Leads C I J r
        → ((a : A) (t : S) → r ≡ done a t → I t → Leads C K J (f a t))
        → Leads C K J (elim r as (λ _. Reply S B) [
          | done a t ↦ f a t
          | refused e t ↦ refused e t
          | crash ↦ crash
        ])
    go (done a t) h k = k a t refl h
    go (refused e t) h k = h
    go crash h k = h

pub Leads-Holds :
    {S A : Type 0} (C : Type 0) (I J : S → Type 0) (r : Reply S A)
    → ((s : S) → I s → J s)
    → Holds C I r
    → Leads C I J r
Leads-Holds C I J (done a s) k h = h
Leads-Holds C I J (refused e s) k h = k s h
Leads-Holds C I J crash k h = h

pub Holds-Leads :
    {S A : Type 0} (C : Type 0) (I J : S → Type 0) (r : Reply S A)
    → ((s : S) → I s → J s)
    → Leads C I J r
    → Holds C J r
Holds-Leads C I J (done a s) k h = k s h
Holds-Leads C I J (refused e s) k h = h
Holds-Leads C I J crash k h = h

-- `V` holds of the value and the state of a reply that is not refused.
abbrev pub Yields : {S A : Type 0} → (A → S → Type 0) → Reply S A → Type 0
Yields V (done a s) = V a s
Yields V (refused e s) = Unit
Yields V crash = Unit

pub Yields->>= :
    {S A B : Type 0} (V : B → S → Type 0) (m : Call S A) (f : A → Call S B) (s : S)
    → ((a : A) (t : S) → Yields V (f a t))
    → Yields V ((m >>= f) s)
Yields->>= {S} {A} {B} V m f s k = go (m s)
  where
    go :
        (r : Reply S A)
        → Yields V (elim r as (λ _. Reply S B) [
          | done a t ↦ f a t
          | refused e t ↦ refused e t
          | crash ↦ crash
        ])
    go (done a t) = k a t
    go (refused e t) = tt
    go crash = tt

-- The same, with what the first call yields.
pub Yields->>=_from :
    {S A B : Type 0} (U : A → S → Type 0) (V : B → S → Type 0) (m : Call S A) (f : A → Call S B)
    (s : S)
    → Yields U (m s)
    → ((a : A) (t : S) → U a t → Yields V (f a t))
    → Yields V ((m >>= f) s)
Yields->>=_from {S} {A} {B} U V m f s h k = go (m s) h
  where
    go :
        (r : Reply S A)
        → Yields U r
        → Yields V (elim r as (λ _. Reply S B) [
          | done a t ↦ f a t
          | refused e t ↦ refused e t
          | crash ↦ crash
        ])
    go (done a t) h = k a t h
    go (refused e t) h = tt
    go crash h = tt

-- ===== src/Metadata/Queries/Log.antt =====
-- The query manager implements a log of texts: an identifier is a position in the log, and the text
-- of a query can be read where its pointer points.
use p.Common.{
  ℕ, zero, suc, ◌+◌, ◌<◌, ◌≤◌, ◌≡◌, ◌≢◌, refl, ap, ◌⊎◌, inl, inr, List, [], ◌∷◌, ◌++◌, ok, err,
  fail, arith, length, leb, All, All-append, length-append, Bool-cases,
}
use p.Metadata.Queries.{QueryManager, qry_buf_len, max_queries, strncpy, register_query, no_queries}

-- The bytes from a position on.
abbrev pub drop : ℕ → List ℕ → List ℕ
drop zero xs = xs
drop (suc n) [] = []
drop (suc n) (x ∷ xs) = drop n xs

-- The text that starts a list of bytes: all before the null byte.
abbrev pub text : List ℕ → List ℕ
text [] = []
text (zero ∷ xs) = []
text (suc c ∷ xs) = suc c ∷ text xs

-- A null byte ends the text.
abbrev pub Ends : List ℕ → Type 0
Ends [] = ⊥
Ends (zero ∷ xs) = Unit
Ends (suc c ∷ xs) = Ends xs

-- A text has no null byte.
abbrev pub IsText : List ℕ → Type 0
IsText = All (λ c. c ≢ 0)

-- What the pointers point to.
abbrev pub texts : List ℕ → List ℕ → List (List ℕ)
texts buffer [] = []
texts buffer (i ∷ is) = text (drop i buffer) ∷ texts buffer is

-- The log that a query manager stands for.
abbrev pub log : QueryManager → List (List ℕ)
log m = texts m.query_buffer m.queries

pub record IsLog (m : QueryManager) : Type 0 where
  pub in_buffer : length m.query_buffer ≤ qry_buf_len
  pub few_queries : length m.queries ≤ max_queries
  pub all_end : All (λ i. Ends (drop i m.query_buffer)) m.queries

pub no_queries-IsLog : IsLog no_queries
no_queries-IsLog = record { in_buffer = omega arith; few_queries = omega arith; all_end = tt }

Ends-append : (xs ys : List ℕ) → Ends xs → Ends (xs ++ ys)
Ends-append [] ys e = absurd e
Ends-append (zero ∷ xs) ys e = tt
Ends-append (suc c ∷ xs) ys e = Ends-append xs ys e

text-append : (xs ys : List ℕ) → Ends xs → text (xs ++ ys) ≡ text xs
text-append [] ys e = absurd e
text-append (zero ∷ xs) ys e = refl
text-append (suc c ∷ xs) ys e = ap (λ r. suc c ∷ r) (text-append xs ys e)

-- A position from which a text is read lies inside the buffer.
drop-append : (i : ℕ) (xs ys : List ℕ) → Ends (drop i xs) → drop i (xs ++ ys) ≡ drop i xs ++ ys
drop-append zero xs ys e = refl
drop-append (suc i) [] ys e = absurd e
drop-append (suc i) (x ∷ xs) ys e = drop-append i xs ys e

drop_behind : (xs ys : List ℕ) → drop (length xs) (xs ++ ys) ≡ ys
drop_behind [] ys = refl
drop_behind (x ∷ xs) ys = drop_behind xs ys

-- A text that is copied whole, with the null byte.
strncpy_whole : (str : List ℕ) → strncpy (suc (length str)) str ≡ str ++ 0 ∷ []
strncpy_whole [] = refl
strncpy_whole (c ∷ str) = ap (λ r. c ∷ r) (strncpy_whole str)

text_whole : (str : List ℕ) → IsText str → Ends (str ++ 0 ∷ []) × (text (str ++ 0 ∷ []) ≡ str)
text_whole [] t = (tt, refl)
text_whole (zero ∷ str) t = absurd (t.0 refl)
text_whole (suc c ∷ str) t = let r = text_whole str t.1 in (r.0, ap (λ r. suc c ∷ r) r.1)

texts-append : (xs is js : List ℕ) → texts xs (is ++ js) ≡ texts xs is ++ texts xs js
texts-append xs [] js = refl
texts-append xs (i ∷ is) js = ap (λ r. text (drop i xs) ∷ r) (texts-append xs is js)

-- What is written behind the buffer changes none of its texts.
texts_behind :
    (xs ys is : List ℕ)
    → All (λ i. Ends (drop i xs)) is
    → All (λ i. Ends (drop i (xs ++ ys))) is × (texts (xs ++ ys) is ≡ texts xs is)
texts_behind xs ys [] a = (tt, refl)
texts_behind xs ys (i ∷ is) a =
    let r = texts_behind xs ys is a.1 in
    let d = drop-append i xs ys a.0 in
    ((rw d (Ends-append (drop i xs) ys a.0), r.0), rw (d, r.1, text-append (drop i xs) ys a.0) refl)

length-texts : (xs is : List ℕ) → length (texts xs is) ≡ length is
length-texts xs [] = refl
length-texts xs (i ∷ is) = ap suc (length-texts xs is)

-- The state after a text has been written behind the buffer.
abbrev pub written : QueryManager → List ℕ → QueryManager
written m str = record {
  query_buffer = m.query_buffer ++ strncpy (suc (length str)) str;
  queries = m.queries ++ length m.query_buffer ∷ [];
}

written-IsLog :
    (m : QueryManager) (str : List ℕ)
    → IsLog m
    → IsText str
    → length m.query_buffer + length str < qry_buf_len
    → length m.queries < max_queries
    → IsLog (written m str) × (log (written m str) ≡ log m ++ str ∷ [])
written-IsLog m str h t room few =
    let old = m.query_buffer in
    let whole = strncpy_whole str in
    let new = text_whole str t in
    let (ends, same) = texts_behind old (strncpy (suc (length str)) str) m.queries h.all_end in
    let here = drop_behind old (strncpy (suc (length str)) str) in
    (
      record {
        in_buffer =
            rw whole
              (omega (arith, length-append old (str ++ 0 ∷ []), length-append str (0 ∷ []), room));
        few_queries = omega (arith, length-append m.queries (length old ∷ []), few);
        all_end = All-append _ m.queries (length old ∷ []) ends (rw (here, whole) (new.0), tt);
      },
      rw
          (
            texts-append (old ++ strncpy (suc (length str)) str) m.queries (length old ∷ []),
            same,
            here,
            whole,
            new.1,
          )
          refl,
    )

-- The query manager implements a log of texts: over a well-formed manager, a text without null
-- bytes that comes with its length is refused with the code -1 only if the buffer or the array of
-- queries has no room for it; otherwise its identifier is the next position of the log, the
-- manager is well formed again, and what its pointers point to is the log before with the text
-- behind it.
pub register_query-log :
    (m : QueryManager) (str : List ℕ)
    → IsLog m
    → IsText str
    → (register_query m str (length str) ≡ err fail)
        × ((qry_buf_len ≤ length m.query_buffer + length str) ⊎ (length (log m) ≡ max_queries))
      ⊎ ((m' : QueryManager) × (register_query m str (length str) ≡ ok (length (log m), m'))
          × IsLog m'
          × (log m' ≡ log m ++ str ∷ []))
unfolding register_query
register_query-log m str h t =
    let size = length-texts m.query_buffer m.queries in
    elim (Bool-cases (leb qry_buf_len (length m.query_buffer + length str))) [
      | inl full ↦ inl (rw full refl, inl (ground arith))
      | inr room ↦ elim (Bool-cases (leb max_queries (length m.queries))) [
        | inl many ↦ inl (rw (room, many) refl, inr (ground (arith, h.few_queries, size)))
        | inr few ↦
            let kept = written-IsLog m str h t (ground arith) (ground arith) in
            inr (written m str, rw (room, few, size) refl, kept.0, kept.1)
      ]
    ]

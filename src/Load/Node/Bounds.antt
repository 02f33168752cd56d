-- ===== src/Load/Node/Bounds.antt =====
-- The vectors of a node keep their sizes, whatever is sent; the setters; and the loop over the queries
-- of a message, which comes to its end.
use p.Common.{
  ℕ, zero, suc, ◌<◌, ◌≤◌, ◌≡◌, refl, ◌∙◌, ◌⊎◌, inl, inr, Bool, true, false, none, some, List, [],
  ◌∷◌, Result, ok, err, fault, fail, arith, length, get_elem?, set, if◌then◌else◌, ◌==◌, ltb, ◌>>=◌,
  or_fault, length-set, Bool-cases, Gives, Gives->>=, Gives-any,
}
use p.Load.Platform.{Platform, Cursor, next, read, behind_comma, starts}
use p.Load.Node.{
  QueryInfo, NodeInfo, pos, negsuc, set_capacity, age, read_classes, put_load, is_end, read_queries,
  read_levels, read_active, update_load_info, update_listening_port_no, update,
}
use p.Load.Node.Message.{IsNode}

module _ {D : Type 0} (pf : Platform D) where
  -- On a node whose vectors have an entry for each class, setting the capacity of a negative
  -- class or of one above the number of classes returns -1, setting that of a class below the
  -- number of classes changes the entry of that class, and setting that of the class that is the
  -- number of classes writes beyond the vector.
  pub set_capacity_cases :
      (n : NodeInfo D) (c : ℕ) (v : D)
      → IsNode n
      → (set_capacity pf n (negsuc c) v ≡ err fail)
        × ((c < n.number_of_classes)
              × (set_capacity pf n (pos c) v ≡ ok (record n { capacities = set n.capacities c v }))
            ⊎ (c ≡ n.number_of_classes) × (set_capacity pf n (pos c) v ≡ fault)
            ⊎ (n.number_of_classes < c) × (set_capacity pf n (pos c) v ≡ err fail))
  unfolding set_capacity
  set_capacity_cases n c v h = (
    refl,
    elim (Bool-cases (ltb n.number_of_classes c)) [
      | inl above ↦ inr (inr (ground arith, rw above refl))
      | inr not_above ↦ elim (Bool-cases (ltb c (length n.capacities))) [
        | inl below ↦ inl (ground (arith, h.each_capacity), rw (not_above, below) refl)
        | inr at ↦ inr (inl (ground (arith, h.each_capacity), rw (not_above, at) refl))
      ]
    ],
  )

  -- `strtod` and `strtol` return a pointer into the text that they read.
  pub record Reads : Type 0 where
    pub strtod_length : (text : List ℕ) → length (pf.strtod text).1 ≤ length text
    pub strtol_length : (text : List ℕ) → length (pf.strtol text).1 ≤ length text

  -- What is left to read.
  abbrev pub left : Cursor → ℕ
  left none = 0
  left (some text) = suc (length text)

  next_left : (text : List ℕ) → left (next (some text)) ≤ length text
  next_left [] = omega arith
  next_left (c ∷ text) = omega arith

  module _ (laws : Reads) where
    -- Over a platform that reads numbers from the front of a text, the loop over the queries of a
    -- message comes to its end within as much fuel as there are bytes left, the null byte
    -- counted: more fuel does not change what it returns.
    pub read_queries_enough :
        (k j : ℕ) (msg : Cursor) (qs : List (QueryInfo D))
        → left msg ≤ k
        → left msg ≤ j
        → read_queries pf k msg qs ≡ read_queries pf j msg qs
    unfolding read_queries
    read_queries_enough zero zero none qs a b = refl
    read_queries_enough zero (suc j) none qs a b = refl
    read_queries_enough (suc k) zero none qs a b = refl
    read_queries_enough (suc k) (suc j) none qs a b = refl
    read_queries_enough zero j (some text) qs a b = elim a [ ]
    read_queries_enough (suc k) zero (some text) qs a b = elim b [ ]
    read_queries_enough (suc k) (suc j) (some text) qs a b =
        let behind_id : left (next (some (pf.strtol text).1)) ≤ length text =
          omega (arith, laws.strtol_length text, next_left (pf.strtol text).1) in
        elim (Bool-cases (is_end pf text)) [
          | inl end ↦ rw (read_queries, end) refl
          | inr more ↦
              rw (read_queries, more)
                (rest (read_queries_enough k j) (next (some (pf.strtol text).1)) behind_id)
        ]
      where
        rest :
            ((msg : Cursor) (qs : List (QueryInfo D))
              → left msg ≤ k
              → left msg ≤ j
              → read_queries pf k msg qs ≡ read_queries pf j msg qs)
            → (msg : Cursor) → left msg ≤ length text
            → (read msg >>= λ load_text.
                read_queries pf k
                  (next (some (pf.strtod load_text).1))
                  (put_load pf (pf.strtol text).0 (pf.strtod load_text).0 qs))
              ≡ (read msg >>= λ load_text.
                  read_queries pf j
                    (next (some (pf.strtod load_text).1))
                    (put_load pf (pf.strtol text).0 (pf.strtod load_text).0 qs))
        rest again none h = refl
        rest again (some load_text) h =
            again (next (some (pf.strtod load_text).1)) _
              (omega (arith, a, h, laws.strtod_length load_text, next_left (pf.strtod load_text).1))
              (omega (arith, b, h, laws.strtod_length load_text, next_left (pf.strtod load_text).1))

  -- The node is the same, with vectors of the same sizes.
  pub record Same (n n' : NodeInfo D) : Type 0 where
    pub same_id : n'.node_id ≡ n.node_id
    pub same_classes : n'.number_of_classes ≡ n.number_of_classes
    pub same_ready : n'.is_ready ≡ n.is_ready
    pub sized : IsNode n → IsNode n'

  read_classes-length :
      (f : D → D → D) (k i : ℕ) (xs : List D) (msg : Cursor)
      → Gives (λ r. length r.0 ≡ length xs) (read_classes pf f k i xs msg)
  unfolding read_classes
  read_classes-length f zero i xs msg = refl
  read_classes-length f (suc k) i xs none = tt
  read_classes-length f (suc k) i xs (some text) =
      let again =
        λ (v : D). read_classes-length f k (suc i) (set xs i v) (next (some (pf.strtod text).1)) in
      Gives->>= (λ _. Unit) (λ r. length r.0 ≡ length xs) (or_fault (get_elem? xs i)) _
        (Gives-any (or_fault (get_elem? xs i)))
        λ old _. let v = f old (pf.strtod text).0 in rw (length-set xs i v) at (again v)

  read_levels-Same :
      (n : NodeInfo D) (msg : Cursor) → Gives (λ r. Same n r.0) (read_levels pf n msg)
  unfolding read_levels
  read_levels-Same n msg =
      Gives->>= (λ r. length r.0 ≡ length n.capacities) (λ r. Same n r.0)
        (read_classes pf (age pf) n.number_of_classes 0 n.capacities msg) _
        (read_classes-length (age pf) n.number_of_classes 0 n.capacities msg)
        λ caps c.
          Gives->>= (λ r. length r.0 ≡ length n.capacity_usages) (λ r. Same n r.0)
            (read_classes pf (age pf) n.number_of_classes 0 n.capacity_usages caps.1) _
            (read_classes-length (age pf) n.number_of_classes 0 n.capacity_usages caps.1)
            λ usages u.
              Gives->>= (λ r. length r.0 ≡ length n.local_priorities) (λ r. Same n r.0)
                (read_classes pf (λ old new. new) n.number_of_classes 0 n.local_priorities usages.1)
                _
                (read_classes-length (λ old new. new) n.number_of_classes 0 n.local_priorities
                  usages.1)
                λ prios r. record {
                  same_id = refl;
                  same_classes = refl;
                  same_ready = refl;
                  sized = λ h. record {
                    each_capacity = c ∙ h.each_capacity;
                    each_usage = u ∙ h.each_usage;
                    each_priority = r ∙ h.each_priority;
                  };
                }

  Same-refl : (n : NodeInfo D) → Same n n
  Same-refl n = record { same_id = refl; same_classes = refl; same_ready = refl; sized = λ h. h }

  read_active-Same :
      (n n' : NodeInfo D) (msg : Cursor) → Same n n' → Gives (Same n) (read_active pf n' msg)
  read_active-Same n n' none h = tt
  read_active-Same n n' (some text) h =
      let loop = read_queries pf (suc (length text)) (some text) n'.active_queries in
      Gives->>= (λ _. Unit) (Same n) loop _ (Gives-any loop)
        λ qs _. record {
          same_id = h.same_id;
          same_classes = h.same_classes;
          same_ready = h.same_ready;
          sized = λ v.
              let w = h.sized v in
              record {
                each_capacity = w.each_capacity;
                each_usage = w.each_usage;
                each_priority = w.each_priority;
              };
        }

  Gives-if :
      {A : Type 0} (P : A → Type 0) (b : Bool) (x y : Result A)
      → Gives P x
      → Gives P y
      → Gives P (if b then x else y)
  Gives-if P true x y h k = h
  Gives-if P false x y h k = k

  update_load_info-Same :
      (n : NodeInfo D) (msg : List ℕ) → Gives (Same n) (update_load_info pf n msg)
  unfolding update_load_info
  update_load_info-Same n msg =
      Gives->>= (λ _. Unit) (Same n) (behind_comma msg) _ (Gives-any (behind_comma msg))
        λ text _.
          let type = pf.to_int (pf.strtod text).0 in
          let start = next (some (pf.strtod text).1) in
          let levels =
            if type == 0
            then read_levels pf n start
            else (if type == 1 then read_levels pf n start else ok (n, start)) in
          let kept = read_levels-Same n start in
          Gives->>= (λ r. Same n r.0) (Same n) levels _
            (Gives-if (λ r. Same n r.0) (type == 0) _ _ kept
              (Gives-if (λ r. Same n r.0) (type == 1) _ _ kept (Same-refl n)))
            λ r h.
              Gives-if (Same n) (type == 0) _ _ (read_active-Same n r.0 r.1 h)
                (Gives-if (Same n) (type == 2) _ _ (read_active-Same n r.0 r.1 h) h)

  pub update-Same : (n : NodeInfo D) (msg : List ℕ) → Gives (Same n) (update pf n msg)
  unfolding update_listening_port_no
  update-Same n msg =
      Gives-if (Same n) (starts (78 ∷ 73 ∷ []) msg) _ _ (update_load_info-Same n msg) (
        Gives-if (Same n) (starts (80 ∷ []) msg) _ _
          (Gives->>= (λ _. Unit) (Same n) (behind_comma msg) _ (Gives-any (behind_comma msg))
            λ text _. record {
              same_id = refl;
              same_classes = refl;
              same_ready = refl;
              sized = λ h. record {
                each_capacity = h.each_capacity;
                each_usage = h.each_usage;
                each_priority = h.each_priority;
              };
            })
          tt)

-- ===== src/Load/Node/Message.antt =====
-- A node is brought up to date by the messages that describe its load.
use p.Common.{
  ℕ, zero, suc, ◌<◌, ◌≡◌, refl, ap, sym, ◌∙◌, false, some, List, [], ◌∷◌, ◌++◌, ok, arith, length,
  set, length-append, get_elem?-append_here, append_assoc,
}
use p.Load.Platform.{Platform, comma}
use p.Load.Node.{
  QueryInfo, NodeInfo, age, read_classes, put_load, is_end, read_queries, read_levels,
  update_load_info, update,
}

-- A node has an entry for each class in each of its vectors.
pub record IsNode {D : Type 0} (n : NodeInfo D) : Type 0 where
  pub each_capacity : length n.capacities ≡ n.number_of_classes
  pub each_usage : length n.capacity_usages ≡ n.number_of_classes
  pub each_priority : length n.local_priorities ≡ n.number_of_classes

set-append_here :
    {D : Type 0} (xs : List D) (y z : D) (ys : List D)
    → set (xs ++ y ∷ ys) (length xs) z ≡ xs ++ z ∷ ys
set-append_here [] y z ys = refl
set-append_here (x ∷ xs) y z ys = ap (λ r. x ∷ r) (set-append_here xs y z ys)

-- What a loop over the classes makes of the old and the new numbers.
abbrev pub together : {D : Type 0} → (D → D → D) → List D → List D → List D
together f (x ∷ xs) (y ∷ ys) = f x y ∷ together f xs ys
together f xs ys = []

module _ {D : Type 0} (pf : Platform D) (print : D → List ℕ) where
  -- A number that is printed is read back, up to the comma behind it.
  pub record Prints : Type 0 where
    pub strtod-print :
        (v : D) (rest : List ℕ) → pf.strtod (print v ++ comma ∷ rest) ≡ (v, comma ∷ rest)
    pub strtol-show_int :
        (i : ℕ) (rest : List ℕ) → pf.strtol (pf.show_int i ++ comma ∷ rest) ≡ (i, comma ∷ rest)

  -- Numbers, each with a comma.
  abbrev pub numbers : List D → List ℕ → List ℕ
  numbers [] rest = rest
  numbers (v ∷ vs) rest = print v ++ comma ∷ numbers vs rest

  -- The loads of the queries, and the end.
  abbrev pub loads : List (QueryInfo D) → List ℕ
  loads [] = 69 ∷ []
  loads (q ∷ qs) = pf.show_int q.query_id ++ comma ∷ (print q.query_load ++ comma ∷ loads qs)

  -- A message of a type, with the numbers of the classes and the loads of the queries.
  abbrev pub load_message : D → List D → List D → List D → List (QueryInfo D) → List ℕ
  load_message type caps usages prios qs =
      78
      ∷ 73
      ∷ comma
      ∷ (print type ++ comma ∷ numbers caps (numbers usages (numbers prios (loads qs))))

  -- The queries of a message are taken over one after the other.
  abbrev pub absorb : List (QueryInfo D) → List (QueryInfo D) → List (QueryInfo D)
  absorb [] qs = qs
  absorb (r ∷ rs) qs = absorb rs (put_load pf r.query_id r.query_load qs)

  -- The node as the message describes it.
  abbrev pub informed : NodeInfo D → List D → List D → List D → List (QueryInfo D) → NodeInfo D
  informed n caps usages prios qs = record n {
    capacities = together (age pf) n.capacities caps;
    capacity_usages = together (age pf) n.capacity_usages usages;
    local_priorities = prios;
    active_queries = absorb qs n.active_queries;
  }

  module _ (laws : Prints) where
    read_classes-numbers :
        (f : D → D → D) (vs old done : List D) (rest : List ℕ)
        → length old ≡ length vs
        → read_classes pf f (length vs) (length done) (done ++ old) (some (numbers vs rest))
          ≡ ok (done ++ together f old vs, some rest)
    unfolding read_classes
    read_classes-numbers f [] [] done rest e = refl
    read_classes-numbers f [] (x ∷ old) done rest e = absurd (omega (arith, e))
    read_classes-numbers f (v ∷ vs) [] done rest e = absurd (omega (arith, e))
    read_classes-numbers f (v ∷ vs) (x ∷ old) done rest e =
        let got = laws.strtod-print v (numbers vs rest) in
        let here = get_elem?-append_here done x old in
        let put = set-append_here done x (f x v) old in
        let size : suc (length done) ≡ length (done ++ f x v ∷ []) =
          omega (arith, length-append done (f x v ∷ [])) in
        let left = append_assoc done (f x v ∷ []) old in
        let rest_of = read_classes-numbers f vs old (done ++ f x v ∷ []) rest (omega (arith, e)) in
        rw (read_classes, got, here, put, size, sym left)
          (rest_of
            ∙ ap (λ xs. ok (xs, some rest)) (append_assoc done (f x v ∷ []) (together f old vs)))

    length-loads : (qs : List (QueryInfo D)) → length qs < length (loads qs)
    length-loads [] = omega arith
    length-loads (q ∷ qs) = omega (
      arith,
      length-loads qs,
      length-append (pf.show_int q.query_id) (comma ∷ (print q.query_load ++ comma ∷ loads qs)),
      length-append (print q.query_load) (comma ∷ loads qs),
    )

    -- No entry is taken for the end.
    goes_on : (xs : List ℕ) (ys : List ℕ) → 0 < length ys → is_end pf (xs ++ comma ∷ ys) ≡ false
    goes_on [] [] h = elim h [ ]
    goes_on [] (y ∷ ys) h = refl
    goes_on (x ∷ []) ys h = refl
    goes_on (x ∷ z ∷ xs) ys h = refl

    read_queries-loads :
        (k : ℕ) (qs acc : List (QueryInfo D))
        → length qs < k
        → read_queries pf k (some (loads qs)) acc ≡ ok (absorb qs acc)
    unfolding read_queries
    read_queries-loads zero qs acc h = elim h [ ]
    read_queries-loads (suc k) [] acc h = refl
    read_queries-loads (suc k) (q ∷ qs) acc h =
        let more =
          goes_on (pf.show_int q.query_id) (print q.query_load ++ comma ∷ loads qs)
            (omega (arith, length-append (print q.query_load) (comma ∷ loads qs))) in
        let id = laws.strtol-show_int q.query_id (print q.query_load ++ comma ∷ loads qs) in
        let load = laws.strtod-print q.query_load (loads qs) in
        rw (read_queries, more, id, load)
          (read_queries-loads k qs (put_load pf q.query_id q.query_load acc) (omega (arith, h)))

    read_levels-numbers :
        (n : NodeInfo D) (caps usages prios : List D) (rest : List ℕ)
        → IsNode n
        → length caps ≡ n.number_of_classes
        → length usages ≡ n.number_of_classes
        → length prios ≡ n.number_of_classes
        → read_levels pf n (some (numbers caps (numbers usages (numbers prios rest))))
          ≡ ok (
            record n {
              capacities = together (age pf) n.capacities caps;
              capacity_usages = together (age pf) n.capacity_usages usages;
              local_priorities = together (λ old new. new) n.local_priorities prios;
            },
            some rest,
          )
    unfolding read_levels
    read_levels-numbers n caps usages prios rest h c u r =
        let first =
          read_classes-numbers (age pf) caps n.capacities [] (numbers usages (numbers prios rest))
            (h.each_capacity ∙ sym c) in
        let second =
          read_classes-numbers (age pf) usages n.capacity_usages [] (numbers prios rest)
            (h.each_usage ∙ sym u) in
        let third =
          read_classes-numbers (λ old new. new) prios n.local_priorities [] rest
            (h.each_priority ∙ sym r) in
        rw (read_levels, rw c at first, rw u at second, rw r at third) refl

    -- The new priorities take the place of the old ones.
    replaced : (old new : List D) → length old ≡ length new → together (λ a b. b) old new ≡ new
    replaced [] [] e = refl
    replaced [] (y ∷ new) e = absurd (omega (arith, e))
    replaced (x ∷ old) [] e = absurd (omega (arith, e))
    replaced (x ∷ old) (y ∷ new) e = ap (λ r. y ∷ r) (replaced old new (omega (arith, e)))

    -- Over a platform that reads back the numbers it prints, a node whose vectors have an entry
    -- for each class is brought up to date by the message of type 0 that lists numbers for all
    -- its classes and loads of queries: its capacities and usages are aged by those of the
    -- message, its priorities replaced, and the loads taken over one after the other.
    pub update-load_message :
        (n : NodeInfo D) (type : D) (caps usages prios : List D) (qs : List (QueryInfo D))
        → IsNode n
        → pf.to_int type ≡ 0
        → length caps ≡ n.number_of_classes
        → length usages ≡ n.number_of_classes
        → length prios ≡ n.number_of_classes
        → update pf n (load_message type caps usages prios qs)
          ≡ ok (informed n caps usages prios qs)
    unfolding update_load_info
    update-load_message n type caps usages prios qs h zero_type c u r =
        let head =
          laws.strtod-print type (numbers caps (numbers usages (numbers prios (loads qs)))) in
        let levels = read_levels-numbers n caps usages prios (loads qs) h c u r in
        let active =
          read_queries-loads (suc (length (loads qs))) qs n.active_queries
            (omega (arith, length-loads qs)) in
        rw
          (
            head,
            zero_type,
            levels,
            active,
            replaced n.local_priorities prios (h.each_priority ∙ sym r),
          )
          refl

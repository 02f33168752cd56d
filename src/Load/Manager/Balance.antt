-- ===== src/Load/Manager/Balance.antt =====
-- The queries are moved from a node with the largest load to one with the smallest.
use p.Common.{
  ℕ, suc, ◌≡◌, refl, sym, subst, true, false, some, List, [], ◌∷◌, ◌++◌, ok, arith, length,
  get_elem?, if◌then◌else◌, ◌==◌, Bool-cases, inl, inr, All, All-map, All-append, append_assoc,
  append-nil, get_elem?-append_here, get_elem?-append_left, get_elem?-lt, length-append,
}
use p.Load.Platform.{Platform}
use p.Load.Node.{NodeInfo, get_total_capacity_usage}
use p.Load.Manager.{LoadManager, At, extremes, insert, migration_message, redistribute_load}

module _ {D : Type 0} (pf : Platform D) where
  -- `<` is an order in which any two numbers are compared: there is no NaN.
  pub record IsOrder : Type 0 where
    pub irrefl : (a : D) → pf.less a a ≡ false
    pub asym : (a b : D) → pf.less a b ≡ true → pf.less b a ≡ false
    pub trans : (a b c : D) → pf.less b a ≡ false → pf.less c b ≡ false → pf.less c a ≡ false

  abbrev pub usage : NodeInfo D → D
  usage = get_total_capacity_usage pf

  -- No node of a list has more, or less, than one of its nodes.
  abbrev pub IsMost : List (NodeInfo D) → At pf → Type 0
  IsMost ns at =
      (get_elem? ns at.0 ≡ some at.1) × All (λ n. pf.less (usage at.1) (usage n) ≡ false) ns

  abbrev pub IsLeast : List (NodeInfo D) → At pf → Type 0
  IsLeast ns at =
      (get_elem? ns at.0 ≡ some at.1) × All (λ n. pf.less (usage n) (usage at.1) ≡ false) ns

  module _ (order : IsOrder) where
    IsMost-so_far :
        (ns : List (NodeInfo D)) (at : At pf) (n : NodeInfo D)
        → IsMost ns at
        → IsMost (ns ++ n ∷ []) (if pf.less (usage at.1) (usage n) then (length ns, n) else at)
    IsMost-so_far ns at n h = elim (Bool-cases (pf.less (usage at.1) (usage n))) [
      | inl more ↦ rw more (
        get_elem?-append_here ns n [],
        All-append _ ns (n ∷ [])
            (All-map _ _
              (λ x le.
                order.trans (usage x) (usage at.1) (usage n) le
                  (order.asym (usage at.1) (usage n) more))
              ns h.1)
            (order.irrefl (usage n), tt),
      )
      | inr enough ↦ rw enough (
        subst (λ o. o ≡ some at.1)
            (sym (get_elem?-append_left ns (n ∷ []) at.0 (get_elem?-lt ns at.0 h.0))) h.0,
        All-append _ ns (n ∷ []) h.1 (enough, tt),
      )
    ]

    IsLeast-so_far :
        (ns : List (NodeInfo D)) (at : At pf) (n : NodeInfo D)
        → IsLeast ns at
        → IsLeast (ns ++ n ∷ []) (if pf.less (usage n) (usage at.1) then (length ns, n) else at)
    IsLeast-so_far ns at n h = elim (Bool-cases (pf.less (usage n) (usage at.1))) [
      | inl fewer ↦ rw fewer (
        get_elem?-append_here ns n [],
        All-append _ ns (n ∷ [])
            (All-map _ _
              (λ x le.
                order.trans (usage n) (usage at.1) (usage x)
                  (order.asym (usage n) (usage at.1) fewer) le)
              ns h.1)
            (order.irrefl (usage n), tt),
      )
      | inr enough ↦ rw enough (
        subst (λ o. o ≡ some at.1)
            (sym (get_elem?-append_left ns (n ∷ []) at.0 (get_elem?-lt ns at.0 h.0))) h.0,
        All-append _ ns (n ∷ []) h.1 (enough, tt),
      )
    ]

    -- The loop, after the nodes of `done`.
    extremes_lem :
        (done rest : List (NodeInfo D)) (i : ℕ) (most least : At pf)
        → i ≡ length done
        → IsMost done most
        → IsLeast done least
        → IsMost (done ++ rest) (extremes pf most least i rest).0
          × IsLeast (done ++ rest) (extremes pf most least i rest).1
    extremes_lem done [] i most least e h k = rw (append-nil done) (h, k)
    extremes_lem done (n ∷ ns) i most least e h k =
        let most' = if pf.less (usage most.1) (usage n) then (i, n) else most in
        let least' = if pf.less (usage n) (usage least.1) then (i, n) else least in
        let ends = extremes pf most' least' (suc i) ns in
        subst (λ all. IsMost all ends.0 × IsLeast all ends.1) (append_assoc done (n ∷ []) ns)
          (extremes_lem (done ++ n ∷ []) ns (suc i) most' least'
            (omega (arith, e, length-append done (n ∷ []))) (rw e (IsMost-so_far done most n h))
            (rw e (IsLeast-so_far done least n k)))

    -- Over numbers of which any two compare, with a node in the list, a redistribution does not
    -- fault: it picks a node than which none is loaded more and a node than which none is loaded
    -- less, and if they stand at different places of the list, enters for the first the message
    -- that moves all its queries to the second; otherwise it decides nothing.
    pub redistribute_load_lem :
        (address : ℕ → List ℕ) (m : LoadManager D) (n : NodeInfo D) (ns : List (NodeInfo D))
        (decision : List (ℕ × List ℕ))
        → m.nodes ≡ n ∷ ns
        → (most least : At pf) × IsMost m.nodes most
          × IsLeast m.nodes least
          × (redistribute_load pf address m decision
              ≡ ok (
                  if most.0 == least.0
                  then decision
                  else insert pf most.1.node_id
                      (migration_message pf address most.1 least.1)
                      decision))
    unfolding redistribute_load
    redistribute_load_lem address m n ns decision e =
        let ends = extremes pf (0, n) (0, n) 1 ns in
        let k =
          extremes_lem (n ∷ []) ns 1 (0, n) (0, n) refl (refl, (order.irrefl (usage n), tt))
            (refl, (order.irrefl (usage n), tt)) in
        rw e (
          ends.0,
          ends.1,
          k.0,
          k.1,
          elim (Bool-cases (ends.0.0 == ends.1.0)) [
            | inl one ↦ rw one refl
            | inr two ↦ rw two refl
          ],
        )

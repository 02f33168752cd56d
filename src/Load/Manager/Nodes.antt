-- ===== src/Load/Manager/Nodes.antt =====
-- The list of nodes stays well formed, and no node in it becomes ready.
use p.Common.{
  ℕ, zero, suc, ◌≡◌, ◌≢◌, refl, sym, ◌∙◌, subst, Bool, true, false, List, [], ◌∷◌, ◌++◌, ◌==◌,
  ==_iff, Result, ok, err, fault, ◌>>=◌, length, Bool-cases, inl, inr, All, All-append, All-map,
  Gives, Gives->>=, Gives-both, ap,
}
use p.Load.Platform.{Platform}
use p.Load.Node.{NodeInfo, new_node, zeros, update}
use p.Load.Node.Message.{IsNode}
use p.Load.Node.Bounds.{Same, update-Same}
use p.Load.Manager.{
  LoadManager, new_load_manager, is_known, add_node, erase, remove_node, inform, update_node_info,
  all_ready, is_all_nodes_ready,
}

module _ {D : Type 0} (pf : Platform D) where
  -- A node of a manager with a number of classes, which has not reported that it is ready.
  pub record IsMember (classes : ℕ) (n : NodeInfo D) : Type 0 where
    pub sizes : IsNode n
    pub all_classes : n.number_of_classes ≡ classes
    pub waiting : n.is_ready ≡ false

  abbrev pub Unlike : NodeInfo D → NodeInfo D → Type 0
  Unlike n k = k.node_id ≢ n.node_id

  -- No two nodes have one identifier.
  abbrev pub Distinct : List (NodeInfo D) → Type 0
  Distinct [] = Unit
  Distinct (n ∷ ns) = All (Unlike n) ns × Distinct ns

  abbrev pub AreNodes : ℕ → List (NodeInfo D) → Type 0
  AreNodes classes ns = All (IsMember classes) ns × Distinct ns

  abbrev pub IsManager : LoadManager D → Type 0
  IsManager m = AreNodes m.num_of_classes m.nodes

  length-zeros : (k : ℕ) → length (zeros pf k) ≡ k
  length-zeros zero = refl
  length-zeros (suc k) = ap suc (length-zeros k)

  is_known-false :
      (id : ℕ) (ns : List (NodeInfo D)) → is_known id ns ≡ false → All (λ k. k.node_id ≢ id) ns
  is_known-false id [] e = tt
  is_known-false id (n ∷ ns) e = elim (Bool-cases (n.node_id == id)) [
    | inl same ↦ let k : true ≡ false = rw same at e in cc
    | inr other ↦
        ((λ f. let k = (==_iff n.node_id id).1 f in cc), is_known-false id ns (rw other at e))
  ]

  Distinct-append :
      (ns : List (NodeInfo D)) (n : NodeInfo D)
      → Distinct ns
      → All (λ k. k.node_id ≢ n.node_id) ns
      → Distinct (ns ++ n ∷ [])
  Distinct-append [] n d a = (tt, tt)
  Distinct-append (k ∷ ns) n d a =
      (All-append (Unlike k) ns (n ∷ []) d.0 ((λ e. a.0 (sym e)), tt), Distinct-append ns n d.1 a.1)

  add_node-IsManager :
      (m : LoadManager D) (id : ℕ) → IsManager m → Gives IsManager (add_node pf m id)
  unfolding add_node
  add_node-IsManager m id h = elim (Bool-cases (is_known id m.nodes)) [
    | inl known ↦ rw known tt
    | inr new ↦
        let n = record (new_node pf m.num_of_classes) { node_id = id } in
        let size = length-zeros m.num_of_classes in
        rw new (
          All-append (IsMember m.num_of_classes) m.nodes (n ∷ []) h.0 (
            record {
              sizes = record { each_capacity = size; each_usage = size; each_priority = size };
              all_classes = refl;
              waiting = refl;
            },
            tt,
          ),
          Distinct-append m.nodes n h.1 (is_known-false id m.nodes new),
        )
  ]

  -- What is left of a list has only nodes of that list.
  erase-All :
      (P : NodeInfo D → Type 0) (id : ℕ) (ns : List (NodeInfo D))
      → All P ns
      → Gives (All P) (erase pf id ns)
  erase-All P id [] a = tt
  erase-All P id (n ∷ ns) a = elim (Bool-cases (n.node_id == id)) [
    | inl here ↦ rw here (a.1)
    | inr other ↦ rw other (
        Gives->>= (All P) (All P) (erase pf id ns) (λ rest. ok (n ∷ rest)) (erase-All P id ns a.1)
          λ rest r. (a.0, r))
  ]

  erase-Distinct : (id : ℕ) (ns : List (NodeInfo D)) → Distinct ns → Gives Distinct (erase pf id ns)
  erase-Distinct id [] d = tt
  erase-Distinct id (n ∷ ns) d = elim (Bool-cases (n.node_id == id)) [
    | inl here ↦ rw here (d.1)
    | inr other ↦
        let left =
          Gives-both (All (Unlike n)) Distinct (erase pf id ns) (erase-All (Unlike n) id ns d.0)
            (erase-Distinct id ns d.1) in
        rw other (
          Gives->>= (λ r. All (Unlike n) r × Distinct r) Distinct (erase pf id ns)
            (λ rest. ok (n ∷ rest)) left λ rest r. r)
  ]

  -- What a message changes about a node that it is not told.
  inform-All :
      (P : NodeInfo D → Type 0)
      → ((n n' : NodeInfo D) → Same pf n n' → P n → P n')
      → (id : ℕ) (msg : List ℕ) (ns : List (NodeInfo D)) → All P ns
      → Gives (All P) (inform pf id msg ns)
  inform-All P keep id msg [] a = tt
  inform-All P keep id msg (n ∷ ns) a = elim (Bool-cases (n.node_id == id)) [
    | inl here ↦ rw here (
        Gives->>= (Same pf n) (All P) (update pf n msg) (λ n'. ok (n' ∷ ns)) (update-Same pf n msg)
          λ n' h. (keep n n' h a.0, a.1))
    | inr other ↦ rw other (
        Gives->>= (All P) (All P) (inform pf id msg ns) (λ rest. ok (n ∷ rest))
          (inform-All P keep id msg ns a.1) λ rest r. (a.0, r))
  ]

  inform-Distinct :
      (id : ℕ) (msg : List ℕ) (ns : List (NodeInfo D))
      → Distinct ns
      → Gives Distinct (inform pf id msg ns)
  inform-Distinct id msg [] d = tt
  inform-Distinct id msg (n ∷ ns) d = elim (Bool-cases (n.node_id == id)) [
    | inl here ↦ rw here (
        Gives->>= (Same pf n) Distinct (update pf n msg) (λ n'. ok (n' ∷ ns)) (update-Same pf n msg)
          λ n' h. (All-map (Unlike n) (Unlike n') (λ k other e. other (e ∙ h.same_id)) ns d.0, d.1))
    | inr other ↦
        let unlike = inform-All (Unlike n) (λ k k' h o e. o (sym h.same_id ∙ e)) id msg ns d.0 in
        let left =
          Gives-both (All (Unlike n)) Distinct (inform pf id msg ns) unlike
            (inform-Distinct id msg ns d.1) in
        rw other (
          Gives->>= (λ r. All (Unlike n) r × Distinct r) Distinct (inform pf id msg ns)
            (λ rest. ok (n ∷ rest)) left λ rest r. r)
  ]

  IsMember-Same :
      (classes : ℕ) (n n' : NodeInfo D) → Same pf n n' → IsMember classes n → IsMember classes n'
  IsMember-Same classes n n' h k = record {
    sizes = h.sized k.sizes;
    all_classes = h.same_classes ∙ k.all_classes;
    waiting = h.same_ready ∙ k.waiting;
  }

  -- The calls that change the list.
  pub data Event : Type 0 where
    join leave : ℕ → Event
    report : ℕ → List ℕ → Event

  abbrev pub apply : LoadManager D → Event → Result (LoadManager D)
  apply m (join id) = add_node pf m id
  apply m (leave id) = remove_node pf m id
  apply m (report id msg) = update_node_info pf m id msg

  -- A call that returns -1 changes nothing.
  abbrev pub settle : LoadManager D → Result (LoadManager D) → Result (LoadManager D)
  settle m (ok m') = ok m'
  settle m (err e) = ok m
  settle m fault = fault

  unfoldable pub run : LoadManager D → List Event → Result (LoadManager D)
  run m [] = ok m
  run m (e ∷ es) = settle m (apply m e) >>= λ m'. run m' es

  apply-IsManager : (m : LoadManager D) (e : Event) → IsManager m → Gives IsManager (apply m e)
  unfolding remove_node update_node_info
  apply-IsManager m (join id) h = add_node-IsManager m id h
  apply-IsManager m (leave id) h =
      let P = IsMember m.num_of_classes in
      Gives->>= (λ ns. All P ns × Distinct ns) IsManager (erase pf id m.nodes)
        (λ ns. ok (record m { nodes = ns }))
        (Gives-both (All P) Distinct (erase pf id m.nodes) (erase-All P id m.nodes h.0)
          (erase-Distinct id m.nodes h.1))
        λ ns r. r
  apply-IsManager m (report id msg) h =
      let P = IsMember m.num_of_classes in
      Gives->>= (λ ns. All P ns × Distinct ns) IsManager (inform pf id msg m.nodes)
        (λ ns. ok (record m { nodes = ns }))
        (Gives-both (All P) Distinct (inform pf id msg m.nodes)
          (inform-All P (IsMember-Same m.num_of_classes) id msg m.nodes h.0)
          (inform-Distinct id msg m.nodes h.1))
        λ ns r. r

  settle-IsManager :
      (m : LoadManager D) (r : Result (LoadManager D))
      → IsManager m
      → Gives IsManager r
      → Gives IsManager (settle m r)
  settle-IsManager m (ok m') h k = k
  settle-IsManager m (err e) h k = h
  settle-IsManager m fault h k = tt

  run_keeps : (m : LoadManager D) (es : List Event) → IsManager m → Gives IsManager (run m es)
  unfolding run
  run_keeps m [] h = h
  run_keeps m (e ∷ es) h =
      Gives->>= IsManager IsManager (settle m (apply m e)) (λ m'. run m' es)
        (settle-IsManager m (apply m e) h (apply-IsManager m e h)) λ m' k. run_keeps m' es k

  abbrev pub is_empty : List (NodeInfo D) → Bool
  is_empty [] = true
  is_empty ns = false

  none_ready :
      (classes : ℕ) (ns : List (NodeInfo D))
      → All (IsMember classes) ns
      → all_ready pf ns ≡ is_empty ns
  none_ready classes [] h = refl
  none_ready classes (n ∷ ns) h = rw (h.0.waiting) refl

  -- From an empty list of nodes, any sequence of nodes that join, leave and report, of which some
  -- may return -1 and none faults, leads to a list in which no two nodes have one identifier and
  -- every node has an entry for each class in each of its vectors; all nodes are ready only if
  -- there is none.
  pub run-IsManager :
      (classes : ℕ) (es : List Event) (m : LoadManager D)
      → run (new_load_manager classes) es ≡ ok m
      → IsManager m × (is_all_nodes_ready pf m ≡ is_empty m.nodes)
  run-IsManager classes es m e =
      let h : IsManager m =
        subst (Gives IsManager) e (run_keeps (new_load_manager classes) es (tt, tt)) in
      (h, none_ready m.num_of_classes m.nodes h.0)

-- ===== src/Coordinator/Sockets/Migration.antt =====
-- The migration thread never looks for the largest load of no nodes.
use p.Common.{
  ℕ, ◌≡◌, refl, sym, subst, ◌∙◌, ◌⊎◌, inl, inr, Bool, true, false, some, List, [], ◌∷◌, ◌++◌, ◌==◌,
  ==_iff, Result, ok, err, fault, get_elem?, set, if◌then◌else◌, Bool-cases, Option-cases, All,
  All-get, Gives, Gives->>=, Gives-any,
}
use p.Load.Platform.{Platform}
use p.Load.Node.{NodeInfo, update}
use p.Load.Manager.{
  LoadManager, is_known, add_node, inform, update_node_info, redistribute_load, extremes, insert,
  migration_message,
}
use p.Load.Manager.Nodes.{is_empty}
use p.Coordinator.Sockets.{
  Network, new_network, or_before, Event, connect, report, gone, wake, decide, accepting_conn,
  no_client, handle_client_report, client_at, send, wake_up, manage_migration, step, run,
}

module _ {D : Type 0} (pf : Platform D) (serverfd : ℕ) (address : ℕ → List ℕ) where
  -- Some node is known, or there is no client and no report.
  abbrev pub IsNetwork : Network D → Type 0
  IsNetwork c =
      (is_empty pf c.load_mgr.nodes ≡ false)
      ⊎ (All (λ fd. no_client pf serverfd address fd ≡ true) c.sockfds
          × (c.is_update_ready ≡ false)
          × (c.is_deciding ≡ false))

  Some : LoadManager D → Type 0
  Some m = is_empty pf m.nodes ≡ false

  append_some : (ns : List (NodeInfo D)) (n : NodeInfo D) → is_empty pf (ns ++ n ∷ []) ≡ false
  append_some [] n = refl
  append_some (k ∷ ns) n = refl

  known_some : (id : ℕ) (ns : List (NodeInfo D)) → is_known id ns ≡ true → is_empty pf ns ≡ false
  known_some id [] e = cc
  known_some id (n ∷ ns) e = refl

  -- After a node is added, or known already, there is one.
  joined : (m : LoadManager D) (id : ℕ) → Gives Some (or_before m (add_node pf m id))
  unfolding add_node Some
  joined m id = elim (Bool-cases (is_known id m.nodes)) [
    | inl known ↦ rw known (known_some id m.nodes known)
    | inr new ↦ rw new (append_some m.nodes _)
  ]

  -- A message leaves the nodes in the list.
  inform-Some :
      (id : ℕ) (msg : List ℕ) (ns : List (NodeInfo D))
      → Gives (λ r. is_empty pf r ≡ false) (inform pf id msg ns)
  inform-Some id msg [] = tt
  inform-Some id msg (n ∷ ns) = elim (Bool-cases (n.node_id == id)) [
    | inl here ↦ rw here (
        Gives->>= (λ _. Unit) (λ r. is_empty pf r ≡ false) (update pf n msg) (λ n'. ok (n' ∷ ns))
          (Gives-any (update pf n msg)) λ n' _. refl)
    | inr other ↦ rw other (
        Gives->>= (λ _. Unit) (λ r. is_empty pf r ≡ false) (inform pf id msg ns)
          (λ rest. ok (n ∷ rest)) (Gives-any (inform pf id msg ns)) λ rest _. refl)
  ]

  Gives-before :
      (P : LoadManager D → Type 0) (m : LoadManager D) (r : Result (LoadManager D))
      → P m
      → Gives P r
      → Gives P (or_before m r)
  Gives-before P m (ok n) p h = h
  Gives-before P m (err e) p h = p
  Gives-before P m fault p h = tt

  -- A socket with a client is in a network with a node.
  client-Some :
      (c : Network D) (i fd : ℕ)
      → IsNetwork c
      → get_elem? c.sockfds i ≡ some fd
      → no_client pf serverfd address fd ≡ false
      → is_empty pf c.load_mgr.nodes ≡ false
  client-Some c i fd (inl h) at k = h
  client-Some c i fd (inr (a, _, _)) at k = let no = All-get _ c.sockfds i a at in cc

  client_at-IsNetwork :
      (c : Network D) (i : ℕ) (f : ℕ → Result (Network D))
      → IsNetwork c
      → ((fd : ℕ) → is_empty pf c.load_mgr.nodes ≡ false → Gives IsNetwork (f fd))
      → Gives IsNetwork (client_at pf serverfd address c i f)
  client_at-IsNetwork c i f h k = elim (Option-cases (get_elem? c.sockfds i)) [
    | inl beyond ↦ rw (beyond, client_at, Gives) h
    | inr (fd, at) ↦ elim (Bool-cases (no_client pf serverfd address fd)) [
      | inl empty ↦ rw (at, client_at, empty, Gives) h
      | inr client ↦ rw (at, client_at, client, Gives) (k fd (client-Some c i fd h at client))
    ]
  ]

  some_node :
      (ns : List (NodeInfo D))
      → is_empty pf ns ≡ false
      → (n : NodeInfo D) × (rest : List (NodeInfo D)) × (ns ≡ n ∷ rest)
  some_node [] e = cc
  some_node (n ∷ ns) e = (n, ns, refl)

  decides :
      (m : LoadManager D)
      → is_empty pf m.nodes ≡ false
      → (decision : List (ℕ × List ℕ)) × (redistribute_load pf address m [] ≡ ok decision)
  unfolding redistribute_load
  decides m e =
      let (n, ns, at) = some_node m.nodes e in
      let ends = extremes pf (0, n) (0, n) 1 ns in
      elim (Bool-cases (ends.0.0 == ends.1.0)) [
        | inl one ↦ ([], rw (at, one) refl)
        | inr two ↦ (
          insert pf ends.0.1.node_id (migration_message pf address ends.0.1 ends.1.1) [],
          rw (at, two) refl,
        )
      ]

  -- A round of the migration comes to its end.
  migrates :
      (c : Network D)
      → IsNetwork c
      → (d : Network D) × (manage_migration pf serverfd address c ≡ ok d) × IsNetwork d
  unfolding manage_migration
  migrates c (inr (a, quiet, idle)) = (c, rw idle refl, inr (a, quiet, idle))
  migrates c (inl h) = elim (Bool-cases c.is_deciding) [
    | inl ready ↦
        let (decision, made) = decides c.load_mgr h in
        let sends = send pf serverfd address c.count c.sent decision in
        (
          record c { is_deciding = false; count = sends.0; sent = sends.1 },
          rw (ready, made) refl,
          inl h,
        )
    | inr idle ↦ (c, rw idle refl, inl h)
  ]

  asleep :
      (c : Network D)
      → c.is_update_ready ≡ false
      → c.is_deciding ≡ false
      → wake_up pf serverfd address c ≡ c
  asleep c quiet idle = if_false c _ c.is_deciding idle ∙ if_false _ c c.is_update_ready quiet
    where
      if_false : (x y : Network D) (b : Bool) → b ≡ false → (if b then x else y) ≡ y
      if_false x y true e = cc
      if_false x y false e = refl

  woken : (c : Network D) → IsNetwork c → IsNetwork (wake_up pf serverfd address c)
  woken c (inr (a, quiet, idle)) =
      subst IsNetwork (sym (asleep c quiet idle)) (inr (a, quiet, idle))
  woken c (inl h) = elim (Bool-cases c.is_deciding) [
    | inl busy ↦ rw busy (inl h)
    | inr idle ↦ elim (Bool-cases c.is_update_ready) [
      | inl ready ↦ rw (idle, ready) (inl h)
      | inr quiet ↦ rw (idle, quiet) (inl h)
    ]
  ]

  step-IsNetwork :
      (c : Network D) (e : Event) → IsNetwork c → Gives IsNetwork (step pf serverfd address c e)
  unfolding accepting_conn handle_client_report update_node_info Some
  step-IsNetwork c (connect fd) h =
      Gives->>= Some IsNetwork (or_before c.load_mgr (add_node pf c.load_mgr fd)) _
        (joined c.load_mgr fd) λ m some_node. inl some_node
  step-IsNetwork c (report i msg) h =
      client_at-IsNetwork c i (λ fd. handle_client_report pf serverfd address c fd msg) h
        λ fd there.
          let told =
            Gives->>= (λ r. is_empty pf r ≡ false) Some (inform pf fd msg c.load_mgr.nodes)
              (λ ns. ok (record (c.load_mgr) { nodes = ns })) (inform-Some fd msg c.load_mgr.nodes)
              λ ns e. e in
          Gives->>= Some IsNetwork (or_before c.load_mgr (update_node_info pf c.load_mgr fd msg)) _
            (Gives-before Some c.load_mgr (update_node_info pf c.load_mgr fd msg) there told)
            λ m e. inl e
  step-IsNetwork c (gone i) h =
      client_at-IsNetwork c i (λ fd. ok (record c { sockfds = set c.sockfds i 0 })) h
        λ fd there. inl there
  step-IsNetwork c wake h = woken c h
  step-IsNetwork c decide h = let (d, made, k) = migrates c h in rw made k

  run-IsNetwork :
      (c : Network D) (es : List Event)
      → IsNetwork c
      → Gives IsNetwork (run pf serverfd address c es)
  unfolding run
  run-IsNetwork c [] h = h
  run-IsNetwork c (e ∷ es) h =
      Gives->>= IsNetwork IsNetwork (step pf serverfd address c e)
        (λ d. run pf serverfd address d es) (step-IsNetwork c e h) λ d k. run-IsNetwork d es k

  -- The table at the start has no client.
  at_start : (classes : ℕ) → IsNetwork (new_network serverfd classes)
  at_start classes = inr (
    (free_or_server, (refl, (refl, (refl, (refl, (refl, (refl, (refl, (refl, (refl, tt)))))))))),
    refl,
    refl,
  )
    where
      free_or_server : no_client pf serverfd address serverfd ≡ true
      free_or_server =
          let same = (==_iff serverfd serverfd).1 refl in
          elim (Bool-cases (serverfd == 0)) [
            | inl free ↦ rw free refl
            | inr taken ↦ rw (taken, same) refl
          ]

  -- From the start of the coordinator, after any sequence of connections, reports, clients that
  -- leave and steps of the migration thread in which nothing faults, the migration thread comes
  -- to the end of a decision: it never looks for the largest load in an empty list of nodes.
  pub manage_migration_total :
      (classes : ℕ) (es : List Event) (c : Network D)
      → run pf serverfd address (new_network serverfd classes) es ≡ ok c
      → (d : Network D) × (manage_migration pf serverfd address c ≡ ok d)
  manage_migration_total classes es c e =
      let h : IsNetwork c =
        subst (Gives IsNetwork) e
          (run-IsNetwork (new_network serverfd classes) es (at_start classes)) in
      let (d, made, k) = migrates c h in (d, made)

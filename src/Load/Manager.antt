-- ===== src/Load/Manager.antt =====
-- AQSIOSCoordinator/src/load_manager.cpp and its header: the list of the nodes. Every call holds the
-- mutex from its first to its last access of the list, so that a call is one step.
pub mod Nodes
pub mod Balance
use p.Common.{
  ℕ, zero, suc, Bool, true, false, Option, none, some, List, [], ◌∷◌, ◌++◌, ◌==◌, Result, ok, err,
  fault, fail, ◌>>=◌, ◌>>◌, return_if, if◌then◌else◌,
}
use p.Load.Platform.{Platform, comma}
use p.Load.Node.{NodeInfo, QueryInfo, new_node, update, get_total_capacity_usage}

pub record LoadManager (D : Type 0) : Type 0 where
  pub nodes : List (NodeInfo D)
  pub num_of_classes : ℕ

-- The constructor.
abbrev pub new_load_manager : {D : Type 0} → ℕ → LoadManager D
new_load_manager classes = record { nodes = []; num_of_classes = classes }

-- The search of `addNode`.
abbrev pub is_known : {D : Type 0} → ℕ → List (NodeInfo D) → Bool
is_known id [] = false
is_known id (n ∷ ns) = if n.node_id == id then true else is_known id ns

module _ {D : Type 0} (pf : Platform D) where
  -- `addNode`
  unfoldable pub add_node : LoadManager D → ℕ → Result (LoadManager D)
  add_node m id = do
    return_if (is_known id m.nodes) fail
    ok (record m { nodes = m.nodes ++ record (new_node pf m.num_of_classes) { node_id = id } ∷ [] })

  -- The list without the first node of an identifier.
  abbrev pub erase : ℕ → List (NodeInfo D) → Result (List (NodeInfo D))
  erase id [] = err fail
  erase id (n ∷ ns) = if n.node_id == id then ok ns else (do rest ← erase id ns; ok (n ∷ rest))

  -- `removeNode`
  unfoldable pub remove_node : LoadManager D → ℕ → Result (LoadManager D)
  remove_node m id = do ns ← erase id m.nodes; ok (record m { nodes = ns })

  -- The first node of an identifier takes a message.
  abbrev pub inform : ℕ → List ℕ → List (NodeInfo D) → Result (List (NodeInfo D))
  inform id msg [] = err fail
  inform id msg (n ∷ ns) =
      if n.node_id == id
      then (do n' ← update pf n msg; ok (n' ∷ ns))
      else (do rest ← inform id msg ns; ok (n ∷ rest))

  -- `updateNodeInfo`
  unfoldable pub update_node_info : LoadManager D → ℕ → List ℕ → Result (LoadManager D)
  update_node_info m id msg = do ns ← inform id msg m.nodes; ok (record m { nodes = ns })

  abbrev pub all_ready : List (NodeInfo D) → Bool
  all_ready [] = true
  all_ready (n ∷ ns) = if n.is_ready then all_ready ns else false

  -- `isAllNodesReady`
  abbrev pub is_all_nodes_ready : LoadManager D → Bool
  is_all_nodes_ready m = all_ready m.nodes

  -- A node with its position in the list: an iterator.
  abbrev pub At : Type 0
  At = ℕ × NodeInfo D

  -- The loop over the nodes: the first of those with the largest load, and of those with the smallest.
  abbrev pub extremes : At → At → ℕ → List (NodeInfo D) → At × At
  extremes most least i [] = (most, least)
  extremes most least i (n ∷ ns) =
      let usage = get_total_capacity_usage pf n in
      extremes (if pf.less (get_total_capacity_usage pf most.1) usage then (i, n) else most)
        (if pf.less usage (get_total_capacity_usage pf least.1) then (i, n) else least) (suc i) ns

  -- The identifiers of the queries, each with a comma.
  abbrev pub query_ids : List (QueryInfo D) → List ℕ
  query_ids [] = []
  query_ids (q ∷ qs) = pf.show_int q.query_id ++ comma ∷ query_ids qs

  -- The message to the node that gives its queries away; `address` is `getNodeAddress`.
  abbrev pub migration_message : (ℕ → List ℕ) → NodeInfo D → NodeInfo D → List ℕ
  migration_message address most least =
      81
      ∷ 77
      ∷ comma
      ∷ (address least.node_id
          ++ comma
            ∷ (pf.show_int least.listening_port
                ++ comma ∷ (query_ids most.active_queries ++ 69 ∷ [])))

  -- `map::insert`: a key that is there keeps its value.
  abbrev pub insert : ℕ → List ℕ → List (ℕ × List ℕ) → List (ℕ × List ℕ)
  insert key value [] = (key, value) ∷ []
  insert key value (e ∷ es) = if e.0 == key then e ∷ es else e ∷ insert key value es

  -- `redistributeLoad`: with no node, the iterator behind the last is moved on.
  unfoldable pub redistribute_load :
      (ℕ → List ℕ) → LoadManager D → List (ℕ × List ℕ) → Result (List (ℕ × List ℕ))
  redistribute_load address m decision = elim m.nodes [
    | [] ↦ fault
    | n ∷ ns ↦
        let ends = extremes (0, n) (0, n) 1 ns in
        if ends.0.0 == ends.1.0
        then ok decision
        else ok (insert ends.0.1.node_id (migration_message address ends.0.1 ends.1.1) decision)
  ]

-- ===== src/Load/Tests.antt =====
-- Two nodes on a platform whose numbers are natural numbers, each printed as one byte.
use p.Common.{
  ℕ, ◌+◌, ◌-◌, ◌*◌, ◌<◌, ◌≤◌, ◌≡◌, refl, ap, ◌⊎◌, some, List, [], ◌∷◌, ok, err, fault, fail, arith,
  length, set, ltb, if◌then◌else◌, ◌==◌,
}
use p.Load.Platform.{Platform}
use p.Load.Node.{
  QueryInfo, NodeInfo, pos, negsuc, new_node, set_capacity, update, read_queries, update_load_info,
  read_levels, read_classes,
}
use p.Load.Node.Message.{IsNode, Prints, load_message, informed, update-load_message}
use p.Load.Node.Bounds.{set_capacity_cases, Reads, read_queries_enough}
use p.Load.Manager.{
  LoadManager, new_load_manager, At, add_node, update_node_info, remove_node, is_all_nodes_ready,
  redistribute_load, insert, migration_message,
}
use p.Load.Manager.Balance.{IsOrder, IsMost, IsLeast, redistribute_load_lem}
use p.Load.Manager.Nodes.{IsManager, is_empty, join, leave, report, Event, run, run-IsManager}

abbrev digit : List ℕ → ℕ × List ℕ
digit [] = (0, [])
digit (c ∷ text) = (c - 48, text)

abbrev pub print : ℕ → List ℕ
print n = (48 + n) ∷ []

abbrev pub whole : Platform ℕ
whole = record {
  zero_d = 0;
  ◌+d◌ = λ a b. a + b;
  ◌*d◌ = λ a b. a * b;
  less = ltb;
  hundredth = 1;
  aging_factor = 1;
  kept_factor = 1;
  to_int = λ n. n;
  strtod = digit;
  strtol = digit;
  show_int = print;
}

whole-Prints : Prints whole print
whole-Prints = record {
  strtod-print = λ v rest. ap (λ n. (n, 44 ∷ rest)) (omega arith);
  strtol-show_int = λ v rest. ap (λ n. (n, 44 ∷ rest)) (omega arith);
}

length-digit : (text : List ℕ) → length (digit text).1 ≤ length text
length-digit [] = omega arith
length-digit (c ∷ text) = omega arith

whole-Reads : Reads whole
whole-Reads = record { strtod_length = length-digit; strtol_length = length-digit }

whole-IsOrder : IsOrder whole
whole-IsOrder = record {
  irrefl = λ a. ground arith;
  asym = λ a b h. ground arith;
  trans = λ a b c h k. ground arith;
}

abbrev node : NodeInfo ℕ
node = new_node whole 2

node-IsNode : IsNode node
node-IsNode = record { each_capacity = refl; each_usage = refl; each_priority = refl }

abbrev loads : List (QueryInfo ℕ)
loads = record { query_id = 7; query_load = 3 } ∷ record { query_id = 8; query_load = 1 } ∷ []

update-load_message_example :
    update whole node (load_message whole print 0 (5 ∷ 6 ∷ []) (1 ∷ 2 ∷ []) (1 ∷ 1 ∷ []) loads)
    ≡ ok (informed whole print node (5 ∷ 6 ∷ []) (1 ∷ 2 ∷ []) (1 ∷ 1 ∷ []) loads)
update-load_message_example =
    update-load_message whole print whole-Prints node 0 (5 ∷ 6 ∷ []) (1 ∷ 2 ∷ []) (1 ∷ 1 ∷ []) loads
      node-IsNode refl refl refl refl

set_capacity_cases_example :
    (set_capacity whole node (negsuc 2) 9 ≡ err fail)
    × ((2 < 2)
          × (set_capacity whole node (pos 2) 9
              ≡ ok (record node { capacities = set node.capacities 2 9 }))
        ⊎ (2 ≡ node.number_of_classes) × (set_capacity whole node (pos 2) 9 ≡ fault)
        ⊎ (2 < 2) × (set_capacity whole node (pos 2) 9 ≡ err fail))
set_capacity_cases_example = set_capacity_cases whole node 2 9 node-IsNode

-- `7,3,E`
abbrev message : List ℕ
message = 55 ∷ 44 ∷ 51 ∷ 44 ∷ 69 ∷ []

read_queries_enough_example :
    read_queries whole 6 (some message) [] ≡ read_queries whole 20 (some message) []
read_queries_enough_example =
    read_queries_enough whole whole-Reads 6 20 (some message) [] (omega arith) (omega arith)

abbrev busy : NodeInfo ℕ
busy = record node { capacity_usages = 1 ∷ 2 ∷ []; active_queries = loads; node_id = 5 }

abbrev idle : NodeInfo ℕ
idle = record node { node_id = 4; listening_port = 9 }

abbrev both : LoadManager ℕ
both = record { nodes = idle ∷ busy ∷ []; num_of_classes = 2 }

redistribute_load_lem_example :
    (most least : At whole) × IsMost whole both.nodes most
    × IsLeast whole both.nodes least
    × (redistribute_load whole print both []
        ≡ ok (
            if most.0 == least.0
            then []
            else insert whole most.1.node_id (migration_message whole print most.1 least.1) []))
redistribute_load_lem_example =
    redistribute_load_lem whole whole-IsOrder print both idle (busy ∷ []) [] refl

abbrev events : List (Event whole)
events =
    join 4
    ∷ join 5
    ∷ join 4
    ∷ report 5 (load_message whole print 0 (5 ∷ 6 ∷ []) (1 ∷ 2 ∷ []) (1 ∷ 1 ∷ []) loads)
    ∷ leave 4
    ∷ []

abbrev reported : NodeInfo ℕ
reported = record node {
  node_id = 5;
  capacities = 5 ∷ 6 ∷ [];
  capacity_usages = 1 ∷ 2 ∷ [];
  local_priorities = 1 ∷ 1 ∷ [];
  active_queries = loads;
}

abbrev last : LoadManager ℕ
last = record { nodes = reported ∷ []; num_of_classes = 2 }

ran : run whole (new_load_manager 2) events ≡ ok last
unfolding run add_node remove_node update_node_info update_load_info read_levels read_classes
    read_queries
ran = refl

run-IsManager_example :
    IsManager whole last × (is_all_nodes_ready whole last ≡ is_empty whole last.nodes)
run-IsManager_example = run-IsManager whole 2 events last ran

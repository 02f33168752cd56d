-- ===== src/Load/Node.antt =====
-- AQSIOSCoordinator/src/node_info.cc and its header: what is known of a node. A message is the list of
-- its bytes before the null byte.
pub mod Message
pub mod Bounds
use p.Common.{
  ℕ, zero, suc, ◌+◌, Bool, true, false, Option, none, some, List, [], ◌∷◌, ◌++◌, Result, ok, err,
  fault, fail, ◌>>=◌, ◌>>◌, return_if, or_fault, length, get_elem?, set, if◌then◌else◌, ◌==◌, ltb,
}
use p.Load.Platform.{Platform, Cursor, next, read, behind_comma, starts}

pub record QueryInfo (D : Type 0) : Type 0 where
  pub query_id : ℕ
  pub query_load : D

pub record NodeInfo (D : Type 0) : Type 0 where
  pub number_of_classes : ℕ
  pub capacities : List D
  pub capacity_usages : List D
  pub local_priorities : List D
  pub active_queries : List (QueryInfo D)
  pub is_ready : Bool
  pub node_id : ℕ
  pub listening_port : ℕ

-- A class as an `int`: the second case is one below zero.
pub data ClassId : Type 0 where
  pos negsuc : ℕ → ClassId

module _ {D : Type 0} (pf : Platform D) where
  -- The vectors of the constructor.
  abbrev pub zeros : ℕ → List D
  zeros zero = []
  zeros (suc n) = pf.zero_d ∷ zeros n

  -- The constructor.
  abbrev pub new_node : ℕ → NodeInfo D
  new_node classes = record {
    number_of_classes = classes;
    capacities = zeros classes;
    capacity_usages = zeros classes;
    local_priorities = zeros classes;
    active_queries = [];
    is_ready = false;
    node_id = 0;
    listening_port = 0;
  }

  -- The test of a class that the setters share, and the write: a class that is as large as the number
  -- of classes passes the test.
  abbrev pub set_class : NodeInfo D → ClassId → List D → D → Result (List D)
  set_class n (negsuc c) xs v = err fail
  set_class n (pos c) xs v =
      if ltb n.number_of_classes c
      then err fail
      else (if ltb c (length xs) then ok (set xs c v) else fault)

  pub set_capacity : NodeInfo D → ClassId → D → Result (NodeInfo D)
  set_capacity n c v = do xs ← set_class n c n.capacities v; ok (record n { capacities = xs })

  pub set_capacity_usage : NodeInfo D → ClassId → D → Result (NodeInfo D)
  set_capacity_usage n c v = do
    xs ← set_class n c n.capacity_usages v
    ok (record n { capacity_usages = xs })

  pub set_local_priority : NodeInfo D → ClassId → D → Result (NodeInfo D)
  set_local_priority n c v = do
    xs ← set_class n c n.local_priorities v
    ok (record n { local_priorities = xs })

  -- The moving average; a number below a hundredth counts as none.
  abbrev pub age : D → D → D
  age old new =
      if pf.less old pf.hundredth
      then new
      else pf.◌+d◌ (pf.◌*d◌ old pf.kept_factor) (pf.◌*d◌ pf.aging_factor new)

  -- The loops over the classes, of which `k` are left from class `i` on.
  unfoldable pub read_classes : (D → D → D) → ℕ → ℕ → List D → Cursor → Result (List D × Cursor)
  read_classes f zero i xs msg = ok (xs, msg)
  read_classes f (suc k) i xs msg = do
    text ← read msg
    old ← or_fault (get_elem? xs i)
    read_classes f k (suc i) (set xs i (f old (pf.strtod text).0)) (next (some (pf.strtod text).1))

  -- The load of a query: the entry that is there is aged, or there is a new one.
  abbrev pub put_load : ℕ → D → List (QueryInfo D) → List (QueryInfo D)
  put_load id load [] = record { query_id = id; query_load = load } ∷ []
  put_load id load (q ∷ qs) =
      if q.query_id == id
      then record q { query_load = age q.query_load load } ∷ qs
      else q ∷ put_load id load qs

  -- `strcmp (msg, "E") == 0`
  abbrev pub is_end : List ℕ → Bool
  is_end (c ∷ []) = c == 69
  is_end text = false

  -- The loop over the queries. A pass moves the pointer by two bytes at least, so that the length of the
  -- message is fuel enough.
  unfoldable pub read_queries : ℕ → Cursor → List (QueryInfo D) → Result (List (QueryInfo D))
  read_queries zero msg qs = fault
  read_queries (suc k) msg qs = do
    text ← read msg
    if is_end text then ok qs else do
      load_text ← read (next (some (pf.strtol text).1))
      read_queries k (next (some (pf.strtod load_text).1))
          (put_load (pf.strtol text).0 (pf.strtod load_text).0 qs)

  -- The class-level part of a message.
  unfoldable pub read_levels : NodeInfo D → Cursor → Result (NodeInfo D × Cursor)
  read_levels n msg = do
    caps ← read_classes age n.number_of_classes 0 n.capacities msg
    usages ← read_classes age n.number_of_classes 0 n.capacity_usages caps.1
    prios ← read_classes (λ old new. new) n.number_of_classes 0 n.local_priorities usages.1
    ok (
      record n { capacities = caps.0; capacity_usages = usages.0; local_priorities = prios.0 },
      prios.1,
    )

  -- The queries of a message, and the fuel for them.
  abbrev pub read_active : NodeInfo D → Cursor → Result (NodeInfo D)
  read_active n none = fault
  read_active n (some text) = do
    qs ← read_queries (suc (length text)) (some text) n.active_queries
    ok (record n { active_queries = qs })

  -- `updateLoadInfo`: a message of type 0 has both parts, one of type 1 the classes, one of type 2 the
  -- queries.
  unfoldable pub update_load_info : NodeInfo D → List ℕ → Result (NodeInfo D)
  update_load_info n msg = do
    text ← behind_comma msg
    let type = pf.to_int (pf.strtod text).0
    let start = next (some (pf.strtod text).1)
    levels ←
        if type == 0
        then read_levels n start
        else (if type == 1 then read_levels n start else ok (n, start))
    if type == 0
        then read_active levels.0 levels.1
        else (if type == 2 then read_active levels.0 levels.1 else ok levels.0)

  unfoldable pub update_listening_port_no : NodeInfo D → List ℕ → Result (NodeInfo D)
  update_listening_port_no n msg = do
    text ← behind_comma msg
    ok (record n { listening_port = pf.to_int (pf.strtod text).0 })

  -- `update`: the header of a message is "NI" or "P".
  abbrev pub update : NodeInfo D → List ℕ → Result (NodeInfo D)
  update n msg =
      if starts (78 ∷ 73 ∷ []) msg
      then update_load_info n msg
      else (if starts (80 ∷ []) msg then update_listening_port_no n msg else err fail)

  -- The sum of the loop of `getTotalCapacityUsage`, over as many entries as there are classes.
  abbrev pub sum_usages : D → ℕ → List D → D
  sum_usages total zero us = total
  sum_usages total (suc k) [] = total
  sum_usages total (suc k) (u ∷ us) = sum_usages (pf.◌+d◌ total u) k us

  -- `getTotalCapacityUsage`, of a vector that has an entry for each class.
  abbrev pub get_total_capacity_usage : NodeInfo D → D
  get_total_capacity_usage n = sum_usages pf.zero_d n.number_of_classes n.capacity_usages

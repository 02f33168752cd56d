-- ===== src/Coordinator/Sockets.antt =====
-- AQSIOSCoordinator/src/AQSIOSCoordinator.cpp: the table of sockets, the reports of the clients and the
-- migration thread. The mutexes make a step of each event below; sockets and messages come from outside.
pub mod Migration
use p.Common.{
  ℕ, zero, suc, ◌+◌, Bool, true, false, ◌||◌, Option, none, some, List, [], ◌∷◌, ◌++◌, ◌==◌, Result,
  ok, err, fault, ◌>>=◌, get_elem?, set, if◌then◌else◌,
}
use p.Load.Platform.{Platform}
use p.Load.Manager.{LoadManager, new_load_manager, add_node, update_node_info, redistribute_load}

-- `MAX_NUM_CLIENTS`
abbrev pub max_num_clients : ℕ
max_num_clients = 10

-- The static variables; a socket that is 0 is a free place of the table. `count` and `sent` belong to the
-- migration thread: how many messages it has sent, and to which nodes; `is_deciding` is true from where it
-- has taken notice of the reports to where it has sent its decision.
pub record Network (D : Type 0) : Type 0 where
  pub sockfds : List ℕ
  pub load_mgr : LoadManager D
  pub is_update_ready : Bool
  pub is_deciding : Bool
  pub count : ℕ
  pub sent : List (ℕ × List ℕ)

-- The first free place takes a socket; in a full table it is not stored.
abbrev pub put_socket : ℕ → List ℕ → List ℕ
put_socket fd [] = []
put_socket fd (s ∷ ss) = if s == 0 then fd ∷ ss else s ∷ put_socket fd ss

abbrev free_places : ℕ → List ℕ
free_places zero = []
free_places (suc n) = 0 ∷ free_places n

-- What `main` starts with: the listening socket is in the table.
abbrev pub new_network : {D : Type 0} → ℕ → ℕ → Network D
new_network serverfd classes = record {
  sockfds = put_socket serverfd (free_places max_num_clients);
  load_mgr = new_load_manager classes;
  is_update_ready = false;
  is_deciding = false;
  count = 0;
  sent = [];
}

-- A return code that is not looked at.
abbrev pub or_before : {A : Type 0} → A → Result A → Result A
or_before a (ok b) = ok b
or_before a (err e) = ok a
or_before a fault = fault

-- A connection is accepted; the socket at a place reports, or is closed by its client; and the
-- migration thread wakes up, and, after a while in which there may be other events, decides.
pub data Event : Type 0 where
  connect : ℕ → Event
  report : ℕ → List ℕ → Event
  gone : ℕ → Event
  wake decide : Event

module _ {D : Type 0} (pf : Platform D) (serverfd : ℕ) (address : ℕ → List ℕ) where
  -- `acceptingConn`: the node is added even if the table is full.
  unfoldable pub accepting_conn : Network D → ℕ → Result (Network D)
  accepting_conn c fd = do
    m ← or_before c.load_mgr (add_node pf c.load_mgr fd)
    ok (record c { sockfds = put_socket fd c.sockfds; load_mgr = m })

  -- A place that is free, or holds the listening socket, has no client.
  abbrev pub no_client : ℕ → Bool
  no_client fd = fd == 0 || fd == serverfd

  -- `handleClientReport`, of a message.
  unfoldable pub handle_client_report : Network D → ℕ → List ℕ → Result (Network D)
  handle_client_report c fd msg = do
    m ← or_before c.load_mgr (update_node_info pf c.load_mgr fd msg)
    ok (record c { load_mgr = m; is_update_ready = true })

  -- The socket at a place, if a client has it.
  abbrev pub client_at : Network D → ℕ → (ℕ → Result (Network D)) → Result (Network D)
  client_at c i f = elim (get_elem? c.sockfds i) [
    | none ↦ ok c
    | some fd ↦ if no_client fd then ok c else f fd
  ]

  -- The loop that sends a decision; only the first message of all is sent.
  abbrev pub send : ℕ → List (ℕ × List ℕ) → List (ℕ × List ℕ) → ℕ × List (ℕ × List ℕ)
  send count sent [] = (count, sent)
  send count sent (d ∷ ds) =
      if count == 0 then send (suc count) (sent ++ d ∷ []) ds else send count sent ds

  -- `manageMigration`: the thread has been woken.
  abbrev pub wake_up : Network D → Network D
  wake_up c =
      if c.is_deciding
      then c
      else (if c.is_update_ready
          then record c { is_update_ready = false; is_deciding = true }
          else c)

  -- `manageMigration`: the thread decides, and sends.
  unfoldable pub manage_migration : Network D → Result (Network D)
  manage_migration c =
      if c.is_deciding
      then (redistribute_load pf address c.load_mgr [] >>= λ decision. ok (record c {
        is_deciding = false;
        count = (send c.count c.sent decision).0;
        sent = (send c.count c.sent decision).1;
      }))
      else ok c

  -- `receivingClientReport`: what an event does. A client that is gone leaves its place; its node stays.
  abbrev pub step : Network D → Event → Result (Network D)
  step c (connect fd) = accepting_conn c fd
  step c (report i msg) = client_at c i λ fd. handle_client_report c fd msg
  step c (gone i) = client_at c i λ fd. ok (record c { sockfds = set c.sockfds i 0 })
  step c wake = ok (wake_up c)
  step c decide = manage_migration c

  unfoldable pub run : Network D → List Event → Result (Network D)
  run c [] = ok c
  run c (e ∷ es) = step c e >>= λ d. run d es

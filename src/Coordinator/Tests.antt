-- ===== src/Coordinator/Tests.antt =====
-- A script with a table, a query class and a query over an unknown name.
use p.Common.{ℕ, ◌≡◌, refl, false, List, [], ◌∷◌, Result, ok, arith}
use p.Semantic.Query.{WindowSpec}
use p.Examples.{blank}
use p.Server.Calls.{new_server}
use p.Server.Replies.{Leads}
use p.Server.Invariant.{any-IsPlanManager}
use p.Server.Tests.{parse, counter}
use p.Load.Node.{NodeInfo, new_node, update_listening_port_no}
use p.Load.Manager.{add_node, update_node_info, redistribute_load}
use p.Load.Tests.{whole, print}
use p.Coordinator.Sockets.{
  Network, new_network, Event, connect, report, gone, wake, decide, accepting_conn,
  handle_client_report, manage_migration, run,
}
use p.Coordinator.Sockets.Migration.{manage_migration_total}
use p.Coordinator.Script.{
  Command, table, source, query, dest, qclass, Outside, new_loader, register_appln,
}
use p.Coordinator.Loading.{IsLoader}
use p.Coordinator.Loaded.{IsLoaded, register_appln-IsLoaded}

abbrev out : Outside (Unit {0}) (Unit {0})
out = record {
  file_source = λ name. tt;
  gen_output = λ name. tt;
  no_output = tt;
  atoi = λ text. 2;
  win = WindowSpec.now;
  blank = blank;
}

abbrev script : List (Result Command)
script =
    ok (table (1 ∷ []))
    ∷ ok (source (7 ∷ []))
    ∷ ok (qclass (50 ∷ []))
    ∷ ok (query (3 ∷ []))
    ∷ ok (dest (8 ∷ []))
    ∷ []

register_appln-IsLoaded_example :
    Leads Unit
      (IsLoaded λ _. Unit)
      (IsLoader λ _. Unit)
      (register_appln counter parse out script (new_loader new_server))
register_appln-IsLoaded_example =
    register_appln-IsLoaded counter parse out (λ _. Unit) (any-IsPlanManager counter) script
      (tt, (tt, (tt, (((λ e. omega (arith, e)), tt), (tt, tt)))))

-- A node joins, reports its port, and leaves.
abbrev events : List Event
events =
    connect 5
    ∷ report 1 (80 ∷ 44 ∷ 57 ∷ [])
    ∷ wake
    ∷ decide
    ∷ gone 1
    ∷ report 1 (80 ∷ [])
    ∷ report 0 []
    ∷ connect 5
    ∷ []

abbrev node_of_5 : NodeInfo ℕ
node_of_5 = record (new_node whole 2) { node_id = 5; listening_port = 9 }

abbrev network : Network ℕ
network = record {
  sockfds = 3 ∷ 5 ∷ 0 ∷ 0 ∷ 0 ∷ 0 ∷ 0 ∷ 0 ∷ 0 ∷ 0 ∷ [];
  load_mgr = record { nodes = node_of_5 ∷ []; num_of_classes = 2 };
  is_update_ready = false;
  is_deciding = false;
  count = 0;
  sent = [];
}

ran : run whole 3 print (new_network 3 2) events ≡ ok network
unfolding run accepting_conn handle_client_report manage_migration add_node update_node_info
    redistribute_load update_listening_port_no
ran = refl

manage_migration_total_example : (d : Network ℕ) × (manage_migration whole 3 print network ≡ ok d)
manage_migration_total_example = manage_migration_total whole 3 print 2 events network ran

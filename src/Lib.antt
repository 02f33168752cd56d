-- ===== src/Lib.antt =====
-- The query compiler of the AQSIOS coordinator (AQSIOSCoordinator/).
--
-- A query arrives as text. The generated scanner and parser build a parse tree; the semantic
-- interpreter resolves its names against the registry of tables and yields the internal form of the
-- query; the plan generator translates that form into a graph of logical operators, which is
-- rewritten and turned into a physical plan. The parts hand each other values: the registry is read
-- by the other two through its lookups, the interpreter fills in a query object, and the plan
-- generator reads that object and fills two pools. The server calls them in that order, keeps the
-- texts of the queries, and hands every plan to the plan manager; the coordinator feeds it the
-- commands of a script. Beside this, the coordinator keeps a list of the nodes that execute the
-- plans, with the load that they report.
--
-- Metadata/Tables is src/metadata/table_mgr.cc. `TableManager` is the used part of `tableList`, so
-- that `numTables` is its length; `register` is what registerStream and registerRelation share,
-- `add_table_attribute` is addTableAttribute and `unregister_table` is unregisterTable. `Command`
-- and `run` are sequences of such calls. Metadata/Types has the enumerations and limits of
-- include/common. Metadata/Tables/Invariant and Metadata/Tables/Lookup have the proofs.
--
-- Metadata/Queries is src/metadata/query_mgr.cc: one buffer of texts and pointers into it.
--
-- Parser/Nodes is include/parser/nodes.h: the parse tree of a command. A chain of N_LIST nodes is a
-- list, and a pointer that may be null is an option.
--
-- Semantic is src/querygen/sem_interp.cc with include/querygen/query.h. Semantic/Query is the
-- internal form; Semantic/Scope is the symbol table and interpretAttr; Semantic/Exprs is
-- interpretExpr and interpretCondn; Semantic/Windows is interpretWin and interpretFromClause;
-- Semantic/Clauses has the other clauses, schemaCompatible and interpretQuery. The modules below
-- them have the proofs.
--
-- Logical is src/querygen/logop.cc, logexpr.cc and log_naive_plan_gen.cc with
-- include/querygen/logop.h. Logical/Plan has attributes, expressions and operators; Logical/Pool is
-- the state, a list of operators with pointers as positions and the number of expressions in use;
-- Logical/Operators and Logical/Joins are the constructors of logop.cc; Logical/Naive and
-- Logical/Generate are the naive plan generator, from expressions up to genPlan_n.
--
-- Logical/Rewrites is log_plan_gen.cc, with the recursive updates and check_reference of logop.cc:
-- Streams has t_rstreamNow, t_streamCross and t_removeIstream; Projects has t_removeProject;
-- Crosses has t_makeCrossBinary and t_makeStreamCrossBinary; Selects has t_pushSelect; Schema has
-- the updates; Walk has what they share. The modules called Bounds have the proofs.
--
-- Server is src/server/server_impl.cc: Server/Tables has the functions registerRelation and
-- registerStream, Server/State the state and the plan manager as an interface, Server/Calls the
-- calls, and Server/Evolution what any sequence of them keeps. Nothing is assumed of the plan
-- manager: each of its calls may succeed, be refused or crash, and the properties of its state that
-- are carried along are any that its calls keep when they return, of which the one that always
-- holds is the least. Coordinator/Script is register_appln of AQSIOSCoordinator.cpp, and
-- Coordinator/Sockets its table of sockets, with the events of its two threads. A call of these
-- parts that is refused may have changed the state, so that it returns a `Reply`, with the state in
-- both cases. The generated parser is a parameter.
--
-- Load is src/node_info.cc (Load/Node) and src/load_manager.cpp (Load/Manager). Load/Platform has
-- what they take from the C library as a record: floating-point numbers, strtod, strtol and
-- printing.
--
-- Common has tests, lists, results and name searches. A call that returns an error code returns a
-- `Result`: `ok` is the code 0, `err` another code, and `fault` is undefined behaviour: a null
-- pointer that is followed, an array that is read or written beyond its end, or a signed overflow.
-- ASSERT is empty in the build, so that what it would have caught is a `fault` or goes through.
--
-- Most loops of the source run over a list or count down, so that the functions are structurally
-- recursive. The loops of the rewrites, which follow pointers, run on fuel: as much as the pool
-- holds operators, and one more, which a path through distinct operators does not use up. The loop
-- over the queries of a message has the length of the message as fuel, of which every pass takes
-- two. The limits are those of the source: 1000 tables, 10 attributes of a table, 10 predicates, 50
-- projections, 10 grouping attributes, 1000 expressions of the interpreter, 500 operators and 500
-- expressions of a plan. The length of a time window is an int, and its product with the unit is a
-- fault when it does not fit.
--
-- Not modelled: the generated scanner and parser, the allocation of parse tree nodes, the physical
-- plans and the implementation of the plan manager, the set-up of sockets and threads, and the
-- reading and writing of files. Strings are values: who owns their memory is not modelled, and
-- `new` is taken to return no null.
pub mod Common
pub mod Metadata
pub mod Parser
pub mod Semantic
pub mod Server
pub mod Logical
pub mod Examples
pub mod Load
pub mod Coordinator

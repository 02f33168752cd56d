-- ===== src/Coordinator/Script.antt =====
-- AQSIOSCoordinator/src/AQSIOSCoordinator.cpp: `register_appln`, which hands the commands of a script to
-- the server.
use p.Common.{
  ℕ, suc, Bool, true, false, not, ◌||◌, Option, some, List, [], ◌∷◌, Result, ok, err, fault, fail,
  length, ltb, leb,
}
use p.Parser.Nodes.{Tree}
use p.Semantic.Query.{Query, WindowSpec}
use p.Server.Reply.{Call, crashes, pure, refuse, done, refused, crash, refuse_if, ◌>>=◌, ◌>>◌}
use p.Server.State.{PlanManager, Server}
use p.Server.Calls.{
  begin_app_specification, register_base_table, register_view, register_query_text,
  end_app_specification, get_plan,
}

-- `MAX_TABLE_SPEC`, `MAX_QUERY`, `MAX_OUTPUT` and `MAX_SOURCES`
abbrev pub max_table_spec : ℕ
max_table_spec = 1024

abbrev pub max_query : ℕ
max_query = 1024

abbrev pub max_output : ℕ
max_output = 5000

abbrev pub max_sources : ℕ
max_sources = 500

-- `ScriptFileReader::Command`, whose `len` is the length of `desc`
pub data Command : Type 0 where
  table source query dest qclass vquery vtable other : List ℕ → Command

-- The local variables of `register_appln`, the static ones that it uses, and the server. A buffer holds
-- a text with its null byte; `table_spec_len` and `query_len` are the lengths of the texts.
pub record Loader (S : Type 0) : Type 0 where
  pub server : Server S
  pub table_spec_buf : List ℕ
  pub query_buf : List ℕ
  pub query_id : ℕ
  pub b_table_spec_valid : Bool
  pub b_query_valid : Bool
  pub b_query_id_valid : Bool
  pub num_sources : ℕ
  pub num_output : ℕ

-- A call of the server.
abbrev pub on_server : {S A : Type 0} → Call (Server S) A → Call (Loader S) A
on_server f c = elim (f c.server) [
  | done a s ↦ done a (record c { server = s })
  | refused e s ↦ refused e (record c { server = s })
  | crash ↦ crash
]

abbrev pub change : {S : Type 0} → (Loader S → Loader S) → Call (Loader S) (Unit {0})
change f c = done tt (f c)

-- A test of the state.
abbrev pub guard : {S : Type 0} → (Loader S → Bool) → Call (Loader S) (Unit {0})
guard test c = refuse_if (not (test c)) fail c

-- What is new at the start of `register_appln`; the buffers are static, and empty at first.
abbrev pub new_loader : {S : Type 0} → Server S → Loader S
new_loader s = record {
  server = s;
  table_spec_buf = [];
  query_buf = [];
  query_id = 0;
  b_table_spec_valid = false;
  b_query_valid = false;
  b_query_id_valid = false;
  num_sources = 0;
  num_output = 0;
}

-- The classes of the outside: a source and an output made for a name, no output, and `atoi`; and what
-- the variables of the query compiler hold before they are filled in.
pub record Outside (Source Output : Type 0) : Type 0 where
  pub file_source : List ℕ → Source
  pub gen_output : List ℕ → Output
  pub no_output : Output
  pub atoi : List ℕ → ℕ
  pub win : WindowSpec
  pub blank : Query

module _ {S Source Output Plan : Type 0} (plans : PlanManager S Source Output Plan)
    (parse_command : List ℕ → ℕ → Option Tree) (out : Outside Source Output) where
  -- The text of a query goes to the server, and its identifier is kept.
  abbrev pub send_query : List ℕ → Output → Call (Loader S) (Unit {0})
  send_query text output =
      on_server
        (register_query_text plans parse_command out.win out.blank text (length text) output)
      >>= λ id. change λ c. record c { query_id = id }

  abbrev pub with_source : Loader S → Loader S
  with_source c = record c { num_sources = suc c.num_sources }

  abbrev pub with_output : Loader S → Loader S
  with_output c = record c { num_output = suc c.num_output }

  -- One round of the loop.
  unfoldable pub handle : Command → Call (Loader S) (Unit {0})
  handle (table desc) =
      guard (λ c. leb (length desc) max_table_spec)
      >> change (λ c. record c { table_spec_buf = desc; b_table_spec_valid = true })
  handle (source desc) =
      guard (λ c. c.b_table_spec_valid)
      >> guard (λ c. ltb c.num_sources max_sources)
      >> change with_source
      >> (λ c.
          on_server
            (register_base_table plans parse_command (some c.table_spec_buf)
              (length c.table_spec_buf) (out.file_source desc))
            c)
      >> change (λ c. record c { b_table_spec_valid = false })
  handle (query desc) =
      guard (λ c. leb (length desc) max_query)
      >> change (λ c. record c { query_buf = desc; b_query_valid = true })
  handle (dest desc) =
      guard (λ c. c.b_query_valid)
      >> guard (λ c. ltb c.num_output max_output)
      >> change with_output
      >> (λ c. send_query c.query_buf (out.gen_output desc) c)
      >> change (λ c. record c { b_query_valid = false })
  handle (qclass desc) =
      change λ c. record c { server = record (c.server) { current_query_class = out.atoi desc } }
  handle (vquery desc) =
      send_query desc out.no_output >> change (λ c. record c { b_query_id_valid = true })
  handle (vtable desc) =
      guard (λ c. c.b_query_id_valid)
      >> (λ c. on_server (register_view plans parse_command c.query_id (some desc) (length desc)) c)
      >> change (λ c. record c { b_query_id_valid = false })
  handle (other desc) = refuse fail

  -- The loop over what the script reader returns: commands, and an error code that ends them.
  unfoldable pub handle_all : List (Result Command) → Call (Loader S) (Unit {0})
  handle_all [] = pure tt
  handle_all (ok c ∷ cs) = handle c >> handle_all cs
  handle_all (err e ∷ cs) = refuse e
  handle_all (fault ∷ cs) = crashes

  abbrev pub nothing_left : Loader S → Bool
  nothing_left c = not (c.b_query_valid || c.b_query_id_valid || c.b_table_spec_valid)

  -- `register_appln`
  unfoldable pub register_appln : List (Result Command) → Call (Loader S) Plan
  register_appln script =
      on_server (begin_app_specification plans parse_command)
      >> handle_all script
      >> guard nothing_left
      >> on_server (end_app_specification plans parse_command)
      >> on_server (get_plan plans parse_command)

-- ===== src/Coordinator/Loading.antt =====
-- A script is loaded: no limit is passed, nothing that it begins is left unfinished, and the server is
-- well formed, whatever its commands are.
use p.Common.{
  ℕ, ◌≤◌, ◌≡◌, Bool, true, false, Option, some, List, Result, ok, length, ltb, leb, arith,
  Bool-cases, inl, inr,
}
use p.Parser.Nodes.{Tree}
use p.Metadata.Queries.Log.{IsText}
use p.Server.Reply.{Reply, Call, done, refused, crash, ◌>>=◌, ◌>>◌}
use p.Server.State.{PlanManager, Server}
use p.Server.Calls.{
  register_base_table, register_view, register_query_text, Request, serve, base_table, view,
}
use p.Server.Invariant.{Holds, IsPlanManager, IsServer, Evolved, Active}
use p.Server.Replies.{Leads, Leads->>=}
use p.Server.Evolution.Queries.{register_query_text-Going}
use p.Server.Evolution.Runs.{MayCrash, serve-Evolved}
use p.Coordinator.Script.{
  max_table_spec, max_query, max_output, max_sources, Command, table, source, query, dest, qclass,
  vquery, vtable, other, Loader, on_server, change, guard, Outside, send_query, with_source,
  with_output, handle,
}

-- A query has no null byte.
abbrev pub IsCommand : Command → Type 0
IsCommand (query desc) = IsText desc
IsCommand (vquery desc) = IsText desc
IsCommand c = Unit

abbrev pub IsLine : Result Command → Type 0
IsLine (ok c) = IsCommand c
IsLine r = Unit

module _ {S : Type 0} (Good : S → Type 0) where
  pub record IsLoader (c : Loader S) : Type 0 where
    pub server_kept : IsServer Good c.server
    pub table_spec_fits : length c.table_spec_buf ≤ max_table_spec
    pub query_fits : length c.query_buf ≤ max_query
    pub query_text : IsText c.query_buf
    pub few_sources : c.num_sources ≤ max_sources
    pub few_outputs : c.num_output ≤ max_output

  -- The same, with another server.
  pub with_server :
      (c : Loader S) (s : Server S)
      → IsLoader c
      → IsServer Good s
      → IsLoader (record c { server = s })
  with_server c s h k = record {
    server_kept = k;
    table_spec_fits = h.table_spec_fits;
    query_fits = h.query_fits;
    query_text = h.query_text;
    few_sources = h.few_sources;
    few_outputs = h.few_outputs;
  }

  abbrev pub Going : {A : Type 0} → Reply (Loader S) A → Type 0
  Going = Leads Unit IsLoader IsLoader

  pub then-Going :
      {A B : Type 0} (m : Call (Loader S) A) (f : A → Call (Loader S) B) (c : Loader S)
      → Going (m c)
      → ((a : A) (d : Loader S) → IsLoader d → Going (f a d))
      → Going ((m >>= f) c)
  then-Going m f c h k = Leads->>= Unit IsLoader IsLoader IsLoader m f c h k

  guard-Going :
      {B : Type 0} (test : Loader S → Bool) (k : Call (Loader S) B) (c : Loader S)
      → IsLoader c
      → (test c ≡ true → Going (k c))
      → Going ((guard test >> k) c)
  guard-Going test k c h f = elim (Bool-cases (test c)) [
    | inl passed ↦ rw (Leads, ◌>>◌, ◌>>=◌, guard, passed) (f passed)
    | inr failed ↦ rw (Leads, ◌>>◌, ◌>>=◌, guard, failed) h
  ]

  -- A test that is passed, and one after another.
  pub guard-Leads :
      (test : Loader S → Bool) (c : Loader S)
      → IsLoader c
      → Leads Unit (λ d. IsLoader d × (test d ≡ true)) IsLoader (guard test c)
  guard-Leads test c h = elim (Bool-cases (test c)) [
    | inl passed ↦ rw (Leads, guard, passed) (h, passed)
    | inr failed ↦ rw (Leads, guard, failed) h
  ]

  guards-Leads :
      (first test : Loader S → Bool) (c : Loader S)
      → IsLoader c
      → Leads Unit (λ d. IsLoader d × (test d ≡ true)) IsLoader ((guard first >> guard test) c)
  guards-Leads first test c h =
      Leads->>= Unit (λ d. IsLoader d × (first d ≡ true)) (λ d. IsLoader d × (test d ≡ true))
        IsLoader (guard first) (λ _. guard test) c (guard-Leads first c h)
        λ _ d k. guard-Leads test d k.0

  pub on_server-Going :
      {A : Type 0} (f : Call (Server S) A) (c : Loader S)
      → IsLoader c
      → Leads Unit (IsServer Good) (IsServer Good) (f c.server)
      → Going (on_server f c)
  on_server-Going {A} f c h k = go (f c.server) k
    where
      go :
          (r : Reply (Server S) A)
          → Leads Unit (IsServer Good) (IsServer Good) r
          → Going (elim r as (λ _. Reply (Loader S) A) [
            | done a s ↦ done a (record c { server = s })
            | refused e s ↦ refused e (record c { server = s })
            | crash ↦ crash
          ])
      go (done a s) k = with_server c s h k
      go (refused e s) k = with_server c s h k
      go crash k = k

  pub from_Holds :
      {A : Type 0} (C : Type 0) (s : Server S) (r : Reply (Server S) A)
      → Holds C (Evolved Good s) r
      → Leads Unit (IsServer Good) (IsServer Good) r
  from_Holds C s (done a t) h = h.still
  from_Holds C s (refused e t) h = h.still
  from_Holds C s crash h = tt

  from_Leads :
      {A : Type 0} (s : Server S) (r : Reply (Server S) A)
      → Leads Unit (Active Good s) (Evolved Good s) r
      → Leads Unit (IsServer Good) (IsServer Good) r
  from_Leads s (done a t) h = h.0.still
  from_Leads s (refused e t) h = h.still
  from_Leads s crash h = tt

module _ {S Source Output Plan : Type 0} (plans : PlanManager S Source Output Plan)
    (parse_command : List ℕ → ℕ → Option Tree) (out : Outside Source Output) (Good : S → Type 0)
    (laws : IsPlanManager plans Good) where
  served-Going :
      (C : Type 0) (r : Request plans parse_command) (c : Loader S)
      → IsLoader Good c
      → Holds C (Evolved Good c.server) (serve plans parse_command r c.server)
      → Leads Unit (IsLoader Good) (IsLoader Good) (on_server (serve plans parse_command r) c)
  served-Going C r c h k =
      on_server-Going Good (serve plans parse_command r) c h
        (from_Holds Good C c.server (serve plans parse_command r c.server) k)

  send_query-Going :
      (text : List ℕ) (output : Output) (c : Loader S)
      → IsText text
      → IsLoader Good c
      → Leads Unit
          (IsLoader Good)
          (IsLoader Good)
          (send_query plans parse_command out text output c)
  send_query-Going text output c is_text h =
      let f = register_query_text plans parse_command out.win out.blank text (length text) output in
      then-Going Good (on_server f) (λ id. change λ d. record d { query_id = id }) c
        (on_server-Going Good f c h (
          from_Leads Good c.server (f c.server) (
            register_query_text-Going plans parse_command Good laws c.server h.server_kept out.win
              out.blank text output is_text)))
        λ id d k. record {
          server_kept = k.server_kept;
          table_spec_fits = k.table_spec_fits;
          query_fits = k.query_fits;
          query_text = k.query_text;
          few_sources = k.few_sources;
          few_outputs = k.few_outputs;
        }

  -- The flags are set and reset.
  flags :
      (c : Loader S) (a b d : Bool)
      → IsLoader Good c
      → IsLoader Good (record c { b_table_spec_valid = a; b_query_valid = b; b_query_id_valid = d })
  flags c a b d k = record {
    server_kept = k.server_kept;
    table_spec_fits = k.table_spec_fits;
    query_fits = k.query_fits;
    query_text = k.query_text;
    few_sources = k.few_sources;
    few_outputs = k.few_outputs;
  }

  one_more_source :
      (c : Loader S)
      → IsLoader Good c
      → ltb c.num_sources max_sources ≡ true
      → IsLoader Good (with_source plans parse_command out c)
  one_more_source c k few = record {
    server_kept = k.server_kept;
    table_spec_fits = k.table_spec_fits;
    query_fits = k.query_fits;
    query_text = k.query_text;
    few_sources = ground arith;
    few_outputs = k.few_outputs;
  }

  one_more_output :
      (c : Loader S)
      → IsLoader Good c
      → ltb c.num_output max_output ≡ true
      → IsLoader Good (with_output plans parse_command out c)
  one_more_output c k few = record {
    server_kept = k.server_kept;
    table_spec_fits = k.table_spec_fits;
    query_fits = k.query_fits;
    query_text = k.query_text;
    few_sources = k.few_sources;
    few_outputs = ground arith;
  }

  pub handle-Going :
      (cmd : Command) (c : Loader S)
      → IsCommand cmd
      → IsLoader Good c
      → Leads Unit (IsLoader Good) (IsLoader Good) (handle plans parse_command out cmd c)
  unfolding handle
  handle-Going (table desc) c q h =
      guard-Going Good (λ c. leb (length desc) max_table_spec) _ c h
        λ fits. record {
          server_kept = h.server_kept;
          table_spec_fits = ground arith;
          query_fits = h.query_fits;
          query_text = h.query_text;
          few_sources = h.few_sources;
          few_outputs = h.few_outputs;
        }
  handle-Going (source desc) c q h =
      let few = λ (c : Loader S). ltb c.num_sources max_sources in
      let ready = guard (λ (c : Loader S). c.b_table_spec_valid) >> guard few in
      let register = λ (c : Loader S).
        on_server
          (register_base_table plans parse_command (some c.table_spec_buf) (length c.table_spec_buf)
            (out.file_source desc))
          c in
      then-Going Good (ready >> change (with_source plans parse_command out) >> register) _ c
        (then-Going Good (ready >> change (with_source plans parse_command out)) (λ _. register) c
          (Leads->>= Unit (λ d. IsLoader Good d × (few d ≡ true)) (IsLoader Good) (IsLoader Good)
            ready _ c (guards-Leads Good (λ c. c.b_table_spec_valid) few c h)
            λ _ d k. one_more_source d k.0 k.1)
          λ _ d k.
            let r =
              base_table (some d.table_spec_buf) (length d.table_spec_buf) (out.file_source desc) in
            served-Going (MayCrash plans parse_command Good r d.server) r d k
              (serve-Evolved plans parse_command Good laws r d.server k.server_kept tt))
        λ _ d k. flags d false d.b_query_valid d.b_query_id_valid k
  handle-Going (query desc) c q h =
      guard-Going Good (λ c. leb (length desc) max_query) _ c h
        λ fits. record {
          server_kept = h.server_kept;
          table_spec_fits = h.table_spec_fits;
          query_fits = ground arith;
          query_text = q;
          few_sources = h.few_sources;
          few_outputs = h.few_outputs;
        }
  handle-Going (dest desc) c q h =
      let few = λ (c : Loader S). ltb c.num_output max_output in
      let ready = guard (λ (c : Loader S). c.b_query_valid) >> guard few in
      let send =
        λ (c : Loader S). send_query plans parse_command out c.query_buf (out.gen_output desc) c in
      then-Going Good (ready >> change (with_output plans parse_command out) >> send) _ c
        (then-Going Good (ready >> change (with_output plans parse_command out)) (λ _. send) c
          (Leads->>= Unit (λ d. IsLoader Good d × (few d ≡ true)) (IsLoader Good) (IsLoader Good)
            ready _ c (guards-Leads Good (λ c. c.b_query_valid) few c h)
            λ _ d k. one_more_output d k.0 k.1)
          λ _ d k. send_query-Going d.query_buf (out.gen_output desc) d k.query_text k)
        λ _ d k. flags d d.b_table_spec_valid false d.b_query_id_valid k
  handle-Going (qclass desc) c q h = record {
    server_kept = h.server_kept;
    table_spec_fits = h.table_spec_fits;
    query_fits = h.query_fits;
    query_text = h.query_text;
    few_sources = h.few_sources;
    few_outputs = h.few_outputs;
  }
  handle-Going (vquery desc) c q h =
      then-Going Good (send_query plans parse_command out desc out.no_output)
        (λ _. change λ d. record d { b_query_id_valid = true }) c
        (send_query-Going desc out.no_output c q h)
        λ _ d k. flags d d.b_table_spec_valid d.b_query_valid true k
  handle-Going (vtable desc) c q h =
      let register = λ (c : Loader S).
        on_server (register_view plans parse_command c.query_id (some desc) (length desc)) c in
      then-Going Good (guard (λ c. c.b_query_id_valid) >> register) _ c
        (guard-Going Good (λ c. c.b_query_id_valid) register c h
          λ _.
            let r = view c.query_id (some desc) (length desc) in
            served-Going (MayCrash plans parse_command Good r c.server) r c h
              (serve-Evolved plans parse_command Good laws r c.server h.server_kept tt))
        λ _ d k. flags d d.b_table_spec_valid d.b_query_valid false k
  handle-Going (other desc) c q h = h

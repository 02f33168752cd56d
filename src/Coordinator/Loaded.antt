-- ===== src/Coordinator/Loaded.antt =====
-- What is true when a script has been loaded, or the loading has been given up.
use p.Common.{
  arith, ℕ, ◌≡◌, refl, Bool, true, false, not, ◌||◌, Option, none, some, List, [], ◌∷◌, Result, ok,
  err, fault, All,
}
use p.Parser.Nodes.{Tree}
use p.Server.Reply.{Reply, Call, done, refused, crash, ◌>>◌}
use p.Server.State.{
  State, is_init, PlanManager, Server, Managers, on_plans, in_app_spec, with_plans,
}
use p.Server.Calls.{
  new_server, begin_app_specification, end_app_specification, get_plan, begin_spec, end_spec,
}
use p.Server.Invariant.{IsPlanManager, IsServer, Held}
use p.Server.Replies.{Leads, Leads->>=}
use p.Server.Evolution.Runs.{MayCrash, serve-Evolved}
use p.Coordinator.Script.{
  Command, Loader, on_server, guard, new_loader, Outside, handle, handle_all, nothing_left,
  register_appln,
}
use p.Coordinator.Loading.{
  IsLine, IsLoader, then-Going, guard-Leads, on_server-Going, from_Holds, handle-Going, with_server,
}

-- The server has a plan, and no table, query or view is left unfinished.
pub record IsLoaded {S : Type 0} (Good : S → Type 0) (c : Loader S) : Type 0 where
  pub kept : IsLoader Good c
  pub plan_made : c.server.state ≡ State.s_plan_gen
  pub table_done : c.b_table_spec_valid ≡ false
  pub query_done : c.b_query_valid ≡ false
  pub view_done : c.b_query_id_valid ≡ false

nothing_said : {S A : Type 0} (r : Reply S A) → Leads Unit (λ _. Unit) (λ _. Unit) r
nothing_said (done a s) = tt
nothing_said (refused e s) = tt
nothing_said crash = tt

-- What a call of the server does to the loader.
lift-Leads :
    {S A : Type 0} (I J : Server S → Type 0) (I' J' : Loader S → Type 0) (f : Call (Server S) A)
    (c : Loader S)
    → ((t : Server S) → I t → I' (record c { server = t }))
    → ((t : Server S) → J t → J' (record c { server = t }))
    → Leads Unit I J (f c.server)
    → Leads Unit I' J' (on_server f c)
lift-Leads {S} {A} I J I' J' f c h k l = go (f c.server) l
  where
    go :
        (r : Reply (Server S) A)
        → Leads Unit I J r
        → Leads Unit I' J' (elim r as (λ _. Reply (Loader S) A) [
          | done a s ↦ done a (record c { server = s })
          | refused e s ↦ refused e (record c { server = s })
          | crash ↦ crash
        ])
    go (done a s) l = h s l
    go (refused e s) l = k s l
    go crash l = l

-- A disjunction of flags that is false.
no_flag : (a b c : Bool) → not (a || b || c) ≡ true → (a ≡ false) × (b ≡ false) × (c ≡ false)
no_flag false false false e = (refl, refl, refl)
no_flag true b c e = cc
no_flag false true c e = cc
no_flag false false true e = cc

module _ {S Source Output Plan : Type 0} (plans : PlanManager S Source Output Plan)
    (parse_command : List ℕ → ℕ → Option Tree) (out : Outside Source Output) (Good : S → Type 0)
    (laws : IsPlanManager plans Good) where
  handle_all-Going :
      (script : List (Result Command)) (c : Loader S)
      → All IsLine script
      → IsLoader Good c
      → Leads Unit (IsLoader Good) (IsLoader Good) (handle_all plans parse_command out script c)
  unfolding handle_all
  handle_all-Going [] c q h = h
  handle_all-Going (ok cmd ∷ cs) c q h =
      then-Going Good (handle plans parse_command out cmd)
        (λ _. handle_all plans parse_command out cs) c
        (handle-Going plans parse_command out Good laws cmd c q.0 h)
        λ _ d k. handle_all-Going cs d q.1 k
  handle_all-Going (err e ∷ cs) c q h = h
  handle_all-Going (fault ∷ cs) c q h = tt

  -- With nothing left, `endAppSpecification` leads to a plan.
  end_state :
      (s : Server S)
      → IsServer Good s
      → Leads Unit
          (λ t. IsServer Good t × (t.state ≡ State.s_plan_gen))
          (IsServer Good)
          (end_app_specification plans parse_command s)
  unfolding end_app_specification
  end_state s h =
      ended (end_app_specification plans parse_command s)
        (from_Holds Good (MayCrash plans parse_command Good end_spec s) s _
          (serve-Evolved plans parse_command Good laws end_spec s h tt))
        (Leads->>= Unit (λ _. Unit) (λ t. t.state ≡ State.s_plan_gen) (λ _. Unit)
          (in_app_spec >> on_plans (λ m. plans.optimize_plan)) _ s
          (nothing_said ((in_app_spec >> on_plans (λ m. plans.optimize_plan)) s)) λ _ t _. refl)
    where
      ended :
          (r : Reply (Server S) (Unit {0}))
          → Leads Unit (IsServer Good) (IsServer Good) r
          → Leads Unit (λ t. t.state ≡ State.s_plan_gen) (λ t. Unit) r
          → Leads Unit (λ t. IsServer Good t × (t.state ≡ State.s_plan_gen)) (IsServer Good) r
      ended (done a t) k e = (k, e)
      ended (refused x t) k e = k
      ended crash k e = tt

  get_state :
      (s : Server S)
      → IsServer Good s × (s.state ≡ State.s_plan_gen)
      → Leads Unit
          (λ t. IsServer Good t × (t.state ≡ State.s_plan_gen))
          (IsServer Good)
          (get_plan plans parse_command s)
  unfolding get_plan
  get_state s h = go s.managers h.0
    where
      go :
          (o : Option (Managers S))
          → Held Good (is_init s.state) o
          → Leads Unit
              (λ t. IsServer Good t × (t.state ≡ State.s_plan_gen))
              (IsServer Good)
              (elim o as (λ _. Reply (Server S) Plan) [
                | none ↦ crash
                | some g ↦ done (plans.get_plan g.plan_mgr) (with_plans s g g.plan_mgr)
              ])
      go none k = tt
      go (some g) k = (k, h.1)

  -- Over any plan manager, and any property of its state that holds at the start and that its
  -- calls keep when they return, whatever a script holds, its queries being without null bytes,
  -- and whether its reader fails or not, registering the application either crashes, or is
  -- refused with the server well formed, or ends with the server in the state after the
  -- specification and no table, query or view left unfinished; whenever it does not crash, no
  -- more sources, outputs and bytes of a buffer are used than there are.
  pub register_appln-IsLoaded :
      (script : List (Result Command))
      → All IsLine script
      → Leads Unit
          (IsLoaded Good)
          (IsLoader Good)
          (register_appln plans parse_command out script (new_loader new_server))
  unfolding register_appln
  register_appln-IsLoaded script q =
      let c0 : Loader S = new_loader new_server in
      let first = on_server (begin_app_specification plans parse_command) in
      let all = handle_all plans parse_command out script in
      let Ready =
        λ (d : Loader S). IsLoader Good d × (nothing_left plans parse_command out d ≡ true) in
      Leads->>= Unit (IsLoaded Good) (IsLoaded Good) (IsLoader Good)
        (first
          >> all
          >> guard (nothing_left plans parse_command out)
          >> on_server (end_app_specification plans parse_command))
        _ c0
        (Leads->>= Unit Ready (IsLoaded Good) (IsLoader Good)
          (first >> all >> guard (nothing_left plans parse_command out)) _ c0
          (Leads->>= Unit (IsLoader Good) Ready (IsLoader Good) (first >> all) _ c0
            (then-Going Good first (λ _. all) c0
              (on_server-Going Good (begin_app_specification plans parse_command) c0 empty (
                from_Holds Good ⊥ new_server _
                  (serve-Evolved plans parse_command Good laws begin_spec new_server tt tt)))
              λ _ d k. handle_all-Going script d q k)
            λ _ d k. guard-Leads Good (nothing_left plans parse_command out) d k)
          λ _ d k.
            lift-Leads (λ t. IsServer Good t × (t.state ≡ State.s_plan_gen)) (IsServer Good)
              (IsLoaded Good) (IsLoader Good) (end_app_specification plans parse_command) d
              (λ t h.
                loaded d t k.0 h
                  (no_flag d.b_query_valid d.b_query_id_valid d.b_table_spec_valid k.1))
              (λ t h. with_server Good d t k.0 h) (end_state d.server k.0.server_kept))
        λ _ d k.
          lift-Leads (λ t. IsServer Good t × (t.state ≡ State.s_plan_gen)) (IsServer Good)
            (IsLoaded Good) (IsLoader Good) (get_plan plans parse_command) d
            (λ t h. loaded d t k.kept h (k.query_done, k.view_done, k.table_done))
            (λ t h. with_server Good d t k.kept h)
            (get_state d.server (k.kept.server_kept, k.plan_made))
    where
      empty : IsLoader Good (new_loader new_server)
      empty = record {
        server_kept = tt;
        table_spec_fits = omega arith;
        query_fits = omega arith;
        query_text = tt;
        few_sources = omega arith;
        few_outputs = omega arith;
      }

      loaded :
          (d : Loader S) (t : Server S)
          → IsLoader Good d
          → IsServer Good t × (t.state ≡ State.s_plan_gen)
          → (d.b_query_valid ≡ false)
            × (d.b_query_id_valid ≡ false)
            × (d.b_table_spec_valid ≡ false)
          → IsLoaded Good (record d { server = t })
      loaded d t k h f = record {
        kept = with_server Good d t k h.0;
        plan_made = h.1;
        table_done = f.2;
        query_done = f.0;
        view_done = f.1;
      }

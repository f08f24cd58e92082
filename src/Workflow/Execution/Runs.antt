-- ===== src/Workflow/Execution/Runs.antt =====
-- Sequences of runs, and runs of published workflows (app/workflow/execution_service.py).
use ops_knowledge.Prelude.{
  ℕ, ◌≡◌, refl, sym, ap, ◌∙◌, subst, Bool, true, false, ◌==◌, if◌then◌else◌, Option, none, some, [],
  ◌∷◌, ◌++◌, arith, inl, inr, ◌⊎◌, Bool-cases,
}
use mathlib.Core.Option.{some-injective}
use ops_knowledge.Prelude.Dict.{lookup, lookup-insert}
use ops_knowledge.Prelude.Results.{Result, ok, err, ◌>>=◌, bind_ok, bind_step, ok-injective}
use ops_knowledge.Workflow.Dsl.{GraphDef}
use ops_knowledge.Workflow.Compiler.{CompileError, Compiled, compile_dsl}
use ops_knowledge.Workflow.Service.{GraphJson, Workflow, Db, parse_strict}
use ops_knowledge.Workflow.Execution.{
  harvested, not_waiting, graph_source, compile_error, parse_error, pending, waiting,
  WorkflowExecution, Store, Engine, Clock, RunEvent, execution_failed, first_name, duration,
  invocation, thread_id, Harvest, is_waiting, finished, found, lifted, create_execution, first_run,
  resumed_run, run_with_langgraph, run_and_persist, resume_execution,
}
use ops_knowledge.Workflow.Service.Soundness.{IsSound}
use ops_knowledge.Workflow.Execution.Records.{
  IsEnd, harvested-IsEnd, found-some, IsRecorded, first_run-IsRecorded, resumed_run-IsRecorded,
  created-IsRecorded,
}

module _ {J T V W R : Type 0} (json : GraphJson J) (engine : Engine J T V W R) where
  run_harvest :
      (dsl : GraphDef) (source : Option J) (k : ℕ) (trigger : Option T) (value : Option R)
      (h : Harvest V)
      → run_with_langgraph json engine dsl source k trigger value ≡ ok h
      → IsEnd h.status
  unfolding run_with_langgraph
  run_harvest dsl source k trigger value h e =
      let (compiled, at, last) =
        bind_ok (lifted compile_error (compile_dsl engine.registry dsl false)) _ h e in
      subst (λ x. IsEnd x.status) (ok-injective last) (harvested-IsEnd _)

  -- What a first run that returns has read and written.
  pub run_ok :
      (k : ℕ) (clock : Clock) (store store' : Store J T V)
      → run_and_persist json engine k clock store ≡ ok store'
      → (e : WorkflowExecution T V) × (dsl : GraphDef) × (h : Harvest V) × (lookup k
            store.executions
          ≡ some e)
        × IsEnd h.status
        × (store' ≡ first_run dsl h k clock e store)
  unfolding run_and_persist
  run_ok k clock store store' r =
      let (e, at, r1) = bind_ok (found (lookup k store.executions)) _ store' r in
      let (wf, at_wf, r2) =
        bind_ok (found (lookup e.workflow_id store.service.workflows)) _ store' r1 in
      let source = graph_source wf e in
      let (dsl, parses, r3) = bind_ok (lifted parse_error (parse_strict json source)) _ store' r2 in
      let (h, runs, r4) =
        bind_ok (run_with_langgraph json engine dsl source k e.trigger_input none) _ store' r3 in
      (
        e,
        dsl,
        h,
        found-some _ e at,
        run_harvest dsl source k e.trigger_input none h runs,
        sym (ok-injective r4),
      )

  pub resume_ok :
      (k : ℕ) (value : Option R) (clock : Clock) (store store' : Store J T V)
      → resume_execution json engine k value clock store ≡ ok store'
      → (e : WorkflowExecution T V) × (dsl : GraphDef) × (h : Harvest V) × (lookup k
            store.executions
          ≡ some e)
        × (is_waiting e.status ≡ true)
        × IsEnd h.status
        × (store' ≡ resumed_run dsl h k clock e store)
  unfolding resume_execution
  resume_ok k value clock store store' r =
      let (e, at, r0) = bind_ok (found (lookup k store.executions)) _ store' r in
      let (x, waits, r1) =
        bind_ok (if is_waiting e.status then ok e else err (not_waiting e.status)) _ store' r0 in
      let (wf, at_wf, r2) =
        bind_ok (found (lookup e.workflow_id store.service.workflows)) _ store' r1 in
      let source = graph_source wf e in
      let (dsl, parses, r3) = bind_ok (lifted parse_error (parse_strict json source)) _ store' r2 in
      let (h, runs, r4) =
        bind_ok (run_with_langgraph json engine dsl source k e.trigger_input value) _ store' r3 in
      (
        e,
        dsl,
        h,
        found-some _ e at,
        waiting_status e x waits,
        run_harvest dsl source k e.trigger_input value h runs,
        sym (ok-injective r4),
      )
    where
      waiting_status :
          (e x : WorkflowExecution T V)
          → (if is_waiting e.status then ok e else err (not_waiting e.status)) ≡ ok x
          → is_waiting e.status ≡ true
      waiting_status e x h = elim (Bool-cases (is_waiting e.status)) [
        | inl t ↦ t
        | inr f ↦ let g : err (not_waiting e.status) ≡ ok x = simp f at h in absurd (ground arith)
      ]

-- The calls on executions, in any order, as the routers make them: an execution is run once, when it is
-- new. Between them the service may do anything but delete a workflow.
pub data Reach {J T V W R : Type 0} (json : GraphJson J) (engine : Engine J T V W R)
    : Store J T V → Type 0 where
  initially :
      (db : Db J)
      → Reach json engine
          (record { service = db; executions = []; node_executions = []; events = [] })
  served :
      {store : Store J T V} (db : Db J)
      → Reach json engine store
      → Reach json engine (record store { service = db })
  created :
      {store store' : Store J T V} (fresh_id wf_id : ℕ) (user_id : Option ℕ)
      (trigger_input : Option T) (from_draft : Bool)
      → Reach json engine store
      → lookup fresh_id store.executions ≡ none
      → create_execution fresh_id wf_id user_id trigger_input from_draft store ≡ ok store'
      → Reach json engine store'
  ran :
      {store store' : Store J T V} (k : ℕ) (e : WorkflowExecution T V) (clock : Clock)
      → Reach json engine store
      → lookup k store.executions ≡ some e
      → e.status ≡ pending
      → run_and_persist json engine k clock store ≡ ok store'
      → Reach json engine store'
  resumed :
      {store store' : Store J T V} (k : ℕ) (value : Option R) (clock : Clock)
      → Reach json engine store
      → resume_execution json engine k value clock store ≡ ok store'
      → Reach json engine store'

module _ {J T V W R : Type 0} (json : GraphJson J) (engine : Engine J T V W R) where
  -- After any sequence of calls in which an execution is run once and resumed any number of times, an
  -- execution has not run, with no output and no rows of nodes, or it is out of the engine and has for
  -- every output of its last run one row with this output, in the same order, and no other. None stays
  -- in the status `running`, and no row belongs to an execution that does not exist.
  pub Reach-IsRecorded : (store : Store J T V) → Reach json engine store → IsRecorded store
  Reach-IsRecorded store (initially db) = record {
    settled = λ k e at. absurd (ground arith);
    owned = λ k at. refl;
  }
  Reach-IsRecorded store (served {store = before} db r) =
      let h = Reach-IsRecorded before r in record { settled = h.settled; owned = h.owned }
  Reach-IsRecorded store (created {store = before} fresh_id wf_id user input from_draft r fresh e) =
      created-IsRecorded fresh_id wf_id user input from_draft before store fresh e
        (Reach-IsRecorded before r)
  Reach-IsRecorded store (ran {store = before} k e clock r at fresh run) =
      let (e', dsl, h, at', ends, same) = run_ok json engine k clock before store run in
      let one : e ≡ e' = some-injective e e' (sym at ∙ at') in
      subst IsRecorded (sym same) (
        first_run-IsRecorded dsl h k clock e' before ends at'
          (subst (λ x. x.status ≡ pending) one fresh) (Reach-IsRecorded before r))
  Reach-IsRecorded store (resumed {store = before} k value clock r run) =
      let (e, dsl, h, at, waits, ends, same) =
        resume_ok json engine k value clock before store run in
      subst IsRecorded (sym same)
        (resumed_run-IsRecorded dsl h k clock e before ends (Reach-IsRecorded before r))

  compile_verdict :
      (c : Result CompileError Compiled) (f : Compiled → Harvest V) (g : Harvest V → Store J T V)
      → (let r = (lifted compile_error c >>= λ x. ok (f x)) >>= λ h. ok (g h) in
          ((store' : Store J T V) × (r ≡ ok store'))
          ⊎ ((e : CompileError) × (r ≡ err (compile_error e))))
  compile_verdict (ok x) f g = inl (g (f x), refl)
  compile_verdict (err e) f g = inr (e, refl)

  -- A run of what is published never fails on its graph, in a database of workflows that is sound: it
  -- is recorded, or the compiler refuses the graph.
  pub published_run_parses :
      (k : ℕ) (clock : Clock) (store : Store J T V) (e : WorkflowExecution T V) (wf : Workflow J)
      (raw : J)
      → IsSound json store.service
      → lookup k store.executions ≡ some e
      → (e.workflow_version == 0) ≡ false
      → lookup e.workflow_id store.service.workflows ≡ some wf
      → wf.published_graph_data ≡ some raw
      → ((store' : Store J T V) × (run_and_persist json engine k clock store ≡ ok store'))
        ⊎ ((c : CompileError) × (run_and_persist json engine k clock store ≡ err (compile_error c)))
  unfolding run_and_persist run_with_langgraph
  published_run_parses k clock store e wf raw sound at production at_wf public =
      let runs = sound.live e.workflow_id wf raw at_wf public in
      let source : graph_source wf e ≡ some raw =
        ap (λ b. if b then wf.graph_data else wf.published_graph_data) production ∙ public in
      let parses : lifted parse_error (parse_strict json (graph_source wf e)) ≡ ok runs.graph =
        ap (λ s. lifted parse_error (parse_strict json s)) source
        ∙ ap (lifted parse_error) runs.parses in
      let begun =
        bind_step (found (lookup k store.executions)) _ e (ap found at)
        ∙ bind_step (found (lookup e.workflow_id store.service.workflows)) _ wf (ap found at_wf)
        ∙ bind_step (lifted parse_error (parse_strict json (graph_source wf e))) _ runs.graph
            parses in
      subst
        (λ r.
          ((store' : Store J T V) × (r ≡ ok store'))
          ⊎ ((c : CompileError) × (r ≡ err (compile_error c))))
        (sym begun)
        (compile_verdict (compile_dsl engine.registry runs.graph false)
          (λ compiled. harvested (
            engine.stream_execution compiled
              (invocation json engine none e.trigger_input (graph_source wf e))
              (thread_id (engine.conversation_id e.trigger_input) k)))
          (λ h. first_run runs.graph h k clock e store))

  -- A first run that stops for an approver leaves the execution waiting, and tells the subscribers of
  -- the platform's events that it failed.
  pub waiting_run_reports_failure :
      (k : ℕ) (clock : Clock) (store store' : Store J T V) (e : WorkflowExecution T V)
      → run_and_persist json engine k clock store ≡ ok store'
      → lookup k store'.executions ≡ some e
      → e.status ≡ waiting
      → (ev : RunEvent) × (store'.events ≡ store.events ++ ev ∷ [])
        × (ev.execution_id ≡ k)
        × (ev.status ≡ waiting)
        × (ev.name ≡ execution_failed)
  waiting_run_reports_failure k clock store store' e run at waits =
      let (old, dsl, h, at_old, ends, same) = run_ok json engine k clock store store' run in
      let row = finished h clock.finished (record old { started_at = some clock.started }) in
      let there : lookup k store'.executions ≡ some row =
        ap (λ s. lookup k s.executions) same
        ∙ lookup-insert k k row store.executions
        ∙ ground arith in
      let one : row ≡ e = some-injective row e (sym there ∙ at) in
      let status : h.status ≡ waiting = ap (λ x. x.status) one ∙ waits in
      (
        record {
          name = first_name h.status;
          execution_id = k;
          workflow_id = old.workflow_id;
          status = h.status;
          duration_ms = duration (some clock.started) clock.finished;
        },
        ap (λ s. s.events) same,
        refl,
        status,
        ap first_name status,
      )

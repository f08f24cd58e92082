-- ===== src/Workflow/Execution.antt =====
-- Runs of workflows: `ExecutionService` of app/workflow/execution_service.py, over the tables of the
-- service and of executions. LangGraph, the checkpoints, the registered nodes and what the code reads
-- of a trigger's payload are an `Engine`. `T` is a payload, `V` what a node puts out, `W` the values of
-- the workflow variables, `R` what an approver answers. Times are milliseconds of a clock that does
-- not go back. A raised error leaves the tables as they were: the session is not committed.
pub mod Records
pub mod Runs
use ops_knowledge.Prelude.{
  ℕ, zero, ◌+◌, ◌-◌, Bool, true, false, not, ◌&&◌, ◌||◌, ◌==◌, if◌then◌else◌, Option, none, some,
  List, [], ◌∷◌, ◌++◌, String, map, keep,
}
use ops_knowledge.Prelude.Dict.{Dict, lookup, insert, has_key}
use ops_knowledge.Prelude.Results.{Result, ok, err, ◌>>=◌}
use ops_knowledge.Prelude.Texts.{Text}
use ops_knowledge.Workflow.Dsl.{NodeDef, GraphDef, id_of, type_of}
use ops_knowledge.Workflow.Compiler.{NodeClass, CompileError, Compiled, compile_dsl}
use ops_knowledge.Workflow.State.{WorkflowState, initial_state}
use ops_knowledge.Workflow.Service.{GraphJson, ServiceError, Workflow, Db, parse_strict}

pub data ExecutionStatus : Type 0 where
  pending running waiting succeeded failed : ExecutionStatus

pub record WorkflowExecution (T V : Type 0) : Type 0 where
  pub workflow_id : ℕ
  pub workflow_version : ℕ
  pub status : ExecutionStatus
  pub trigger_input : Option T
  pub output : Option (Dict V)
  pub started_at : Option ℕ
  pub finished_at : Option ℕ
  pub error : Option Text
  pub created_by : Option ℕ

pub record NodeExecution (V : Type 0) : Type 0 where
  pub execution_id : ℕ
  pub node_id : ℕ
  pub node_type : String
  pub status : ExecutionStatus
  pub input_data : Option V
  pub output_data : V
  pub started_at : Option ℕ
  pub finished_at : Option ℕ

pub data EventName : Type 0 where
  execution_completed execution_failed execution_waiting : EventName

pub record RunEvent : Type 0 where
  pub name : EventName
  pub execution_id : ℕ
  pub workflow_id : ℕ
  pub status : ExecutionStatus
  pub duration_ms : Option ℕ

pub data RunError : Type 0 where
  not_published : ℕ → RunError
  not_waiting : ExecutionStatus → RunError
  parse_error : ServiceError → RunError
  compile_error : CompileError → RunError
  -- An attribute of None: the row is gone.
  no_row : RunError

pub record Store (J T V : Type 0) : Type 0 where
  pub service : Db J
  pub executions : Dict (WorkflowExecution T V)
  pub node_executions : List (NodeExecution V)
  pub events : List RunEvent

pub data ThreadId : Type 0 where
  of_conversation : Text → ThreadId
  of_execution : ℕ → ThreadId

-- What the graph is invoked with: a fresh state or `Command(resume=value)`.
pub data Invocation (T V W R : Type 0) : Type 0 where
  start : WorkflowState V T W → Invocation T V W R
  resume : R → Invocation T V W R

-- What `stream_execution` returns, or the error it raises.
pub data Outcome (V : Type 0) : Type 0 where
  final_state : (outputs inputs : Dict V) → (is_waiting : Bool) → Outcome V
  raised : Text → Outcome V

pub record Engine (J T V W R : Type 0) : Type 0 where
  pub registry : List NodeClass
  pub no_input : T
  pub no_variables : W
  pub resolved_vars : Option J → W
  pub conversation_id : Option T → Option Text
  pub stream_execution : Compiled → Invocation T V W R → ThreadId → Outcome V

-- When a run starts and when it is over.
pub record Clock : Type 0 where
  pub started : ℕ
  pub finished : ℕ

pub record Harvest (V : Type 0) : Type 0 where
  pub status : ExecutionStatus
  pub outputs : Dict V
  pub inputs : Dict V
  pub error : Option Text

abbrev pub harvested : {V : Type 0} → Outcome V → Harvest V
harvested (final_state outputs inputs true) = record {
  status = waiting;
  outputs = outputs;
  inputs = inputs;
  error = none;
}
harvested (final_state outputs inputs false) = record {
  status = succeeded;
  outputs = outputs;
  inputs = inputs;
  error = none;
}
harvested (raised message) = record {
  status = failed;
  outputs = [];
  inputs = [];
  error = some message;
}

abbrev pub is_failed : ExecutionStatus → Bool
is_failed failed = true
is_failed s = false

abbrev pub is_waiting : ExecutionStatus → Bool
is_waiting waiting = true
is_waiting s = false

-- {n.id: n.type}.get(nid, "unknown"); a later node overrides an earlier one.
unfoldable pub type_by_id : String → ℕ → List NodeDef → String
type_by_id t nid [] = t
type_by_id t nid (n ∷ ns) = type_by_id (if nid == id_of n then type_of n else t) nid ns

module _ {V : Type 0} where
  abbrev pub node_row :
      List NodeDef
      → (ℕ → ExecutionStatus)
      → ℕ
      → Harvest V
      → Option ℕ
      → Option ℕ
      → ℕ × V
      → NodeExecution V
  node_row nodes status exec_id h started_at finished_at (nid, output) = record {
    execution_id = exec_id;
    node_id = nid;
    node_type = type_by_id "unknown" nid nodes;
    status = status nid;
    input_data = lookup nid h.inputs;
    output_data = output;
    started_at = started_at;
    finished_at = finished_at;
  }

  abbrev pub first_status : Harvest V → ℕ → ExecutionStatus
  first_status h nid =
      if not (is_failed h.status) || has_key nid h.outputs then succeeded else failed

-- The name after a first run, and the one after a resumption.
abbrev pub first_name : ExecutionStatus → EventName
first_name succeeded = execution_completed
first_name s = execution_failed

abbrev pub resumed_name : ExecutionStatus → EventName
resumed_name succeeded = execution_completed
resumed_name failed = execution_failed
resumed_name s = execution_waiting

abbrev pub duration : Option ℕ → ℕ → Option ℕ
duration none finished = none
duration (some started) finished = some (finished - started)

abbrev pub lifted {ℓ κ μ} :
    {A : Type ℓ} {E : Type κ} {F : Type μ} → (E → F) → Result E A → Result F A
lifted f (ok a) = ok a
lifted f (err e) = err (f e)

abbrev pub found {ℓ} : {A : Type ℓ} → Option A → Result RunError A
found none = err no_row
found (some a) = ok a

abbrev pub workflow_or : {J : Type 0} → ℕ → Option (Workflow J) → Result RunError (Workflow J)
workflow_or wf_id none = err (not_published wf_id)
workflow_or wf_id (some wf) = ok wf

abbrev pub is_published : {J : Type 0} → Workflow J → Bool
is_published wf = elim wf.published_graph_data [ none ↦ false | some g ↦ true ]

abbrev pub thread_id : Option Text → ℕ → ThreadId
thread_id none exec_id = of_execution exec_id
thread_id (some conversation_id) exec_id = of_conversation conversation_id

module _ {T V : Type 0} where
  abbrev pub finished : Harvest V → ℕ → WorkflowExecution T V → WorkflowExecution T V
  finished h now execution = record execution {
    status = h.status;
    output = some h.outputs;
    error = h.error;
    finished_at = some now;
  }

module _ {J T V : Type 0} where
  abbrev pub new_execution : ℕ → Option ℕ → Option T → Bool → Workflow J → WorkflowExecution T V
  new_execution wf_id user_id trigger_input from_draft wf = record {
    workflow_id = wf_id;
    workflow_version = if from_draft then 0 else wf.version;
    status = pending;
    trigger_input = trigger_input;
    output = none;
    started_at = none;
    finished_at = none;
    error = none;
    created_by = user_id;
  }

  -- `fresh_id` is the UUID of the new row.
  unfoldable pub create_execution :
      ℕ → ℕ → Option ℕ → Option T → Bool → Store J T V → Result RunError (Store J T V)
  create_execution fresh_id wf_id user_id trigger_input from_draft store = do
    wf ← workflow_or wf_id (lookup wf_id store.service.workflows)
    if not from_draft && not (is_published wf)
        then err (not_published wf_id)
        else ok (record store {
          executions =
              insert fresh_id (new_execution wf_id user_id trigger_input from_draft wf)
                store.executions;
        })

  -- The draft for a run in the editor, else what is published now.
  abbrev pub graph_source : Workflow J → WorkflowExecution T V → Option J
  graph_source wf execution =
      if execution.workflow_version == 0 then wf.graph_data else wf.published_graph_data

module _ {J T V : Type 0} where
  -- What a first run writes, and what a resumption writes.
  abbrev pub first_run :
      GraphDef → Harvest V → ℕ → Clock → WorkflowExecution T V → Store J T V → Store J T V
  first_run dsl h exec_id clock execution store = record store {
    executions =
        insert exec_id
          (finished h clock.finished (record execution { started_at = some clock.started }))
          store.executions;
    node_executions =
        store.node_executions
        ++ map
            (node_row dsl.nodes (first_status h) exec_id h (some clock.started)
              (some clock.finished))
            h.outputs;
    events =
        store.events
        ++ record {
          name = first_name h.status;
          execution_id = exec_id;
          workflow_id = execution.workflow_id;
          status = h.status;
          duration_ms = duration (some clock.started) clock.finished;
        }
          ∷ [];
  }

  abbrev pub resumed_run :
      GraphDef → Harvest V → ℕ → Clock → WorkflowExecution T V → Store J T V → Store J T V
  resumed_run dsl h exec_id clock execution store = record store {
    executions = insert exec_id (finished h clock.finished execution) store.executions;
    node_executions =
        keep (λ r. not (r.execution_id == exec_id)) store.node_executions
        ++ map
            (node_row dsl.nodes (λ nid. succeeded) exec_id h execution.started_at
              (some clock.finished))
            h.outputs;
    events =
        store.events
        ++ record {
          name = resumed_name h.status;
          execution_id = exec_id;
          workflow_id = execution.workflow_id;
          status = h.status;
          duration_ms = none;
        }
          ∷ [];
  }

module _ {J T V W R : Type 0} (json : GraphJson J) (engine : Engine J T V W R) where
  abbrev pub invocation : Option R → Option T → Option J → Invocation T V W R
  invocation none trigger_input source = start (
      initial_state engine.no_input engine.no_variables trigger_input
        (some (engine.resolved_vars source)))
  invocation (some value) trigger_input source = resume value

  unfoldable pub run_with_langgraph :
      GraphDef → Option J → ℕ → Option T → Option R → Result RunError (Harvest V)
  run_with_langgraph dsl source exec_id trigger_input resume_value = do
    compiled ← lifted compile_error (compile_dsl engine.registry dsl false)
    ok (
        harvested (
          engine.stream_execution compiled (invocation resume_value trigger_input source)
            (thread_id (engine.conversation_id trigger_input) exec_id)))

  unfoldable pub run_and_persist : ℕ → Clock → Store J T V → Result RunError (Store J T V)
  run_and_persist exec_id clock store = do
    execution ← found (lookup exec_id store.executions)
    wf ← found (lookup execution.workflow_id store.service.workflows)
    let source = graph_source wf execution
    dsl ← lifted parse_error (parse_strict json source)
    h ← run_with_langgraph dsl source exec_id execution.trigger_input none
    ok (first_run dsl h exec_id clock execution store)

  unfoldable pub resume_execution :
      ℕ → Option R → Clock → Store J T V → Result RunError (Store J T V)
  resume_execution exec_id resume_value clock store = do
    execution ← found (lookup exec_id store.executions)
    _ ← (if is_waiting execution.status then ok execution else err (not_waiting execution.status))
    wf ← found (lookup execution.workflow_id store.service.workflows)
    let source = graph_source wf execution
    dsl ← lifted parse_error (parse_strict json source)
    h ← run_with_langgraph dsl source exec_id execution.trigger_input resume_value
    ok (resumed_run dsl h exec_id clock execution store)

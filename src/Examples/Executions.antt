-- ===== src/Examples/Executions.antt =====
-- Tests and instances for app/workflow/service.py and app/workflow/execution_service.py.
use ops_knowledge.Prelude.{
  ℕ, ◌≡◌, ◌⊎◌, refl, true, false, none, some, List, [], ◌∷◌, ◌++◌, map, String, arith, length, not,
  Bool,
}
use ops_knowledge.Prelude.Dict.{lookup}
use ops_knowledge.Prelude.Results.{Result, ok, err}
use ops_knowledge.Prelude.Texts.{codes}
use ops_knowledge.Workflow.Dsl.{
  NodeDef, node, no_blocks, GraphDef, parse_dsl, validate_structure, assert_acyclic, in_degrees,
  successors, fill, visit, release,
}
use ops_knowledge.Workflow.Service.{
  GraphJson, draft, published, Workflow, Db, Publication, Call, created, updated, published_by,
  reverted_to_draft, parse_dsl_loose, parse_strict, has_any_node, get, create, update, publish,
  prune_old_versions, revert_to_draft, apply, apply_all,
}
use ops_knowledge.Workflow.Service.Soundness.{IsSound}
use ops_knowledge.Workflow.Service.Versions.{apply_all-IsSound}
use ops_knowledge.Workflow.Compiler.{
  NodeClass, CompileError, Compiled, compile_dsl, add_nodes, connect_all, plain_edges, one_entry,
  find_node, find_class, entry_nodes, is_trigger, reachable_from, explore,
}
use ops_knowledge.Workflow.State.{initial_state}
use ops_knowledge.Workflow.Execution.{
  pending, waiting, succeeded, WorkflowExecution, NodeExecution, execution_failed, RunEvent,
  RunError, compile_error, Store, ThreadId, Invocation, start, resume, Outcome, final_state, Engine,
  Clock, type_by_id, create_execution, run_with_langgraph, run_and_persist, resume_execution,
}
use ops_knowledge.Workflow.Execution.Records.{IsRecorded}
use ops_knowledge.Workflow.Execution.Runs.{
  Reach, initially, created as added, ran, Reach-IsRecorded, published_run_parses,
  waiting_run_reports_failure,
}

-- The JSON of a graph stands for itself; one without nodes is blank.
abbrev has_nodes : List NodeDef → Bool
has_nodes [] = false
has_nodes (n ∷ ns) = true

abbrev plain_node : ℕ → String → NodeDef
plain_node k type = node k type "1.0" no_blocks

abbrev seed : GraphDef
seed = record { nodes = plain_node 1 "start" ∷ []; edges = [] }

abbrev json : GraphJson GraphDef
json = record {
  is_blank = λ g. not (has_nodes g.nodes);
  node_count = λ g. some (length g.nodes);
  model_validate = λ g. some g;
  default_seed_graph = seed;
}

abbrev two_steps : GraphDef
two_steps = record {
  nodes = plain_node 1 "start" ∷ plain_node 2 "llm" ∷ [];
  edges = record { source = 1; target = 2; source_handle = none } ∷ [];
}

abbrev now : Publication
now = record { user_id = some 9; published_at = 100; change_note = none }

abbrev empty_db : Db GraphDef
empty_db = record { workflows = []; versions = [] }

abbrev calls : List (Call GraphDef)
calls =
    created 5
      (record { name = codes "w"; description = none; trigger_type = "manual"; graph_data = none })
      (some 9) none
    ∷ published_by now 5
    ∷ updated 5 (record { name = none; description = none; graph_data = some two_steps })
    ∷ published_by now 5
    ∷ reverted_to_draft 5
    ∷ []

-- A workflow with its seed only is not published; the version counts the publications that pass.
published_once : apply_all json calls empty_db ≡ record {
  workflows =
      (
        5,
        record {
          name = codes "w";
          description = none;
          version = 1;
          status = draft;
          trigger_type = "manual";
          graph_data = some two_steps;
          published_graph_data = some two_steps;
          owner_agent_id = none;
          created_by = some 9;
        },
      )
      ∷ [];
  versions =
      record {
        workflow_id = 5;
        version = 1;
        graph_data = some two_steps;
        published_by = some 9;
        published_at = 100;
        change_note = none;
      }
      ∷ [];
}
unfolding apply_all apply create update publish revert_to_draft parse_dsl_loose parse_strict
    parse_dsl has_any_node get prune_old_versions validate_structure assert_acyclic in_degrees
    successors fill visit release
published_once = refl

empty-IsSound : IsSound json empty_db
empty-IsSound = record {
  live = λ k wf raw found at. absurd (ground arith);
  placed = λ r i. absurd i;
  rising = λ k. tt;
  few = λ k. omega arith;
}

apply_all-IsSound_example : IsSound json (apply_all json calls empty_db)
apply_all-IsSound_example = apply_all-IsSound json calls empty_db empty-IsSound

abbrev registry : List NodeClass
registry =
    record { type = "start"; type_version = "1.0"; category = "trigger" }
    ∷ record { type = "llm"; type_version = "1.0"; category = "ai" }
    ∷ []

-- The first call stops for an approver after the start, an answer ends the run.
abbrev answered : Compiled → Invocation ℕ ℕ ℕ ℕ → ThreadId → Outcome ℕ
answered compiled (start state) thread = final_state ((1, state.trigger_input) ∷ []) [] true
answered compiled (resume value) thread = final_state ((1, 7) ∷ (2, value) ∷ []) ((2, 7) ∷ []) false

abbrev engine : Engine GraphDef ℕ ℕ ℕ ℕ
engine = record {
  registry = registry;
  no_input = 0;
  no_variables = 0;
  resolved_vars = λ raw. 0;
  conversation_id = λ trigger. none;
  stream_execution = answered;
}

abbrev wf : Workflow GraphDef
wf = record {
  name = codes "w";
  description = none;
  version = 1;
  status = published;
  trigger_type = "manual";
  graph_data = some two_steps;
  published_graph_data = some two_steps;
  owner_agent_id = none;
  created_by = some 9;
}

abbrev first_store : Store GraphDef ℕ ℕ
first_store = record {
  service = record { workflows = (5, wf) ∷ []; versions = [] };
  executions = [];
  node_executions = [];
  events = [];
}

abbrev one_pending : WorkflowExecution ℕ ℕ
one_pending = record {
  workflow_id = 5;
  workflow_version = 1;
  status = pending;
  trigger_input = some 7;
  output = none;
  started_at = none;
  finished_at = none;
  error = none;
  created_by = some 9;
}

abbrev created_store : Store GraphDef ℕ ℕ
created_store = record first_store { executions = (30, one_pending) ∷ [] }

execution_created : create_execution 30 5 (some 9) (some 7) false first_store ≡ ok created_store
unfolding create_execution
execution_created = refl

abbrev clock : Clock
clock = record { started = 1000; finished = 1250 }

abbrev waiting_one : WorkflowExecution ℕ ℕ
waiting_one = record one_pending {
  status = waiting;
  output = some ((1, 7) ∷ []);
  started_at = some 1000;
  finished_at = some 1250;
}

abbrev waiting_store : Store GraphDef ℕ ℕ
waiting_store = record created_store {
  executions = (30, waiting_one) ∷ [];
  node_executions =
      record {
        execution_id = 30;
        node_id = 1;
        node_type = "start";
        status = succeeded;
        input_data = none;
        output_data = 7;
        started_at = some 1000;
        finished_at = some 1250;
      }
      ∷ [];
  events =
      record {
        name = execution_failed;
        execution_id = 30;
        workflow_id = 5;
        status = waiting;
        duration_ms = some 250;
      }
      ∷ [];
}

run_waits : run_and_persist json engine 30 clock created_store ≡ ok waiting_store
unfolding run_and_persist run_with_langgraph parse_strict parse_dsl_loose parse_dsl
    validate_structure assert_acyclic in_degrees successors fill visit release compile_dsl add_nodes
    connect_all plain_edges one_entry find_node find_class entry_nodes is_trigger reachable_from
    explore initial_state type_by_id
run_waits = refl

abbrev later : Clock
later = record { started = 0; finished = 9000 }

abbrev node_rows : List (NodeExecution ℕ) → List (ℕ × ℕ)
node_rows rows = map (λ r. (r.node_id, r.output_data)) rows

abbrev resumed_rows : Result RunError (Store GraphDef ℕ ℕ) → List (ℕ × ℕ)
resumed_rows (ok store) = node_rows store.node_executions
resumed_rows (err e) = []

run_resumed :
    resumed_rows (resume_execution json engine 30 (some 4) later waiting_store)
    ≡ (1, 7) ∷ (2, 4) ∷ []
unfolding resume_execution run_with_langgraph parse_strict parse_dsl_loose parse_dsl
    validate_structure assert_acyclic in_degrees successors fill visit release compile_dsl add_nodes
    connect_all plain_edges one_entry find_node find_class entry_nodes is_trigger reachable_from
    explore initial_state type_by_id
run_resumed = refl

-- An answer of None starts the workflow again, and it waits again.
resumed_without_value :
    resumed_rows (resume_execution json engine 30 none later waiting_store) ≡ (1, 7) ∷ []
unfolding resume_execution run_with_langgraph parse_strict parse_dsl_loose parse_dsl
    validate_structure assert_acyclic in_degrees successors fill visit release compile_dsl add_nodes
    connect_all plain_edges one_entry find_node find_class entry_nodes is_trigger reachable_from
    explore initial_state type_by_id
resumed_without_value = refl

waiting_run : Reach json engine waiting_store
waiting_run =
    ran 30 one_pending clock
      (added 30 5 (some 9) (some 7) false (initially first_store.service) refl execution_created)
      refl refl run_waits

Reach-IsRecorded_example : IsRecorded waiting_store
Reach-IsRecorded_example = Reach-IsRecorded json engine waiting_store waiting_run

waiting_run_reports_failure_example :
    (ev : RunEvent) × (waiting_store.events ≡ [] ++ ev ∷ [])
    × (ev.execution_id ≡ 30)
    × (ev.status ≡ waiting)
    × (ev.name ≡ execution_failed)
waiting_run_reports_failure_example =
    waiting_run_reports_failure json engine 30 clock created_store waiting_store waiting_one
      run_waits refl refl

-- The tables after the calls of the service, with one execution.
abbrev published_wf : Workflow GraphDef
published_wf = record wf { status = draft }

abbrev served_store : Store GraphDef ℕ ℕ
served_store = record created_store { service = apply_all json calls empty_db }

served_workflow : lookup 5 (apply_all json calls empty_db).workflows ≡ some published_wf
unfolding apply_all apply create update publish revert_to_draft parse_dsl_loose parse_strict
    parse_dsl has_any_node get prune_old_versions validate_structure assert_acyclic in_degrees
    successors fill visit release
served_workflow = refl

published_run_parses_example :
    ((store' : Store GraphDef ℕ ℕ) × (run_and_persist json engine 30 clock served_store
        ≡ ok store'))
    ⊎ ((c : CompileError) × (run_and_persist json engine 30 clock served_store
          ≡ err (compile_error c)))
published_run_parses_example =
    published_run_parses json engine 30 clock served_store one_pending published_wf two_steps
      (apply_all-IsSound json calls empty_db empty-IsSound) refl refl served_workflow refl

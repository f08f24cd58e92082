-- ===== src/Agent/Dispatcher.antt =====
-- A handler's run as a stream of events: app/agent/orchestrator/dispatcher.py, with `get_adapter` of
-- adapters/base.py. What a handler does, and how long it takes, is given by a `HandlerRun`.
use text.Mathlib.Text.{◌==◌ as str_eq}
use ops_knowledge.Prelude.{
  ℕ, Bool, true, false, ◌||◌, if◌then◌else◌, Option, none, some, List, [], ◌∷◌, ◌++◌, String, any,
  map, take,
}
use ops_knowledge.Prelude.Results.{Result, ok, err}
use ops_knowledge.Prelude.Texts.{Text, codes}
use ops_knowledge.Agent.Engine.{AgentRule, EngineDecision}

-- The events of one request: those of the dispatcher, of the router, and those that a handler
-- yields, by their type and content.
pub data OrchestratorEvent (M C : Type 0) : Type 0 where
  handler_invoked : String → Option ℕ → OrchestratorEvent M C
  orchestrator_decision : EngineDecision M C → OrchestratorEvent M C
  forwarded : String → Text → OrchestratorEvent M C
  failed : Text → OrchestratorEvent M C

-- What `adapter.dispatch` yields, and the text of the exception that ends it.
pub record HandlerRun : Type 0 where
  pub yields : List (String × Text)
  pub crash : Option Text
  pub elapsed_ms : ℕ

pub record DispatchOutcome : Type 0 where
  pub handler_latency_ms : ℕ
  pub handler_status : String
  pub error : Option Text

pub data DispatchError : Type 0 where
  unsupported_handler_type : String → DispatchError

-- The types that `get_adapter` knows.
abbrev pub is_supported : String → Bool
is_supported type =
    str_eq type "simple_agent"
    || (str_eq type "workflow" || (str_eq type "mcp_tool" || str_eq type "sub_agent"))

abbrev pub is_error : String × Text → Bool
is_error ev = str_eq ev.0 "error"

module _ {M C : Type 0} where
  abbrev pub forward : String × Text → OrchestratorEvent M C
  forward ev = forwarded ev.0 ev.1

  -- The event that a crash adds.
  abbrev pub crash_events : Option Text → List (OrchestratorEvent M C)
  crash_events none = []
  crash_events (some e) = failed (codes "handler crashed: " ++ take 300 e) ∷ []

  unfoldable pub dispatch :
      String
      → Option ℕ
      → HandlerRun
      → Result DispatchError (List (OrchestratorEvent M C) × DispatchOutcome)
  dispatch handler_type handler_id run =
      let saw_error =
        any is_error run.yields || (elim run.crash [ none ↦ false | some e ↦ true ]) in
      if is_supported handler_type
      then ok (
        handler_invoked handler_type handler_id
            ∷ (map forward run.yields ++ crash_events run.crash),
        record {
          handler_latency_ms = run.elapsed_ms;
          handler_status = if saw_error then "error" else "ok";
          error = elim run.crash [ none ↦ none | some e ↦ some (take 500 e) ];
        },
      )
      else err (unsupported_handler_type handler_type)

  unfoldable pub dispatch_matched :
      AgentRule M
      → HandlerRun
      → Result DispatchError (List (OrchestratorEvent M C) × DispatchOutcome)
  dispatch_matched rule run = dispatch rule.handler_type rule.handler_id run

  unfoldable pub dispatch_default :
      String × Option ℕ
      → HandlerRun
      → Result DispatchError (List (OrchestratorEvent M C) × DispatchOutcome)
  dispatch_default default run = dispatch default.0 default.1 run

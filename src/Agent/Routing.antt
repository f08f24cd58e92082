-- ===== src/Agent/Routing.antt =====
-- One routed request: `OrchestratorService.route` of app/agent/orchestrator/service.py, with the
-- audit rows of audit.py. The rules are those of `_active_rules`; the texts, the identifiers and
-- the metadata that every audit row of a request repeats are left out of the rows.
pub mod Fallback
pub mod Statuses
use text.Mathlib.Text.{◌==◌ as str_eq}
use ops_knowledge.Prelude.{
  ℕ, zero, suc, Bool, true, false, ◌||◌, if◌then◌else◌, Option, none, some, List, [], ◌∷◌, ◌++◌,
  String, take,
}
use ops_knowledge.Prelude.Dict.{Dict, lookup, insert}
use ops_knowledge.Prelude.Results.{Result, ok, err}
use ops_knowledge.Prelude.Texts.{Text, codes}
use ops_knowledge.Agent.Engine.{AgentRule, Classifier, EngineDecision, MatchInput, evaluate}
use ops_knowledge.Agent.Dispatcher.{
  OrchestratorEvent, orchestrator_decision, failed, HandlerRun, DispatchOutcome, dispatch_matched,
  dispatch_default,
}

pub record OrchestratorTrace (C : Type 0) : Type 0 where
  pub matched_rule_id : Option ℕ
  pub match_type_used : String
  pub classifier_output : Option C
  pub handler_type : String
  pub handler_id : Option ℕ
  pub handler_latency_ms : ℕ
  pub handler_status : String
  pub tried_rules : Option (List ℕ)
  pub error : Option Text

-- The agent's part of a request. `handler` is what the n-th dispatch of the request meets.
pub record Request (M C : Type 0) : Type 0 where
  pub input : MatchInput M C
  pub rules : List (AgentRule M)
  pub default_handler : Option (String × Option ℕ)
  pub handler : ℕ → HandlerRun

pub record RouteState (M C : Type 0) : Type 0 where
  pub classifier : Classifier C
  pub dispatched : ℕ
  pub events : List (OrchestratorEvent M C)
  pub traces : List (OrchestratorTrace C)
  pub hit_count : Dict ℕ

abbrev pub max_attempts : ℕ
max_attempts = 5

-- How an attempt ends: the generator returns, the default handler runs, the exception of an
-- unsupported handler leaves the generator, or the loop goes on without a rule.
pub data Verdict : Type 0 where
  returned : Verdict
  to_default : Verdict
  raised : Verdict
  retry : ℕ → Verdict

-- `(error or "")[:2000] if error else None`
abbrev pub clipped : Option Text → Option Text
clipped none = none
clipped (some []) = none
clipped (some (c ∷ e)) = some (take 2000 (c ∷ e))

abbrev pub bump : ℕ → Dict ℕ → Dict ℕ
bump k hits = elim (lookup k hits) [ none ↦ insert k 1 hits | some n ↦ insert k (suc n) hits ]

-- `rule.on_handler_error or "use_default"`
abbrev pub policy_of : String → String
policy_of policy = if str_eq policy "" then "use_default" else policy

abbrev pub status_of_default : List ℕ → String → String
status_of_default [] status = status
status_of_default (k ∷ skip) status = "fallback_default"

module _ {M : Type 0} where
  abbrev pub verdict_of : AgentRule M → DispatchOutcome → Verdict
  verdict_of rule outcome =
      if str_eq outcome.handler_status "ok"
      then returned
      else (if str_eq (policy_of rule.on_handler_error) "return_error"
          then returned
          else (if str_eq (policy_of rule.on_handler_error) "fallback_next"
              then retry rule.id
              else to_default))

module _ {M C : Type 0} where
  -- The row, and the rule's hits where the status counts as one.
  unfoldable pub record_trace : OrchestratorTrace C → RouteState M C → RouteState M C
  record_trace trace st =
      let hits : Dict ℕ = elim trace.matched_rule_id [
        | none ↦ st.hit_count
        | some k ↦
            if str_eq trace.handler_status "ok" || str_eq trace.handler_status "fallback_next"
            then bump k st.hit_count
            else st.hit_count
      ] in
      record st {
        traces = st.traces ++ record trace { error = clipped trace.error } ∷ [];
        hit_count = hits;
      }

  abbrev pub emit : List (OrchestratorEvent M C) → RouteState M C → RouteState M C
  emit evs st = record st { events = st.events ++ evs }

  abbrev pub matched_trace :
      EngineDecision M C → AgentRule M → DispatchOutcome → OrchestratorTrace C
  matched_trace decision rule outcome = record {
    matched_rule_id = some rule.id;
    match_type_used = decision.match_type_used;
    classifier_output = decision.classifier_output;
    handler_type = rule.handler_type;
    handler_id = rule.handler_id;
    handler_latency_ms = outcome.handler_latency_ms;
    handler_status = outcome.handler_status;
    tried_rules = some decision.tried_rule_ids;
    error = outcome.error;
  }

  -- The dispatch of a matched rule, after the decision.
  unfoldable pub run_rule :
      Request M C → EngineDecision M C → AgentRule M → RouteState M C → Verdict × RouteState M C
  run_rule request decision rule st =
      elim (dispatch_matched {C = C} rule (request.handler st.dispatched)) [
        | err e ↦ (raised, st)
        | ok (evs, outcome) ↦ (
          verdict_of rule outcome,
          record_trace (matched_trace decision rule outcome)
              (emit evs (record st { dispatched = suc st.dispatched })),
        )
      ]

  -- The body of the loop.
  unfoldable pub attempt : Request M C → List ℕ → RouteState M C → Verdict × RouteState M C
  attempt request skip st =
      let (decision, classifier) = evaluate request.input request.rules skip st.classifier in
      let decided =
        emit (orchestrator_decision decision ∷ []) (record st { classifier = classifier }) in
      elim decision.matched_rule [
        | none ↦ (to_default, decided)
        | some rule ↦ run_rule request decision rule decided
      ]

  -- The default handler, after the loop.
  unfoldable pub run_default :
      Request M C → String × Option ℕ → List ℕ → RouteState M C → RouteState M C
  run_default request default skip st =
      elim (dispatch_default {M = M} {C = C} default (request.handler st.dispatched)) [
        | err e ↦ st
        | ok (evs, outcome) ↦
            record_trace
              (record {
                matched_rule_id = none;
                match_type_used = "default";
                classifier_output = none;
                handler_type = default.0;
                handler_id = default.1;
                handler_latency_ms = outcome.handler_latency_ms;
                handler_status = status_of_default skip outcome.handler_status;
                tried_rules = none;
                error = outcome.error;
              })
              (emit evs (record st { dispatched = suc st.dispatched }))
      ]

  -- What follows an attempt: `again` is the loop with one attempt less.
  abbrev pub proceed :
      Request M C
      → String × Option ℕ
      → List ℕ
      → (List ℕ → RouteState M C → RouteState M C)
      → Verdict × RouteState M C
      → RouteState M C
  proceed request default skip again (returned, st) = st
  proceed request default skip again (raised, st) = st
  proceed request default skip again (to_default, st) = run_default request default skip st
  proceed request default skip again (retry k, st) = again (skip ++ k ∷ []) st

  -- The loop, with the number of attempts left, and the default handler after it.
  unfoldable pub attempts :
      ℕ → Request M C → String × Option ℕ → List ℕ → RouteState M C → RouteState M C
  attempts zero request default skip st = run_default request default skip st
  attempts (suc n) request default skip st =
      proceed request default skip (attempts n request default) (attempt request skip st)

  unfoldable pub route : Request M C → RouteState M C → RouteState M C
  route request st = elim request.default_handler [
    | none ↦ emit (failed (codes "Orchestrator Agent has no default_handler configured") ∷ []) st
    | some default ↦ attempts max_attempts request default [] st
  ]

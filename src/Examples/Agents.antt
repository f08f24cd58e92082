-- ===== src/Examples/Agents.antt =====
-- Tests and instances for app/agent/orchestrator/.
use text.Mathlib.Text.{◌==◌ as str_eq}
use mathlib.Core.Option.{some-injective}
use ops_knowledge.Prelude.{
  Bool-cases, inl, inr, ℕ, ◌≤◌, ◌≡◌, refl, Bool, true, false, if◌then◌else◌, ◌==◌, Option, none,
  some, List, [], ◌∷◌, arith, String, length, IsUnique,
}
use ops_knowledge.Prelude.Texts.{codes}
use ops_knowledge.Prelude.{◌+◌, ◌&&◌, leb, map}
use ops_knowledge.Prelude.Texts.{Text, starts_with}
use ops_knowledge.Agent.Matchers.{KeywordConfig, contains, match_keyword}
use ops_knowledge.Agent.Cache.{
  Call, put, invalidated, get_cached_rules, put_cached_rules, invalidate, apply, apply_all,
}
use ops_knowledge.Agent.Cache.Refinement.{stored, get_cached_rules_sound}
use ops_knowledge.Agent.Cache.Capacity.{apply_all-bounded}
use ops_knowledge.Agent.Engine.{AgentRule, Classifier, MatchInput, classify_once, cascade, evaluate}
use ops_knowledge.Agent.Engine.Cascade.{first, fires, evaluate_exact}
use ops_knowledge.Agent.Dispatcher.{HandlerRun, dispatch, dispatch_matched, dispatch_default}
use ops_knowledge.Agent.Routing.{
  Request, RouteState, OrchestratorTrace, record_trace, run_rule, attempt, run_default, attempts,
  route,
}
use ops_knowledge.Agent.Routing.Fallback.{dispatched_ids, route-IsUnique}

-- Rules are stored, invalidated for another agent, and read.
abbrev calls : List (Call ℕ)
calls = put 1 (some 7) (10 ∷ 11 ∷ []) ∷ put 2 (some 3) [] ∷ invalidated 2 ∷ []

calls_hit : (get_cached_rules 1 (some 7) (apply_all calls [])).0 ≡ some (10 ∷ 11 ∷ [])
unfolding get_cached_rules apply_all apply put_cached_rules invalidate
calls_hit = refl

get_cached_rules_sound_example :
    stored calls (λ k. none) 1 ≡ some (record { updated_at = 7; rules = 10 ∷ 11 ∷ [] })
get_cached_rules_sound_example = get_cached_rules_sound calls 1 7 (10 ∷ 11 ∷ []) calls_hit

apply_all-bounded_example : length (apply_all calls []) ≤ 256
apply_all-bounded_example = apply_all-bounded calls [] (omega arith)

-- A matcher of the type "keyword" that accepts the configuration 0, and the one of the type
-- "llm_intent" that accepts the category classified.
abbrev accepts_zero : ℕ → Option ℕ → Bool
accepts_zero config answer = config == 0

abbrev accepts_category : ℕ → Option ℕ → Bool
accepts_category config answer = elim answer [ none ↦ false | some c ↦ c == config ]

abbrev matcher : String → Option (ℕ → Option ℕ → Bool)
matcher type =
    if str_eq type "llm_intent"
    then some accepts_category
    else (if str_eq type "keyword" then some accepts_zero else none)

abbrev input : MatchInput ℕ ℕ
input = record { has_classifier = true; classify = λ n. some 5; matcher = matcher }

abbrev rule : ℕ → String → ℕ → AgentRule ℕ
rule id type config = record {
  id = id;
  is_active = true;
  match_type = type;
  match_config = config;
  handler_type = "workflow";
  handler_id = some 3;
  on_handler_error = "fallback_next";
}

abbrev rules : List (AgentRule ℕ)
rules = rule 1 "keyword" 1 ∷ rule 2 "llm_intent" 5 ∷ rule 3 "keyword" 0 ∷ []

abbrev fresh : Classifier ℕ
fresh = record { result = none; calls = 0 }

-- Rule 2 is the first that accepts; with rule 2 skipped it is rule 3, and there is no call.
evaluate_test : (evaluate input rules [] fresh).0.matched_rule ≡ some (rule 2 "llm_intent" 5)
unfolding evaluate cascade classify_once
evaluate_test = refl

evaluate_exact_example :
    (evaluate input rules [] fresh).0.matched_rule ≡ first (fires input [] (some 5)) rules
evaluate_exact_example = evaluate_exact input 5 rules [] fresh plain (λ n. refl)
  where
    plain :
        (type : String) (m : ℕ → Option ℕ → Bool)
        → str_eq type "llm_intent" ≡ false
        → matcher type ≡ some m
        → (config : ℕ) (r s : Option ℕ) → m config r ≡ m config s
    plain type m h e config r s = elim (Bool-cases (str_eq type "keyword")) [
      | inl keyword ↦
          let same : accepts_zero ≡ m = some-injective _ _ (rw (h, keyword) at e) in
          rw (← same) refl
      | inr other ↦ absurd (ground arith)
    ]

-- Every handler yields an error, except the one of the third dispatch.
abbrev handlers : ℕ → HandlerRun
handlers n =
    if n == 2
    then record { yields = ("content_delta", codes "hi") ∷ []; crash = none; elapsed_ms = 4 }
    else record { yields = ("error", codes "down") ∷ []; crash = none; elapsed_ms = 9 }

abbrev request : Request ℕ ℕ
request = record {
  input = input;
  rules = rules;
  default_handler = some ("simple_agent", some 8);
  handler = handlers;
}

abbrev start : RouteState ℕ ℕ
start = record { classifier = fresh; dispatched = 0; events = []; traces = []; hit_count = [] }

abbrev statuses : List (OrchestratorTrace ℕ) → List String
statuses [] = []
statuses (t ∷ ts) = t.handler_status ∷ statuses ts

-- Rules 2 and 3 fail, and then the default handler answers.
statuses-route : statuses (route request start).traces ≡ "error" ∷ "error" ∷ "fallback_default" ∷ []
unfolding route attempts attempt run_rule run_default record_trace dispatch dispatch_matched
    dispatch_default evaluate cascade classify_once
statuses-route = refl

-- With two rules of the type llm_intent, one request calls the classifier in each cascade.
route_classifies_again :
    (route
      (record request { rules = rule 1 "llm_intent" 5 ∷ rule 2 "llm_intent" 5 ∷ [] })
      start).classifier.calls
    ≡ 2
unfolding route attempts attempt run_rule run_default record_trace dispatch dispatch_matched
    dispatch_default evaluate cascade classify_once
route_classifies_again = refl

route-IsUnique_example :
    IsUnique (dispatched_ids (route request start).traces)
    × (length (dispatched_ids (route request start).traces) ≤ 5)
route-IsUnique_example = route-IsUnique request start refl

-- The keywords "VPN" and "" of a rule that ignores case, in the message "my vpn".
abbrev keywords : KeywordConfig
keywords = record { any_of = codes "VPN" ∷ codes "" ∷ codes "fax" ∷ []; case_sensitive = false }

abbrev casefold : Text → Text
casefold = map (λ c. if leb 65 c && leb c 90 then c + 32 else c)

keyword_hit : (match_keyword casefold keywords (codes "my vpn")).hits ≡ codes "VPN" ∷ []
unfolding match_keyword contains starts_with
keyword_hit = refl

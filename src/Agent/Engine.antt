-- ===== src/Agent/Engine.antt =====
-- The cascade of rules: app/agent/orchestrator/engine.py. The matchers are what the table
-- `MATCHERS` holds, applied to the message of the request; `classify` gives the outcome of each
-- call of the language model, by the number of calls before it.
pub mod Cascade
use text.Mathlib.Text.{◌==◌ as str_eq}
use ops_knowledge.Prelude.{
  ℕ, suc, Bool, true, false, not, ◌||◌, ◌&&◌, if◌then◌else◌, Option, none, some, List, [], ◌∷◌,
  ◌++◌, String, mem,
}

-- `match_config` is of a type `M`, which only the matchers read.
pub record AgentRule (M : Type 0) : Type 0 where
  pub id : ℕ
  pub is_active : Bool
  pub match_type : String
  pub match_config : M
  pub handler_type : String
  pub handler_id : Option ℕ
  -- A column that is not null; an empty text counts as "use_default".
  pub on_handler_error : String

-- What outlives a cascade within one request: `_classifier_result` in the agent's configuration,
-- and the number of calls of the classifier.
pub record Classifier (C : Type 0) : Type 0 where
  pub result : Option C
  pub calls : ℕ

pub record EngineDecision (M C : Type 0) : Type 0 where
  pub matched_rule : Option (AgentRule M)
  pub match_type_used : String
  pub tried_rule_ids : List ℕ
  pub classifier_output : Option C

-- What a cascade finds for the request: whether `classifier` is configured, the outcomes of
-- `classify`, and the table MATCHERS with each matcher applied to the message.
pub record MatchInput (M C : Type 0) : Type 0 where
  pub has_classifier : Bool
  pub classify : ℕ → Option C
  pub matcher : String → Option (M → Option C → Bool)

module _ {M : Type 0} where
  -- `str(rule.id) in skip or not rule.is_active`, the other way round.
  abbrev pub eligible : List ℕ → AgentRule M → Bool
  eligible skip rule = not (mem rule.id skip || not rule.is_active)

module _ {M C : Type 0} where
  -- The lazy call of the classifier, before a rule of the type llm_intent.
  unfoldable pub classify_once :
      MatchInput M C → AgentRule M → Option C → Classifier C → Option C × Classifier C
  classify_once input rule (some c) state = (some c, state)
  classify_once input rule none state =
      if str_eq rule.match_type "llm_intent" && input.has_classifier
      then elim (input.classify state.calls) [
        | none ↦ (none, record state { calls = suc state.calls })
        | some c ↦ (some c, record { result = some c; calls = suc state.calls })
      ]
      else (none, state)

  abbrev decided :
      AgentRule M → List ℕ → Option C → Classifier C → EngineDecision M C × Classifier C
  decided rule tried output state = (
    record {
      matched_rule = some rule;
      match_type_used = rule.match_type;
      tried_rule_ids = tried;
      classifier_output = output;
    },
    state,
  )

  -- The loop over the rules, with `tried` and `classifier_output`.
  unfoldable pub cascade :
      MatchInput M C
      → List ℕ
      → List (AgentRule M)
      → List ℕ
      → Option C
      → Classifier C
      → EngineDecision M C × Classifier C
  cascade input skip [] tried output state = (
    record {
      matched_rule = none;
      match_type_used = "default";
      tried_rule_ids = tried;
      classifier_output = output;
    },
    state,
  )
  cascade input skip (rule ∷ rules) tried output state =
      let skipped = cascade input skip rules tried output state in
      let (output', state') = classify_once input rule output state in
      let next = cascade input skip rules (tried ++ rule.id ∷ []) output' state' in
      let unknown = cascade input skip rules (tried ++ rule.id ∷ []) output state in
      if eligible skip rule
      then elim (input.matcher rule.match_type) [
        | none ↦ unknown
        | some m ↦
            if m rule.match_config state'.result
            then decided rule (tried ++ rule.id ∷ []) output' state'
            else next
      ]
      else skipped

  unfoldable pub evaluate :
      MatchInput M C
      → List (AgentRule M)
      → List ℕ
      → Classifier C
      → EngineDecision M C × Classifier C
  evaluate input rules skip state = cascade input skip rules [] none state

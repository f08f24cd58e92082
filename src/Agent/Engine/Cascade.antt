-- ===== src/Agent/Engine/Cascade.antt =====
-- Which rule a cascade picks, and what it costs (app/agent/orchestrator/engine.py).
use text.Mathlib.Text.{◌==◌ as str_eq}
use ops_knowledge.Prelude.{
  ℕ, suc, ◌≤◌, ◌≡◌, refl, Bool, true, false, ◌&&◌, if◌then◌else◌, Option, none, some, List, [], ◌∷◌,
  ◌++◌, arith, String, Bool-cases, Option-cases, inl, inr,
}
use ops_knowledge.Agent.Engine.{
  AgentRule, Classifier, MatchInput, eligible, classify_once, cascade, evaluate,
}

-- The first row of a list that passes a test.
abbrev pub first {ℓ} : {A : Type ℓ} → (A → Bool) → List A → Option A
first p [] = none
first p (x ∷ xs) = let rest = first p xs in if p x then some x else rest

module _ {M : Type 0} where
  -- Whether a rule could make the cascade call the classifier.
  abbrev pub is_costly : List ℕ → AgentRule M → Bool
  is_costly skip rule = eligible skip rule && str_eq rule.match_type "llm_intent"

module _ {M C : Type 0} where
  -- A rule fires on a classification if it is neither skipped nor inactive, its type has a
  -- matcher, and the matcher accepts.
  abbrev pub fires : MatchInput M C → List ℕ → Option C → AgentRule M → Bool
  fires input skip answer rule = eligible skip rule && (elim (input.matcher rule.match_type) [
    | none ↦ false
    | some m ↦ m rule.match_config answer
  ])

  -- Where the classifier is not called any more, the cascade is a search for the first match.
  quiet :
      (input : MatchInput M C) (skip : List ℕ) (rules : List (AgentRule M)) (tried : List ℕ)
      (output : Option C) (state : Classifier C)
      → ((rule : AgentRule M) → classify_once input rule output state ≡ (output, state))
      → (cascade input skip rules tried output state).0.matched_rule
        ≡ first (fires input skip state.result) rules
  unfolding cascade
  quiet input skip [] tried output state still = refl
  quiet input skip (rule ∷ rules) tried output state still = ground (
    arith,
    still rule,
    quiet input skip rules tried output state still,
    quiet input skip rules (tried ++ rule.id ∷ []) output state still,
  )

  -- What holds of the matchers of the code: only the one of llm_intent reads the classification.
  abbrev pub IsPlain : MatchInput M C → Type 0
  IsPlain input =
      (type : String) (m : M → Option C → Bool)
      → str_eq type "llm_intent" ≡ false
      → input.matcher type ≡ some m
      → (config : M) (r s : Option C) → m config r ≡ m config s

  settled :
      (input : MatchInput M C) (c : C) (calls : ℕ) (rule : AgentRule M)
      → classify_once input rule (some c) (record { result = some c; calls = calls })
        ≡ (some c, record { result = some c; calls = calls })
  unfolding classify_once
  settled input c calls rule = refl

  -- The cascade before the first call of the classifier.
  lazy :
      (input : MatchInput M C) (c : C) (skip : List ℕ) (rules : List (AgentRule M)) (tried : List ℕ)
      (state : Classifier C)
      → IsPlain input
      → input.has_classifier ≡ true
      → ((n : ℕ) → input.classify n ≡ some c)
      → (cascade input skip rules tried none state).0.matched_rule
        ≡ first (fires input skip (some c)) rules
  unfolding cascade classify_once
  lazy input c skip [] tried state plain has answers = refl
  lazy input c skip (rule ∷ rules) tried state plain has answers =
      let skipped = lazy input c skip rules tried state plain has answers in
      let unknown = lazy input c skip rules (tried ++ rule.id ∷ []) state plain has answers in
      let later =
        quiet input skip rules (tried ++ rule.id ∷ []) (some c)
          (record { result = some c; calls = suc state.calls })
          (settled input c (suc state.calls)) in
      elim (Option-cases (input.matcher rule.match_type)) [
        | inl none_known ↦ ground (arith, skipped, unknown)
        | inr (m, known) ↦ elim (Bool-cases (str_eq rule.match_type "llm_intent")) [
          | inl llm ↦ ground (arith, skipped, later, answers state.calls)
          | inr other ↦
              let same =
                plain rule.match_type m other known rule.match_config state.result (some c) in
              ground (arith, skipped, unknown, same)
        ]
      ]

  never :
      (input : MatchInput M C) (rule : AgentRule M) (state : Classifier C)
      → input.has_classifier ≡ false
      → classify_once input rule none state ≡ (none, state)
  unfolding classify_once
  never input rule state h = ground arith

  -- The lazy cascade picks the same rule as if the message were classified before any rule was
  -- tried: the first one, in the order given, that is active, not skipped and accepted by its
  -- matcher. The conditions are that the classifier answers the same whenever it is called, and that
  -- the matchers of the other types do not read its answer. Without a classifier in the
  -- configuration the rules see what an earlier cascade of the request left.
  pub evaluate_exact :
      (input : MatchInput M C) (c : C) (rules : List (AgentRule M)) (skip : List ℕ)
      (state : Classifier C)
      → IsPlain input
      → ((n : ℕ) → input.classify n ≡ some c)
      → (evaluate input rules skip state).0.matched_rule
        ≡ first (fires input skip (if input.has_classifier then some c else state.result)) rules
  unfolding evaluate
  evaluate_exact input c rules skip state plain answers = elim (Bool-cases input.has_classifier) [
    | inl has ↦ ground (arith, lazy input c skip rules [] state plain has answers)
    | inr without ↦
        ground
          (arith, quiet input skip rules [] none state (λ rule. never input rule state without))
  ]

  settled_calls :
      (input : MatchInput M C) (c : C) (skip : List ℕ) (rules : List (AgentRule M)) (tried : List ℕ)
      (state : Classifier C)
      → (cascade input skip rules tried (some c) state).1.calls ≡ state.calls
  unfolding cascade classify_once
  settled_calls input c skip [] tried state = refl
  settled_calls input c skip (rule ∷ rules) tried state = ground (
    arith,
    settled_calls input c skip rules tried state,
    settled_calls input c skip rules (tried ++ rule.id ∷ []) state,
  )

  costs :
      (input : MatchInput M C) (c : C) (skip : List ℕ) (rules : List (AgentRule M)) (tried : List ℕ)
      (state : Classifier C)
      → ((n : ℕ) → input.classify n ≡ some c)
      → ((cascade input skip rules tried none state).1.calls ≤ suc state.calls)
        × (first (is_costly skip) rules ≡ none
            → (cascade input skip rules tried none state).1.calls ≡ state.calls)
  unfolding cascade classify_once
  costs input c skip [] tried state answers = (omega arith, λ h. refl)
  costs input c skip (rule ∷ rules) tried state answers =
      let skipped = costs input c skip rules tried state answers in
      let unknown = costs input c skip rules (tried ++ rule.id ∷ []) state answers in
      let later =
        settled_calls input c skip rules (tried ++ rule.id ∷ [])
          (record { result = some c; calls = suc state.calls }) in
      (
        ground (arith, skipped.0, unknown.0, later, answers state.calls),
        λ none_costly. ground (arith, skipped.1, unknown.1, later, answers state.calls),
      )

  -- A cascade calls a classifier that answers at most once, and not at all if no rule of the type
  -- llm_intent is active and not skipped.
  pub evaluate-calls :
      (input : MatchInput M C) (c : C) (rules : List (AgentRule M)) (skip : List ℕ)
      (state : Classifier C)
      → ((n : ℕ) → input.classify n ≡ some c)
      → ((evaluate input rules skip state).1.calls ≤ suc state.calls)
        × (first (is_costly skip) rules ≡ none
            → (evaluate input rules skip state).1.calls ≡ state.calls)
  unfolding evaluate
  evaluate-calls input c rules skip state answers = costs input c skip rules [] state answers

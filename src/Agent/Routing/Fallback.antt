-- ===== src/Agent/Routing/Fallback.antt =====
-- What a routed request goes through (app/agent/orchestrator/service.py and engine.py): which rules
-- are dispatched, how often, and what the audit rows say.
use mathlib.Core.List.{append-nil}
use ops_knowledge.Prelude.{
  ℕ, zero, suc, ◌≤◌, ◌+◌, ◌≡◌, refl, ap, subst, true, false, Option, none, some, List, [], ◌∷◌,
  ◌++◌, arith, ◌⊎◌, String, Option-cases, inl, inr, ◌∙◌, sym, mem, length, IsUnique, IsUnique-snoc,
  length-append,
}
use ops_knowledge.Prelude.Results.{Result, ok, err}
use ops_knowledge.Agent.Engine.{
  AgentRule, Classifier, EngineDecision, MatchInput, eligible, classify_once, cascade, evaluate,
}
use ops_knowledge.Agent.Dispatcher.{
  DispatchError, OrchestratorEvent, orchestrator_decision, DispatchOutcome, dispatch_matched,
  dispatch_default,
}
use ops_knowledge.Agent.Routing.{
  OrchestratorTrace, Request, RouteState, Verdict, returned, to_default, raised, retry, verdict_of,
  record_trace, run_rule, attempt, run_default, proceed, attempts, route, max_attempts, emit,
  matched_trace,
}

-- The rules that the audit rows name, in the order of the rows.
abbrev pub dispatched_ids : {C : Type 0} → List (OrchestratorTrace C) → List ℕ
dispatched_ids [] = []
dispatched_ids (t ∷ ts) =
    let rest = dispatched_ids ts in elim t.matched_rule_id [ none ↦ rest | some k ↦ k ∷ rest ]

module _ {C : Type 0} where
  ids-snoc :
      (ts : List (OrchestratorTrace C)) (t : OrchestratorTrace C)
      → dispatched_ids (ts ++ t ∷ []) ≡ dispatched_ids ts ++ dispatched_ids (t ∷ [])
  ids-snoc [] t = refl
  ids-snoc (s ∷ ts) t = ground (arith, ids-snoc ts t)

module _ {M : Type 0} where
  verdicts :
      (rule : AgentRule M) (outcome : DispatchOutcome)
      → (verdict_of rule outcome ≡ returned)
        ⊎ (verdict_of rule outcome ≡ to_default)
        ⊎ (verdict_of rule outcome ≡ retry rule.id)
  verdicts rule outcome = ground arith

module _ {M C : Type 0} where
  -- A cascade picks only an active rule that it was not told to skip.
  matched_eligible :
      (input : MatchInput M C) (skip : List ℕ) (rules : List (AgentRule M)) (tried : List ℕ)
      (output : Option C) (state : Classifier C) (rule : AgentRule M)
      → (cascade input skip rules tried output state).0.matched_rule ≡ some rule
      → eligible skip rule ≡ true
  unfolding cascade
  matched_eligible input skip [] tried output state rule h = ground arith
  matched_eligible input skip (r ∷ rules) tried output state rule h =
      let (output', state') = classify_once input r output state in
      ground (
        arith,
        matched_eligible input skip rules tried output state rule,
        matched_eligible input skip rules (tried ++ r.id ∷ []) output state rule,
        matched_eligible input skip rules (tried ++ r.id ∷ []) output' state' rule,
      )

  -- Before an attempt, the rules dispatched so far are those to skip, and none was dispatched twice.
  record Tracks (skip : List ℕ) (st : RouteState M C) : Type 0 where
    same : dispatched_ids st.traces ≡ skip
    once : IsUnique skip

  -- After an attempt that is not repeated there is at most one more rule.
  abbrev Bounded : ℕ → RouteState M C → Type 0
  Bounded n st = IsUnique (dispatched_ids st.traces) × (length (dispatched_ids st.traces) ≤ n)

  abbrev After : List ℕ → Verdict → RouteState M C → Type 0
  After skip (retry k) st = Tracks (skip ++ k ∷ []) st
  After skip returned st = Bounded (suc (length skip)) st
  After skip raised st = Bounded (suc (length skip)) st
  After skip to_default st = Bounded (suc (length skip)) st

  Tracks-Bounded :
      (skip : List ℕ) (st : RouteState M C) → Tracks skip st → Bounded (suc (length skip)) st
  Tracks-Bounded skip st t = (rw t.same t.once, rw t.same (omega arith))

  ids-record_trace :
      (t : OrchestratorTrace C) (st : RouteState M C)
      → dispatched_ids (record_trace t st).traces
        ≡ dispatched_ids st.traces ++ dispatched_ids (t ∷ [])
  unfolding record_trace
  ids-record_trace t st = ids-snoc st.traces _

  extended :
      (skip : List ℕ) (k : ℕ) (v : Verdict) (st : RouteState M C)
      → dispatched_ids st.traces ≡ skip ++ k ∷ []
      → IsUnique skip
      → mem k skip ≡ false
      → (v ≡ returned) ⊎ (v ≡ to_default) ⊎ (v ≡ retry k)
      → After skip v st
  extended skip k v st e u fresh which =
      let u' = IsUnique-snoc skip k u fresh in
      let tracks : Tracks (skip ++ k ∷ []) st = record { same = e; once = u' } in
      let bounded : Bounded (suc (length skip)) st =
        (rw e u', rw e (omega (arith, length-append skip (k ∷ [])))) in
      elim which [ inl a ↦ rw a bounded | inr (inl b) ↦ rw b bounded | inr (inr c) ↦ rw c tracks ]

  abbrev Ends : List ℕ → Verdict × RouteState M C → Type 0
  Ends skip p = After skip p.0 p.1

  run_rule-After :
      (request : Request M C) (decision : EngineDecision M C) (rule : AgentRule M) (skip : List ℕ)
      (st : RouteState M C)
      → Tracks skip st
      → mem rule.id skip ≡ false
      → Ends skip (run_rule request decision rule st)
  unfolding run_rule
  run_rule-After request decision rule skip st t fresh =
      go (dispatch_matched rule (request.handler st.dispatched)) refl
    where
      go :
          (o : Result DispatchError (List (OrchestratorEvent M C) × DispatchOutcome))
          → dispatch_matched rule (request.handler st.dispatched) ≡ o
          → Ends skip (run_rule request decision rule st)
      go (err e) h =
          let left : run_rule request decision rule st ≡ (raised, st) = rw (h, run_rule) refl in
          subst (Ends skip) (sym left) (Tracks-Bounded skip st t)
      go (ok (evs, outcome)) h =
          let before : RouteState M C = emit evs (record st { dispatched = suc st.dispatched }) in
          let trace = matched_trace decision rule outcome in
          let ids : dispatched_ids (record_trace trace before).traces ≡ skip ++ rule.id ∷ [] =
            ids-record_trace trace before ∙ ap (λ xs. xs ++ rule.id ∷ []) t.same in
          let left : run_rule request decision rule st
              ≡ (verdict_of rule outcome, record_trace trace before) =
            rw (h, run_rule) refl in
          subst (Ends skip) (sym left) (
            extended skip rule.id (verdict_of rule outcome) (record_trace trace before) ids t.once
              fresh (verdicts rule outcome))

  attempt-After :
      (request : Request M C) (skip : List ℕ) (st : RouteState M C)
      → Tracks skip st
      → Ends skip (attempt request skip st)
  unfolding attempt evaluate
  attempt-After request skip st t =
      go (evaluate request.input request.rules skip st.classifier).0.matched_rule refl
    where
      decision : EngineDecision M C
      decision = (evaluate request.input request.rules skip st.classifier).0

      decided : RouteState M C
      decided =
          emit (orchestrator_decision decision ∷ [])
            (record st { classifier = (evaluate request.input request.rules skip st.classifier).1 })

      again : Tracks skip decided
      again = record { same = t.same; once = t.once }

      go :
          (o : Option (AgentRule M))
          → decision.matched_rule ≡ o
          → Ends skip (attempt request skip st)
      go none h =
          let left : attempt request skip st ≡ (to_default, decided) = rw (h, attempt) refl in
          subst (Ends skip) (sym left) (Tracks-Bounded skip decided again)
      go (some rule) h =
          let left : attempt request skip st ≡ run_rule request decision rule decided =
            rw (h, attempt) refl in
          let fit =
            matched_eligible request.input skip request.rules [] none st.classifier rule h in
          subst (Ends skip) (sym left)
            (run_rule-After request decision rule skip decided again (ground arith))

  run_default-ids :
      (request : Request M C) (default : String × Option ℕ) (skip : List ℕ) (st : RouteState M C)
      → dispatched_ids (run_default request default skip st).traces ≡ dispatched_ids st.traces
  unfolding run_default
  run_default-ids request default skip st =
      go (dispatch_default {M = M} {C = C} default (request.handler st.dispatched)) refl
    where
      go :
          (o : Result DispatchError (List (OrchestratorEvent M C) × DispatchOutcome))
          → dispatch_default default (request.handler st.dispatched) ≡ o
          → dispatched_ids (run_default request default skip st).traces ≡ dispatched_ids st.traces
      go (err e) h = rw (h, run_default) refl
      go (ok (evs, outcome)) h =
          rw (h, run_default) (ids-record_trace _ _ ∙ append-nil (dispatched_ids st.traces))

  attempts-Bounded :
      (n : ℕ) (request : Request M C) (default : String × Option ℕ) (skip : List ℕ)
      (st : RouteState M C)
      → Tracks skip st
      → Bounded (length skip + n) (attempts n request default skip st)
  unfolding attempts
  attempts-Bounded zero request default skip st t =
      let kept = run_default-ids request default skip st in
      (rw (kept, t.same) t.once, rw (kept, t.same) (omega arith))
  attempts-Bounded (suc n) request default skip st t =
      go
        (λ k st' t'.
          let (once, size) = attempts-Bounded n request default (skip ++ k ∷ []) st' t' in
          (once, omega (arith, length-append skip (k ∷ []), size)))
        (attempt request skip st) (attempt-After request skip st t)
    where
      go :
          ((k : ℕ) (st' : RouteState M C)
            → Tracks (skip ++ k ∷ []) st'
            → Bounded (length skip + suc n) (attempts n request default (skip ++ k ∷ []) st'))
          → (p : Verdict × RouteState M C) → Ends skip p
          → Bounded
              (length skip + suc n)
              (proceed request default skip (attempts n request default) p)
      go again (retry k, st') a = again k st' a
      go again (returned, st') a = (a.0, omega (arith, a.1))
      go again (raised, st') a = (a.0, omega (arith, a.1))
      go again (to_default, st') a =
          let kept = run_default-ids request default skip st' in
          (rw kept a.0, rw kept (omega (arith, a.1)))

  -- A routed request that begins without audit rows names no rule twice in its rows, and at most
  -- five rules: a rule whose handler failed is not dispatched again.
  pub route-IsUnique :
      (request : Request M C) (st : RouteState M C)
      → st.traces ≡ []
      → IsUnique (dispatched_ids (route request st).traces)
        × (length (dispatched_ids (route request st).traces) ≤ max_attempts)
  unfolding route
  route-IsUnique request st empty = elim (Option-cases request.default_handler) [
    | inl missing ↦ rw (missing, route) (rw empty (tt, omega arith))
    | inr (default, present) ↦
        rw (present, route)
          (attempts-Bounded max_attempts request default [] st
            (record { same = rw empty refl; once = tt }))
  ]

-- ===== src/Agent/Routing/Statuses.antt =====
-- The status that the audit rows of a routed request carry (app/agent/orchestrator/).
use text.Mathlib.Text.{◌==◌ as str_eq}
use ops_knowledge.Prelude.{
  ℕ, zero, suc, ◌≡◌, refl, subst, sym, Bool, true, false, if◌then◌else◌, Option, none, some, List,
  [], ◌∷◌, ◌++◌, String, Option-cases, inl, inr, All, All-append,
}
use ops_knowledge.Prelude.Results.{Result, ok, err}
use ops_knowledge.Agent.Engine.{AgentRule, EngineDecision, evaluate}
use ops_knowledge.Agent.Dispatcher.{
  DispatchError, OrchestratorEvent, orchestrator_decision, DispatchOutcome, HandlerRun, dispatch,
  dispatch_matched, dispatch_default, is_supported,
}
use ops_knowledge.Agent.Routing.{
  OrchestratorTrace, Request, RouteState, Verdict, returned, to_default, raised, retry,
  record_trace, run_rule, attempt, run_default, proceed, attempts, route, max_attempts, emit,
  matched_trace, verdict_of, status_of_default,
}

-- A status other than the one that `rules_analytics` counts as a fallback.
abbrev pub IsNotFallback : String → Type 0
IsNotFallback status = str_eq status "fallback_next" ≡ false

abbrev pub AllNotFallback : {C : Type 0} → List (OrchestratorTrace C) → Type 0
AllNotFallback = All (λ t. IsNotFallback t.handler_status)

default_status :
    (skip : List ℕ) (status : String)
    → IsNotFallback status
    → IsNotFallback (status_of_default skip status)
default_status [] status h = h
default_status (k ∷ skip) status h = refl

two_statuses : (b : Bool) → IsNotFallback (if b then "error" else "ok")
two_statuses true = refl
two_statuses false = refl

module _ {M C : Type 0} where
  abbrev status_of : Result DispatchError (List (OrchestratorEvent M C) × DispatchOutcome) → String
  status_of (err e) = "ok"
  status_of (ok (evs, outcome)) = outcome.handler_status

status_of-dispatch :
    (M C : Type 0) (type : String) (id : Option ℕ) (run : HandlerRun)
    → IsNotFallback (status_of (dispatch {M = M} {C = C} type id run))
unfolding dispatch
status_of-dispatch M C type id run = go (is_supported type) refl
  where
    go :
        (b : Bool)
        → is_supported type ≡ b
        → IsNotFallback (status_of (dispatch {M = M} {C = C} type id run))
    go true e = rw (e, status_of, dispatch) (two_statuses _)
    go false e = rw (e, status_of, dispatch) refl

module _ {M C : Type 0} where
  dispatch_status :
      (type : String) (id : Option ℕ) (run : HandlerRun) (evs : List (OrchestratorEvent M C))
      (outcome : DispatchOutcome)
      → dispatch type id run ≡ ok (evs, outcome)
      → IsNotFallback outcome.handler_status
  dispatch_status type id run evs outcome h =
      subst (λ r. IsNotFallback (status_of r)) h (status_of-dispatch M C type id run)

  traced :
      (t : OrchestratorTrace C) (st : RouteState M C)
      → AllNotFallback st.traces
      → IsNotFallback t.handler_status
      → AllNotFallback (record_trace t st).traces
  unfolding record_trace
  traced t st clean h = All-append _ st.traces _ clean (h, tt)

  abbrev Clean : Verdict × RouteState M C → Type 0
  Clean p = AllNotFallback p.1.traces

  run_rule-Clean :
      (request : Request M C) (decision : EngineDecision M C) (rule : AgentRule M)
      (st : RouteState M C)
      → AllNotFallback st.traces
      → Clean (run_rule request decision rule st)
  unfolding run_rule dispatch_matched
  run_rule-Clean request decision rule st clean =
      go (dispatch_matched rule (request.handler st.dispatched)) refl
    where
      go :
          (o : Result DispatchError (List (OrchestratorEvent M C) × DispatchOutcome))
          → dispatch_matched rule (request.handler st.dispatched) ≡ o
          → Clean (run_rule request decision rule st)
      go (err e) h =
          let left : run_rule request decision rule st ≡ (raised, st) = rw (h, run_rule) refl in
          subst Clean (sym left) clean
      go (ok (evs, outcome)) h =
          let before : RouteState M C = emit evs (record st { dispatched = suc st.dispatched }) in
          let trace = matched_trace decision rule outcome in
          let left : run_rule request decision rule st
              ≡ (verdict_of rule outcome, record_trace trace before) =
            rw (h, run_rule) refl in
          let status =
            dispatch_status rule.handler_type rule.handler_id (request.handler st.dispatched) evs
              outcome h in
          subst Clean (sym left) (traced trace before clean status)

  attempt-Clean :
      (request : Request M C) (skip : List ℕ) (st : RouteState M C)
      → AllNotFallback st.traces
      → Clean (attempt request skip st)
  unfolding attempt
  attempt-Clean request skip st clean = go decision.matched_rule refl
    where
      decision : EngineDecision M C
      decision = (evaluate request.input request.rules skip st.classifier).0

      decided : RouteState M C
      decided =
          emit (orchestrator_decision decision ∷ [])
            (record st { classifier = (evaluate request.input request.rules skip st.classifier).1 })

      go : (o : Option (AgentRule M)) → decision.matched_rule ≡ o → Clean (attempt request skip st)
      go none h =
          let left : attempt request skip st ≡ (to_default, decided) = rw (h, attempt) refl in
          subst Clean (sym left) clean
      go (some rule) h =
          let left : attempt request skip st ≡ run_rule request decision rule decided =
            rw (h, attempt) refl in
          subst Clean (sym left) (run_rule-Clean request decision rule decided clean)

  run_default-Clean :
      (request : Request M C) (default : String × Option ℕ) (skip : List ℕ) (st : RouteState M C)
      → AllNotFallback st.traces
      → AllNotFallback (run_default request default skip st).traces
  unfolding run_default dispatch_default
  run_default-Clean request default skip st clean =
      go (dispatch_default {M = M} {C = C} default (request.handler st.dispatched)) refl
    where
      go :
          (o : Result DispatchError (List (OrchestratorEvent M C) × DispatchOutcome))
          → dispatch_default default (request.handler st.dispatched) ≡ o
          → AllNotFallback (run_default request default skip st).traces
      go (err e) h = rw (h, run_default) clean
      go (ok (evs, outcome)) h =
          rw (h, run_default)
            (traced _ (emit evs (record st { dispatched = suc st.dispatched })) clean (
              default_status skip outcome.handler_status (
                dispatch_status default.0 default.1 (request.handler st.dispatched) evs outcome h)))

  attempts-Clean :
      (n : ℕ) (request : Request M C) (default : String × Option ℕ) (skip : List ℕ)
      (st : RouteState M C)
      → AllNotFallback st.traces
      → AllNotFallback (attempts n request default skip st).traces
  unfolding attempts
  attempts-Clean zero request default skip st clean =
      run_default-Clean request default skip st clean
  attempts-Clean (suc n) request default skip st clean =
      go (λ k st' c. attempts-Clean n request default (skip ++ k ∷ []) st' c)
        (attempt request skip st) (attempt-Clean request skip st clean)
    where
      go :
          ((k : ℕ) (st' : RouteState M C)
            → AllNotFallback st'.traces
            → AllNotFallback (attempts n request default (skip ++ k ∷ []) st').traces)
          → (p : Verdict × RouteState M C) → Clean p
          → AllNotFallback (proceed request default skip (attempts n request default) p).traces
      go again (retry k, st') c = again k st' c
      go again (returned, st') c = c
      go again (raised, st') c = c
      go again (to_default, st') c = run_default-Clean request default skip st' c

  -- No audit row that a routed request adds has the status "fallback_next", also where rules failed
  -- and the next ones were tried: if no earlier row has it, no row has it afterwards.
  pub route-AllNotFallback :
      (request : Request M C) (st : RouteState M C)
      → AllNotFallback st.traces
      → AllNotFallback (route request st).traces
  unfolding route
  route-AllNotFallback request st clean = elim (Option-cases request.default_handler) [
    | inl missing ↦ rw (missing, route) clean
    | inr (default, present) ↦
        rw (present, route) (attempts-Clean max_attempts request default [] st clean)
  ]

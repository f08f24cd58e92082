-- ===== src/Workflow/Execution/Records.antt =====
-- The rows that runs leave (app/workflow/execution_service.py).
use ops_knowledge.Prelude.{
  ℕ, ◌≡◌, ◌≢◌, refl, sym, ap, ◌∙◌, subst, Bool, true, false, not, ◌==◌, if◌then◌else◌, Option, none,
  some, List, [], ◌∷◌, ◌++◌, map, arith, inl, inr, Bool-cases, keep, ◌&&◌,
}
use mathlib.Core.List.{append-nil}
use mathlib.Core.Option.{some-injective}
use ops_knowledge.Prelude.Dict.{Dict, lookup, insert, lookup-insert}
use ops_knowledge.Prelude.Results.{ok, bind_ok, err-ne-ok, ok-injective}
use ops_knowledge.Workflow.Dsl.{GraphDef}
use ops_knowledge.Workflow.Service.Pruning.{keep-append}
use ops_knowledge.Workflow.Execution.{
  ExecutionStatus, Outcome, final_state, raised, harvested, is_published, workflow_or, pending,
  running, succeeded, WorkflowExecution, NodeExecution, Store, Clock, Harvest, node_row,
  first_status, new_execution, found, create_execution, first_run, resumed_run,
}

-- A status that a run can end in.
abbrev pub IsEnd : ExecutionStatus → Type 0
IsEnd s = (s ≢ pending) × (s ≢ running)

pub harvested-IsEnd : {V : Type 0} (o : Outcome V) → IsEnd (harvested o).status
harvested-IsEnd (final_state outputs inputs true) =
    (λ e. absurd (ground arith), λ e. absurd (ground arith))
harvested-IsEnd (final_state outputs inputs false) =
    (λ e. absurd (ground arith), λ e. absurd (ground arith))
harvested-IsEnd (raised message) = (λ e. absurd (ground arith), λ e. absurd (ground arith))

pub found-some {ℓ} : {A : Type ℓ} (o : Option A) (a : A) → found o ≡ ok a → o ≡ some a
found-some none a h = absurd (ground arith)
found-some (some b) a h = ap some (ok-injective h)

module _ {V : Type 0} where
  abbrev pub is_of_run : ℕ → NodeExecution V → Bool
  is_of_run k r = r.execution_id == k

  abbrev pub recorded : List (NodeExecution V) → List (ℕ × V)
  recorded rows = map (λ r. (r.node_id, r.output_data)) rows

  -- The rows of a run, for its execution and for another one.
  rows_own :
      (k : ℕ) (row : ℕ × V → NodeExecution V) (outputs : Dict V)
      → ((x : ℕ × V) → (row x).execution_id ≡ k)
      → ((x : ℕ × V) → ((row x).node_id, (row x).output_data) ≡ x)
      → recorded (keep (is_of_run k) (map row outputs)) ≡ outputs
  rows_own k row [] own same = refl
  rows_own k row (x ∷ outputs) own same =
      let here : is_of_run k (row x) ≡ true = ground (arith, own x) in
      simp here (
        ap (λ y. y ∷ recorded (keep (is_of_run k) (map row outputs))) (same x)
        ∙ ap (λ l. x ∷ l) (rows_own k row outputs own same))

  rows_other :
      (j k : ℕ) (row : ℕ × V → NodeExecution V) (outputs : Dict V)
      → (j == k) ≡ false
      → ((x : ℕ × V) → (row x).execution_id ≡ k)
      → keep (is_of_run j) (map row outputs) ≡ []
  rows_other j k row [] differ own = refl
  rows_other j k row (x ∷ outputs) differ own =
      let here : is_of_run j (row x) ≡ false = ground (arith, own x) in
      simp here (rows_other j k row outputs differ own)

  rest_own :
      (k : ℕ) (rows : List (NodeExecution V))
      → keep (is_of_run k) (keep (λ r. not (r.execution_id == k)) rows) ≡ []
  rest_own k [] = refl
  rest_own k (r ∷ rows) = elim (Bool-cases (r.execution_id == k)) [
    | inl own ↦ simp own (rest_own k rows)
    | inr other ↦ simp (other, other) (rest_own k rows)
  ]

  rest_other :
      (j k : ℕ) (rows : List (NodeExecution V))
      → (j == k) ≡ false
      → keep (is_of_run j) (keep (λ r. not (r.execution_id == k)) rows) ≡ keep (is_of_run j) rows
  rest_other j k [] differ = refl
  rest_other j k (r ∷ rows) differ = elim (Bool-cases (r.execution_id == k)) [
    | inl own ↦
        let foreign : is_of_run j r ≡ false = ground arith in
        simp (own, foreign) (rest_other j k rows differ)
    | inr other ↦ elim (Bool-cases (is_of_run j r)) [
      | inl mine ↦ simp (other, mine, mine) (ap (λ l. r ∷ l) (rest_other j k rows differ))
      | inr foreign ↦ simp (other, foreign, foreign) (rest_other j k rows differ)
    ]
  ]

module _ {T V : Type 0} where
  -- A row of an execution, by its status: it has not run and has no output, or it is out of the
  -- engine and has one. `running` is a status within one call only.
  pub data IsSettled (e : WorkflowExecution T V) (rows : List (NodeExecution V)) : Type 0 where
    untouched : e.status ≡ pending → e.output ≡ none → rows ≡ [] → IsSettled e rows
    over :
        (outputs : Dict V)
        → e.status ≢ pending
        → e.status ≢ running
        → e.output ≡ some outputs
        → recorded rows ≡ outputs
        → IsSettled e rows

module _ {J T V : Type 0} where
  pub record IsRecorded (store : Store J T V) : Type 0 where
    pub settled :
        (k : ℕ) (e : WorkflowExecution T V)
        → lookup k store.executions ≡ some e
        → IsSettled e (keep (is_of_run k) store.node_executions)
    pub owned :
        (k : ℕ) → lookup k store.executions ≡ none → keep (is_of_run k) store.node_executions ≡ []

  replaced :
      (k : ℕ) (e : WorkflowExecution T V) (store store' : Store J T V)
      → store'.executions ≡ insert k e store.executions
      → ((j : ℕ)
          → (j == k) ≡ false
          → keep (is_of_run j) store'.node_executions ≡ keep (is_of_run j) store.node_executions)
      → IsSettled e (keep (is_of_run k) store'.node_executions)
      → IsRecorded store
      → IsRecorded store'
  replaced k e store store' written others own h = record {
    settled = λ j x at.
        let at' : (if j == k then some e else lookup j store.executions) ≡ some x =
          sym (lookup-insert k j e store.executions)
          ∙ subst (λ l. lookup j l ≡ some x) written at in
        elim (Bool-cases (j == k)) [
          | inr differ ↦
              subst (IsSettled x) (sym (others j differ)) (h.settled j x (rw differ at at'))
          | inl same ↦
              let here : j ≡ k = ground arith in
              let one : e ≡ x = some-injective e x (rw same at at') in
              subst (λ y. IsSettled y (keep (is_of_run j) store'.node_executions)) one
                (subst (λ i. IsSettled e (keep (is_of_run i) store'.node_executions)) (sym here)
                  own)
        ];
    owned = λ j at.
        let at' : (if j == k then some e else lookup j store.executions) ≡ none =
          sym (lookup-insert k j e store.executions) ∙ subst (λ l. lookup j l ≡ none) written at in
        elim (Bool-cases (j == k)) [
          | inr differ ↦ others j differ ∙ h.owned j (rw differ at at')
          | inl same ↦ absurd (ground arith)
        ];
  }

  pub first_run-IsRecorded :
      (dsl : GraphDef) (h : Harvest V) (k : ℕ) (clock : Clock) (e : WorkflowExecution T V)
      (store : Store J T V)
      → IsEnd h.status
      → lookup k store.executions ≡ some e
      → e.status ≡ pending
      → IsRecorded store
      → IsRecorded (first_run dsl h k clock e store)
  first_run-IsRecorded dsl h k clock e store ends at fresh rec =
      let row =
        node_row dsl.nodes (first_status h) k h (some clock.started) (some clock.finished) in
      let none_yet : keep (is_of_run k) store.node_executions ≡ [] = elim (rec.settled k e at) [
        | untouched s o r ↦ r
        | over outputs p q o r ↦ absurd (p fresh)
      ] in
      replaced k _ store _ refl
        (λ j differ.
          keep-append (is_of_run j) store.node_executions (map row h.outputs)
          ∙ ap (λ l. keep (is_of_run j) store.node_executions ++ l)
              (rows_other j k row h.outputs differ (λ x. refl))
          ∙ append-nil _)
        (over h.outputs ends.0 ends.1 refl (
          ap recorded (
            keep-append (is_of_run k) store.node_executions (map row h.outputs)
            ∙ ap (λ l. l ++ keep (is_of_run k) (map row h.outputs)) none_yet)
          ∙ rows_own k row h.outputs (λ x. refl) (λ x. refl)))
        rec

  pub resumed_run-IsRecorded :
      (dsl : GraphDef) (h : Harvest V) (k : ℕ) (clock : Clock) (e : WorkflowExecution T V)
      (store : Store J T V)
      → IsEnd h.status
      → IsRecorded store
      → IsRecorded (resumed_run dsl h k clock e store)
  resumed_run-IsRecorded dsl h k clock e store ends rec =
      let row = node_row dsl.nodes (λ nid. succeeded) k h e.started_at (some clock.finished) in
      let rest = keep (λ r. not (r.execution_id == k)) store.node_executions in
      replaced k _ store _ refl
        (λ j differ.
          keep-append (is_of_run j) rest (map row h.outputs)
          ∙ ap (λ l. keep (is_of_run j) rest ++ l) (rows_other j k row h.outputs differ (λ x. refl))
          ∙ append-nil _
          ∙ rest_other j k store.node_executions differ)
        (over h.outputs ends.0 ends.1 refl (
          ap recorded (
            keep-append (is_of_run k) rest (map row h.outputs)
            ∙ ap (λ l. l ++ keep (is_of_run k) (map row h.outputs))
                (rest_own k store.node_executions))
          ∙ rows_own k row h.outputs (λ x. refl) (λ x. refl)))
        rec

  pub created-IsRecorded :
      (fresh_id wf_id : ℕ) (user_id : Option ℕ) (trigger_input : Option T) (from_draft : Bool)
      (store store' : Store J T V)
      → lookup fresh_id store.executions ≡ none
      → create_execution fresh_id wf_id user_id trigger_input from_draft store ≡ ok store'
      → IsRecorded store
      → IsRecorded store'
  unfolding create_execution
  created-IsRecorded fresh_id wf_id user_id trigger_input from_draft store store' fresh e rec =
      let (wf, at, kept) =
        bind_ok (workflow_or wf_id (lookup wf_id store.service.workflows)) _ store' e in
      elim (Bool-cases (not from_draft && not (is_published wf))) [
        | inl refused ↦ absurd (err-ne-ok (simp refused at kept))
        | inr taken ↦
            let x : WorkflowExecution T V =
              new_execution wf_id user_id trigger_input from_draft wf in
            let made : Store J T V = record store {
              executions = insert fresh_id x store.executions;
            } in
            let h : ok made ≡ ok store' = simp taken at kept in
            let same : made ≡ store' = ok-injective h in
            subst IsRecorded same (
              replaced fresh_id x store made refl (λ j differ. refl)
                (untouched refl refl (rec.owned fresh_id fresh)) rec)
      ]

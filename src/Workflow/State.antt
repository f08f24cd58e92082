-- ===== src/Workflow/State.antt =====
-- The state of a workflow run and its reducer: app/workflow/langgraph/state.py. `V` is what a node
-- leaves in its bucket, `T` the trigger payload and `W` the workflow variables; both of these are
-- dictionaries in the code, and a missing one is replaced by the empty one, `no_input`.
pub mod Merge
use ops_knowledge.Prelude.{ℕ, Option, none, some, List, [], ◌∷◌}
use ops_knowledge.Prelude.Dict.{Dict, insert}

module _ {V : Type 0} where
  abbrev pub or_empty : Option (Dict V) → Dict V
  or_empty none = []
  or_empty (some d) = d

  -- `for k, v in right.items(): out[k] = v`
  unfoldable pub write_all : Dict V → Dict V → Dict V
  write_all out [] = out
  write_all out ((k, v) ∷ right) = write_all (insert k v out) right

  unfoldable pub merge_by_node : Option (Dict V) → Option (Dict V) → Dict V
  merge_by_node left right = write_all (or_empty left) (or_empty right)

pub record WorkflowState (V T W : Type 0) : Type 0 where
  pub inputs : Dict V
  pub outputs : Dict V
  pub branches : Dict (Option ℕ)
  pub trigger_input : T
  pub workflow_variables : W

abbrev pub or_else {ℓ} : {A : Type ℓ} → A → Option A → A
or_else d none = d
or_else d (some a) = a

-- The two empty dictionaries, and what the caller gives.
unfoldable pub initial_state : {V T W : Type 0} → T → W → Option T → Option W → WorkflowState V T W
initial_state no_input no_variables trigger_input workflow_variables = record {
  inputs = [];
  outputs = [];
  branches = [];
  trigger_input = or_else no_input trigger_input;
  workflow_variables = or_else no_variables workflow_variables;
}

-- ===== src/Examples/States.antt =====
-- Tests and instances for app/workflow/langgraph/state.py.
use ops_knowledge.Prelude.{ℕ, ◌≡◌, refl, none, some, [], ◌∷◌}
use ops_knowledge.Prelude.Dict.{Dict}
use ops_knowledge.Workflow.State.{initial_state, merge_by_node, write_all}

abbrev outputs : Dict ℕ
outputs = (1, 10) ∷ (2, 20) ∷ []

own_bucket_written :
    merge_by_node (some outputs) (some ((2, 21) ∷ (3, 30) ∷ [])) ≡ (1, 10) ∷ (2, 21) ∷ (3, 30) ∷ []
unfolding merge_by_node write_all
own_bucket_written = refl

starts_empty : (initial_state {V = ℕ} {T = ℕ} {W = ℕ} 0 0 (some 5) none).trigger_input ≡ 5
unfolding initial_state
starts_empty = refl

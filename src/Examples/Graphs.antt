-- ===== src/Examples/Graphs.antt =====
-- Tests and instances for app/workflow/dsl.py and app/workflow/langgraph/compiler.py.
use ops_knowledge.Prelude.{
  ℕ, ◌≡◌, refl, ◌↔◌, ◌⊎◌, inl, inr, ◌++◌, false, true, Option, none, some, List, [], ◌∷◌, arith,
  String, mem, In, all, any,
}
use ops_knowledge.Prelude.Results.{ok, err}
use ops_knowledge.Workflow.Dsl.{
  EdgeDef, NodeDef, node, no_blocks, GraphDef, ids, has_cycle, assert_acyclic, validate_structure,
  in_degrees, successors, fill, visit, release,
}
use ops_knowledge.Workflow.Dsl.Acyclic.{IsClosed, IsAcyclic, assert_acyclic_exact}
use ops_knowledge.Workflow.Dsl.Valid.{IsValid, validate_structure_exact}
use ops_knowledge.Workflow.Compiler.{to, end, is_plain, has_handle, reachable_from, explore}
use ops_knowledge.Workflow.Compiler.Reach.{Reachable, reachable_from_exact}
use ops_knowledge.Workflow.Compiler.Route.{chosen, is_matched, route_exact, last_edge_wins}

abbrev edge : ℕ → ℕ → Option String → EdgeDef
edge s t h = record { source = s; target = t; source_handle = h }

abbrev plain_node : ℕ → String → NodeDef
plain_node k type = node k type "1.0" no_blocks

abbrev diamond : GraphDef
diamond = record {
  nodes = plain_node 1 "start" ∷ plain_node 2 "llm" ∷ plain_node 3 "code" ∷ plain_node 4 "end" ∷ [];
  edges = edge 1 2 none ∷ edge 1 3 none ∷ edge 2 4 none ∷ edge 3 4 none ∷ [];
}

diamond_passes : validate_structure diamond ≡ ok tt
unfolding validate_structure assert_acyclic in_degrees successors fill visit release
diamond_passes = refl

loop_reported :
    assert_acyclic (record diamond { edges = edge 4 2 none ∷ diamond.edges }) ≡ err has_cycle
unfolding assert_acyclic in_degrees successors fill visit release
loop_reported = refl

joins_nodes :
    (es : List EdgeDef) (e : EdgeDef)
    → In e es
    → all (λ f. mem f.source (ids diamond.nodes)) es ≡ true
    → all (λ f. mem f.target (ids diamond.nodes)) es ≡ true
    → (mem e.source (ids diamond.nodes) ≡ true) × (mem e.target (ids diamond.nodes) ≡ true)
joins_nodes [] e i p q = absurd i
joins_nodes (f ∷ fs) e (inl h) p q = rw h (ground arith, ground arith)
joins_nodes (f ∷ fs) e (inr i) p q = joins_nodes fs e i (ground arith) (ground arith)

diamond-IsClosed : IsClosed diamond
diamond-IsClosed e i = joins_nodes diamond.edges e i refl refl

assert_acyclic_exact_example :
    ((assert_acyclic diamond ≡ ok tt) × IsAcyclic diamond)
    ⊎ ((assert_acyclic diamond ≡ err has_cycle) × ¬ (IsAcyclic diamond))
assert_acyclic_exact_example =
    assert_acyclic_exact diamond (refl, (refl, (refl, (refl, tt)))) diamond-IsClosed

validate_structure_exact_example : (validate_structure diamond ≡ ok tt) ↔ IsValid diamond
validate_structure_exact_example = validate_structure_exact diamond

reached : reachable_from (1 ∷ []) diamond.edges ≡ some (1 ∷ 3 ∷ 4 ∷ 2 ∷ [])
unfolding reachable_from explore
reached = refl

reachable_from_exact_example :
    (found : List ℕ) × (reachable_from (1 ∷ []) diamond.edges ≡ some found)
    × ((k : ℕ) → (mem k found ≡ true) ↔ Reachable (1 ∷ []) diamond.edges k)
reachable_from_exact_example = reachable_from_exact (1 ∷ []) diamond.edges

abbrev choices : List EdgeDef
choices = edge 1 2 (some "true") ∷ edge 1 3 none ∷ []

route_exact_example :
    ((b : String) × (e : EdgeDef) × (some "true" ≡ some b)
      × In e choices
      × (has_handle b e ≡ true)
      × (chosen choices (some "true") ≡ some (to e.target)))
    ⊎ ((is_matched choices (some "true") ≡ false)
        × (((e : EdgeDef) × In e choices
              × (is_plain e ≡ true)
              × (chosen choices (some "true") ≡ some (to e.target)))
            ⊎ ((any is_plain choices ≡ false) × (chosen choices (some "true") ≡ some end))))
route_exact_example = route_exact choices (some "true") refl

-- The edge to 2 is not followed.
last_edge_wins_example : chosen (choices ++ edge 1 4 (some "true") ∷ []) (some "true") ≡ some (to 4)
last_edge_wins_example = last_edge_wins choices (edge 1 4 (some "true")) "true" refl refl

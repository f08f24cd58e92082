-- ===== src/Workflow/Compiler.antt =====
-- From the workflow DSL to an executable graph: app/workflow/langgraph/compiler.py, with the lookup
-- of app/workflow/nodes/registry.py. The graph is the calls that the compiler makes on LangGraph's
-- `StateGraph`; LangGraph itself is not modelled.
pub mod Paths
pub mod Reach
pub mod Route
use text.Mathlib.Text.{◌==◌ as str_eq}
use mathlib.Core.List.{reverse}
use ops_knowledge.Prelude.{
  ℕ, zero, suc, ◌+◌, Bool, true, false, not, ◌&&◌, ◌||◌, ◌==◌, if◌then◌else◌, Option, none, some,
  List, [], ◌∷◌, ◌++◌, String, mem, any, all, keep, length,
}
use ops_knowledge.Prelude.Keyed.{Keyed, lookup, insert, set_default}
use ops_knowledge.Prelude.Dict.{Dict}
use ops_knowledge.Prelude.Results.{Result, ok, err, ◌>>=◌}
use ops_knowledge.Workflow.Dsl.{EdgeDef, NodeDef, node, GraphDef, id_of, fill, in_degrees, zeros}

-- A registered class: its type, its version, and the category of its manifest.
pub record NodeClass : Type 0 where
  pub type : String
  pub type_version : String
  pub category : String

unfoldable pub find_class : String → String → List NodeClass → Option NodeClass
find_class t v [] = none
find_class t v (c ∷ cs) =
    if str_eq c.type t && str_eq c.type_version v then some c else find_class t v cs

pub data CompileError : Type 0 where
  no_trigger : CompileError
  entry_count : ℕ → CompileError
  -- A KeyError of `nodes_by_id` or of the registry, and the loop of the model out of fuel.
  unknown_node : ℕ → CompileError
  unknown_type : String → CompileError
  out_of_fuel : CompileError

-- A node whose class is unknown is a trigger if it is a start node.
unfoldable pub is_trigger : List NodeClass → NodeDef → Bool
is_trigger registry (node id type version _) = elim (find_class type version registry) [
  | none ↦ str_eq type "start"
  | some c ↦ str_eq c.category "trigger"
]

abbrev pub node_ids : (NodeDef → Bool) → List NodeDef → List ℕ
node_ids test [] = []
node_ids test (n ∷ ns) = let rest = node_ids test ns in if test n then id_of n ∷ rest else rest

unfoldable pub entry_nodes : List NodeClass → List NodeDef → List EdgeDef → Bool → List ℕ
entry_nodes registry nodes edges allow_non_trigger_entry =
    if not allow_non_trigger_entry
    then node_ids (is_trigger registry) nodes
    else zeros (in_degrees (fill 0 [] nodes) edges)

-- adj.get(nid, [])
abbrev pub targets_of : ℕ → List EdgeDef → List ℕ
targets_of nid [] = []
targets_of nid (e ∷ es) =
    let rest = targets_of nid es in if nid == e.source then e.target ∷ rest else rest

-- The `while` loop, with the top of the stack at the head. `seen` grows at its end.
unfoldable pub explore : ℕ → List EdgeDef → List ℕ → List ℕ → Option (List ℕ)
explore fuel edges seen [] = some seen
explore zero edges seen (nid ∷ stack) = none
explore (suc fuel) edges seen (nid ∷ stack) =
    let old = explore fuel edges seen stack in
    let new = explore fuel edges (seen ++ nid ∷ []) (reverse (targets_of nid edges) ++ stack) in
    if mem nid seen then old else new

-- Every turn takes an entry from the stack, and each start and each edge is put there once.
unfoldable pub reachable_from : List ℕ → List EdgeDef → Option (List ℕ)
reachable_from starts edges = explore (length starts + length edges) edges [] (reverse starts)

-- Where an edge of the compiled graph leads.
pub data Target : Type 0 where
  to : ℕ → Target
  end : Target

-- e.sourceHandle or "_default"
abbrev pub handle_key : Option String → String
handle_key none = "_default"
handle_key (some h) = if str_eq h "" then "_default" else h

unfoldable pub map_handles : Keyed Target → List EdgeDef → Keyed Target
map_handles m [] = m
map_handles m (e ∷ es) = map_handles (insert (handle_key e.source_handle) (to e.target) m) es

unfoldable pub path_map : List EdgeDef → Keyed Target
path_map edges = set_default "_end" end (map_handles [] edges)

abbrev pub is_plain : EdgeDef → Bool
is_plain e = elim e.source_handle [ none ↦ true | some h ↦ false ]

abbrev pub has_handle : String → EdgeDef → Bool
has_handle h e = elim e.source_handle [ none ↦ false | some g ↦ str_eq h g ]

-- The route function of a node, at the branch that the node left in the state.
unfoldable pub route : List EdgeDef → Option String → String
route edges branch =
    let fallback = if any is_plain edges then "_default" else "_end" in
    elim branch [ none ↦ fallback | some b ↦ if any (has_handle b) edges then b else fallback ]

-- The calls made on the StateGraph.
pub record Compiled : Type 0 where
  pub nodes : List ℕ
  pub plain : List (ℕ × Target)
  pub conditional : List (ℕ × Keyed Target)
  pub entry : ℕ

unfoldable pub find_node : ℕ → List NodeDef → Option NodeDef
find_node k [] = none
find_node k (n ∷ ns) =
    let rest = find_node k ns in
    elim rest [ some m ↦ some m | none ↦ if k == id_of n then some n else none ]

-- `build_node_adapter(nodes_by_id[k])`
abbrev adapter : List NodeClass → List NodeDef → ℕ → Result CompileError ℕ
adapter registry nodes k = elim (find_node k nodes) [
  | none ↦ err (unknown_node k)
  | some (node id type version _) ↦ elim (find_class type version registry) [
    | none ↦ err (unknown_type type)
    | some c ↦ ok k
  ]
]

-- `graph.add_node` for the reachable ids.
unfoldable pub add_nodes : List NodeClass → List NodeDef → List ℕ → Result CompileError (List ℕ)
unfolding find_node
add_nodes registry nodes [] = ok []
add_nodes registry nodes (k ∷ ks) =
    let rest = add_nodes registry nodes ks in
    do added ← adapter registry nodes k; others ← rest; ok (added ∷ others)

abbrev out_edges : List ℕ → List EdgeDef → ℕ → List EdgeDef
out_edges reachable edges k =
    keep (λ e. (e.source == k) && (mem e.source reachable && mem e.target reachable)) edges

unfoldable pub plain_edges : ℕ → List EdgeDef → List (ℕ × Target)
plain_edges k [] = []
plain_edges k (e ∷ es) = (k, to e.target) ∷ plain_edges k es

-- The edges of one reachable node: to END if it has none, all of them if all are plain, and
-- otherwise a path map.
abbrev connect : Compiled → ℕ → List EdgeDef → Compiled
connect c k [] = record c { plain = c.plain ++ (k, end) ∷ [] }
connect c k (e ∷ es) =
    if all is_plain (e ∷ es)
    then record c { plain = c.plain ++ plain_edges k (e ∷ es) }
    else record c { conditional = c.conditional ++ (k, path_map (e ∷ es)) ∷ [] }

unfoldable pub connect_all : List ℕ → List EdgeDef → Compiled → List ℕ → Compiled
connect_all reachable edges c [] = c
connect_all reachable edges c (k ∷ ks) =
    connect_all reachable edges (connect c k (out_edges reachable edges k)) ks

unfoldable pub one_entry : List ℕ → Result CompileError ℕ
one_entry (k ∷ []) = ok k
one_entry ks = err (entry_count (length ks))

abbrev nonempty : List ℕ → Result CompileError (List ℕ)
nonempty [] = err no_trigger
nonempty (k ∷ ks) = ok (k ∷ ks)

abbrev or_out_of_fuel : Option (List ℕ) → Result CompileError (List ℕ)
or_out_of_fuel none = err out_of_fuel
or_out_of_fuel (some ks) = ok ks

unfoldable pub compile_dsl : List NodeClass → GraphDef → Bool → Result CompileError Compiled
unfolding add_nodes connect_all plain_edges one_entry
compile_dsl registry g allow_non_trigger_entry = do
  let entry_ids = entry_nodes registry g.nodes g.edges allow_non_trigger_entry
  found ← or_out_of_fuel (reachable_from entry_ids g.edges)
  reachable ← nonempty found
  added ← add_nodes registry g.nodes reachable
  entry ← one_entry entry_ids
  ok (
      connect_all reachable g.edges
        (record { nodes = added; plain = []; conditional = []; entry = entry }) reachable)

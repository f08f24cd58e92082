-- ===== src/Workflow/Dsl.antt =====
-- The workflow DSL and its structural validator: app/workflow/dsl.py. Ids of nodes are numbers of
-- which only equality is used. Of a node's data block, position and error handling the validator
-- reads nothing.
pub mod Acyclic
pub mod Valid
use Prim.Native.Nat.{pred}
use text.Mathlib.Text.{◌==◌ as str_eq}
use ops_knowledge.Prelude.{
  ℕ, zero, suc, ◌+◌, Bool, true, false, not, ◌&&◌, ◌||◌, ◌==◌, if◌then◌else◌, Option, none, some,
  List, [], ◌∷◌, ◌++◌, String, mem, keep, length, dedup, any, all,
}
use ops_knowledge.Prelude.Dict.{Dict, lookup, insert, keys, has_key}
use ops_knowledge.Prelude.Results.{Result, ok, err, ◌>>=◌, ◌>>◌}

pub record EdgeDef : Type 0 where
  pub source : ℕ
  pub target : ℕ
  pub source_handle : Option String

-- `blocks` of a compound node is a list of nodes, hence the block; an absent `block_edges` is [].
mutual
  pub data NodeDef : Type 0 where
    node : (id : ℕ) → (type type_version : String) → Blocks → NodeDef

  pub data Blocks : Type 0 where
    no_blocks : Blocks
    blocks : NodeDefs → List EdgeDef → Blocks

  pub data NodeDefs : Type 0 where
    nil : NodeDefs
    cons : NodeDef → NodeDefs → NodeDefs

abbrev pub to_list : NodeDefs → List NodeDef
to_list nil = []
to_list (cons n ns) = n ∷ to_list ns

abbrev pub id_of : NodeDef → ℕ
id_of (node id type version _) = id

abbrev pub type_of : NodeDef → String
type_of (node id type version _) = type

abbrev pub ids : List NodeDef → List ℕ
ids [] = []
ids (n ∷ ns) = id_of n ∷ ids ns

pub record GraphDef : Type 0 where
  pub nodes : List NodeDef
  pub edges : List EdgeDef

pub data DslError : Type 0 where
  duplicate_node_ids no_start multiple_starts has_cycle : DslError
  source_not_found target_not_found unknown_sub_node : ℕ → DslError
  -- A Python KeyError, and the loop of the model out of fuel.
  key_error out_of_fuel : DslError

-- {n.id: v for n in nodes}, added to `d`
unfoldable pub fill {ℓ} : {V : Type ℓ} → V → Dict V → List NodeDef → Dict V
fill v d [] = d
fill v d (n ∷ ns) = fill v (insert (id_of n) v d) ns

abbrev pub count_target : Dict ℕ → EdgeDef → Dict ℕ
count_target d e = elim (lookup e.target d) [ none ↦ d | some n ↦ insert e.target (n + 1) d ]

unfoldable pub in_degrees : Dict ℕ → List EdgeDef → Dict ℕ
in_degrees d [] = d
in_degrees d (e ∷ es) = in_degrees (count_target d e) es

abbrev pub add_successor : Dict (List ℕ) → EdgeDef → Dict (List ℕ)
add_successor d e = elim (lookup e.source d) [
  | none ↦ d
  | some ts ↦ insert e.source (ts ++ e.target ∷ []) d
]

unfoldable pub successors : Dict (List ℕ) → List EdgeDef → Dict (List ℕ)
successors d [] = d
successors d (e ∷ es) = successors (add_successor d e) es

-- The ids whose value is 0, in the order of the dictionary.
abbrev pub zeros : Dict ℕ → List ℕ
zeros [] = []
zeros ((k, n) ∷ d) = let rest = zeros d in if n == 0 then k ∷ rest else rest

-- `for t in adj[nid]`: the new degrees and the new queue.
unfoldable pub release : List ℕ → Dict ℕ → List ℕ → Result DslError (Dict ℕ × List ℕ)
release [] d queue = ok (d, queue)
release (t ∷ ts) d queue = elim (lookup t d) [
  | none ↦ err key_error
  | some n ↦ release ts (insert t (pred n) d) (if pred n == 0 then queue ++ t ∷ [] else queue)
]

-- `while queue`: how many nodes were visited.
unfoldable pub visit : ℕ → Dict (List ℕ) → Dict ℕ → List ℕ → ℕ → Result DslError ℕ
visit fuel adj d [] visited = ok visited
visit zero adj d (nid ∷ queue) visited = err out_of_fuel
visit (suc fuel) adj d (nid ∷ queue) visited = elim (lookup nid adj) [
  | none ↦ err key_error
  | some ts ↦ elim (release ts d queue) [
    | err e ↦ err e
    | ok (d', queue') ↦ visit fuel adj d' queue' (visited + 1)
  ]
]

unfoldable pub assert_acyclic : GraphDef → Result DslError (Unit {0})
assert_acyclic g =
    let d = in_degrees (fill 0 [] g.nodes) g.edges in
    let adj = successors (fill [] [] g.nodes) g.edges in
    do
      visited ← visit (length g.nodes + 1) adj d (zeros d) 0
      if visited == length g.nodes then ok tt else err has_cycle

abbrev pub check_edges : List ℕ → List EdgeDef → Result DslError (Unit {0})
check_edges id_set [] = ok tt
check_edges id_set (e ∷ es) =
    let rest = check_edges id_set es in
    if not (mem e.source id_set)
    then err (source_not_found e.source)
    else if not (mem e.target id_set)
    then err (target_not_found e.target)
    else rest

abbrev pub is_start : NodeDef → Bool
is_start n = str_eq (type_of n) "start"

abbrev pub check_starts : ℕ → Result DslError (Unit {0})
check_starts zero = err no_start
check_starts (suc zero) = ok tt
check_starts (suc (suc n)) = err multiple_starts

abbrev pub is_inside : List ℕ → EdgeDef → Bool
is_inside sub_ids e = mem e.source sub_ids && mem e.target sub_ids

-- The body of the last loop, for one node. It looks one level deep.
abbrev pub check_blocks : NodeDef → Result DslError (Unit {0})
check_blocks (node id type version no_blocks) = ok tt
check_blocks (node id type version (blocks ns es)) =
    if all (is_inside (ids (to_list ns))) es
    then assert_acyclic (record { nodes = to_list ns; edges = es })
    else err (unknown_sub_node id)

abbrev pub check_all_blocks : List NodeDef → Result DslError (Unit {0})
check_all_blocks [] = ok tt
check_all_blocks (n ∷ ns) = check_blocks n >> check_all_blocks ns

unfoldable pub validate_structure : GraphDef → Result DslError (Unit {0})
validate_structure g =
    let node_ids = ids g.nodes in
    if not (length node_ids == length (dedup node_ids)) then err duplicate_node_ids else do
      check_edges node_ids g.edges
      check_starts (length (keep is_start g.nodes))
      assert_acyclic g
      check_all_blocks g.nodes

-- `parse_dsl` on a draft whose shape was validated: an empty one passes.
unfoldable pub parse_dsl : Option GraphDef → Result DslError GraphDef
parse_dsl none = ok (record { nodes = []; edges = [] })
parse_dsl (some g) = elim g.nodes [ [] ↦ ok g | n ∷ ns ↦ validate_structure g >> ok g ]

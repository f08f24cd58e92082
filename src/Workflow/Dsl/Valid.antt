-- ===== src/Workflow/Dsl/Valid.antt =====
-- What the structural validator of app/workflow/dsl.py accepts, and how deep it looks.
use mathlib.Core.Bool.{false≢true}
use ops_knowledge.Prelude.{
  ℕ, zero, suc, ◌≡◌, ◌↔◌, refl, sym, ◌∙◌, true, ◌==◌, List, [], ◌∷◌, arith, String, mem, In, inl,
  inr, All, all, IsUnique, Bool-cases, length, dedup, keep, dedup-IsUnique, unique_dedup,
}
use ops_knowledge.Prelude.Results.{Result, ok, err, ◌>>◌}
use ops_knowledge.Workflow.Dsl.{
  EdgeDef, NodeDef, node, NodeDefs, blocks, to_list, GraphDef, DslError, ids, check_edges,
  check_starts, check_blocks, check_all_blocks, is_start, is_inside, assert_acyclic,
  validate_structure,
}
use ops_knowledge.Workflow.Dsl.Acyclic.{IsClosed, IsAcyclic, assert_acyclic_exact}

check_edges-closed :
    (set : List ℕ) (es : List EdgeDef)
    → check_edges set es ≡ ok tt
    → (e : EdgeDef) → In e es
    → (mem e.source set ≡ true) × (mem e.target set ≡ true)
check_edges-closed set [] h e i = absurd i
check_edges-closed set (f ∷ fs) h e (inr i) = check_edges-closed set fs (ground arith) e i
check_edges-closed set (f ∷ fs) h e (inl q) = rw q (elim (Bool-cases (mem f.source set)) [
  | inr n ↦ absurd (ground arith)
  | inl y ↦ elim (Bool-cases (mem f.target set)) [ inr n ↦ absurd (ground arith) | inl z ↦ (y, z) ]
])

closed-check_edges :
    (set : List ℕ) (es : List EdgeDef)
    → ((e : EdgeDef) → In e es → (mem e.source set ≡ true) × (mem e.target set ≡ true))
    → check_edges set es ≡ ok tt
closed-check_edges set [] h = refl
closed-check_edges set (f ∷ fs) h =
    let (s, t) = h f (inl refl) in rw (s, t) (closed-check_edges set fs (λ e i. h e (inr i)))

-- A sequence of checks passes exactly if both parts do.
sequence_ok : (m k : Result DslError (Unit {0})) → ((m >> k) ≡ ok tt) ↔ ((m ≡ ok tt) × (k ≡ ok tt))
sequence_ok (ok u) k = (λ h. (refl, h), λ (p, q). q)
sequence_ok (err e) k = (λ h. absurd (ground arith), λ (p, q). absurd (ground arith))

check_all_blocks_iff :
    (ns : List NodeDef) → (check_all_blocks ns ≡ ok tt) ↔ All (λ n. check_blocks n ≡ ok tt) ns
check_all_blocks_iff [] = (λ h. tt, λ h. refl)
check_all_blocks_iff (n ∷ ns) =
    let parts = sequence_ok (check_blocks n) (check_all_blocks ns) in
    (
      λ h. let (p, q) = parts.0 h in (p, (check_all_blocks_iff ns).0 q),
      λ (p, q). parts.1 (p, (check_all_blocks_iff ns).1 q),
    )

check_starts_iff : (n : ℕ) → (check_starts n ≡ ok tt) ↔ (n ≡ 1)
check_starts_iff zero = (λ h. absurd (ground arith), λ h. absurd (omega arith))
check_starts_iff (suc zero) = (λ h. refl, λ h. refl)
check_starts_iff (suc (suc n)) = (λ h. absurd (ground arith), λ h. absurd (omega arith))

-- What a publishable graph is: unique ids, edges between its nodes, one start node, a topological
-- order, and compound nodes that pass their own check.
pub record IsValid (g : GraphDef) : Type 0 where
  pub unique : IsUnique (ids g.nodes)
  pub closed : IsClosed g
  pub one_start : length (keep is_start g.nodes) ≡ 1
  pub acyclic : IsAcyclic g
  pub blocks_pass : All (λ n. check_blocks n ≡ ok tt) g.nodes

acyclic_ok :
    (g : GraphDef) → IsUnique (ids g.nodes) → IsClosed g → IsAcyclic g → assert_acyclic g ≡ ok tt
acyclic_ok g unique closed acyclic = elim (assert_acyclic_exact g unique closed) [
  | inl (e, a) ↦ e
  | inr (e, n) ↦ absurd (n acyclic)
]

ok_acyclic :
    (g : GraphDef) → IsUnique (ids g.nodes) → IsClosed g → assert_acyclic g ≡ ok tt → IsAcyclic g
ok_acyclic g unique closed h = elim (assert_acyclic_exact g unique closed) [
  | inl (e, a) ↦ a
  | inr (e, n) ↦ absurd (ground arith)
]

-- The validator accepts a graph exactly if its ids are unique, its edges join its nodes, it has one
-- start node, its edges have a topological order, and each compound node passes its check.
pub validate_structure_exact : (g : GraphDef) → (validate_structure g ≡ ok tt) ↔ IsValid g
unfolding validate_structure
validate_structure_exact g =
    elim (Bool-cases (length (ids g.nodes) == length (dedup (ids g.nodes)))) [
      | inr n ↦ rw n (
        λ h. absurd (ground arith),
        λ v. absurd (ground (arith, unique_dedup (ids g.nodes) v.unique)),
      )
      | inl y ↦
          let unique = dedup-IsUnique (ids g.nodes) (ground arith) in
          let first = sequence_ok (check_edges (ids g.nodes) g.edges) _ in
          let second = sequence_ok (check_starts (length (keep is_start g.nodes))) _ in
          let third = sequence_ok (assert_acyclic g) (check_all_blocks g.nodes) in
          rw y (
            λ h.
                let (edges, h') = first.0 h in
                let (starts, h'') = second.0 h' in
                let (acyclic, deep) = third.0 h'' in
                let closed = check_edges-closed (ids g.nodes) g.edges edges in
                record {
                  unique = unique;
                  closed = closed;
                  one_start = (check_starts_iff _).0 starts;
                  acyclic = ok_acyclic g unique closed acyclic;
                  blocks_pass = (check_all_blocks_iff g.nodes).0 deep;
                },
            λ v. first.1 (
              closed-check_edges (ids g.nodes) g.edges v.closed,
              second.1 (
                (check_starts_iff _).1 v.one_start,
                third.1 (
                  acyclic_ok g v.unique v.closed v.acyclic,
                  (check_all_blocks_iff g.nodes).1 v.blocks_pass,
                ),
              ),
            ),
          )
    ]

all-inside :
    (set : List ℕ) (es : List EdgeDef)
    → all (is_inside set) es ≡ true
    → (e : EdgeDef) → In e es
    → (mem e.source set ≡ true) × (mem e.target set ≡ true)
all-inside set [] h e i = absurd i
all-inside set (f ∷ fs) h e (inr i) = all-inside set fs (ground arith) e i
all-inside set (f ∷ fs) h e (inl q) = rw q (ground arith, ground arith)

inside-all :
    (set : List ℕ) (es : List EdgeDef)
    → ((e : EdgeDef) → In e es → (mem e.source set ≡ true) × (mem e.target set ≡ true))
    → all (is_inside set) es ≡ true
inside-all set [] h = refl
inside-all set (f ∷ fs) h =
    let (s, t) = h f (inl refl) in rw (s, t) (inside-all set fs (λ e i. h e (inr i)))

-- A compound node whose inner ids are unique passes exactly if its inner edges join its inner nodes
-- and have a topological order.
pub check_blocks_exact :
    (k : ℕ) (type version : String) (ns : NodeDefs) (es : List EdgeDef)
    → IsUnique (ids (to_list ns))
    → (check_blocks (node k type version (blocks ns es)) ≡ ok tt) ↔ (
        IsClosed (record { nodes = to_list ns; edges = es })
        × IsAcyclic (record { nodes = to_list ns; edges = es }))
check_blocks_exact k type version ns es unique =
    elim (Bool-cases (all (is_inside (ids (to_list ns))) es)) [
      | inr n ↦ rw n (
        λ h. absurd (ground arith),
        λ (closed, acyclic). absurd (false≢true (sym n ∙ inside-all (ids (to_list ns)) es closed)),
      )
      | inl y ↦
          let closed = all-inside (ids (to_list ns)) es y in
          rw y (
            λ h. (closed, ok_acyclic _ unique closed h),
            λ (_, acyclic). acyclic_ok _ unique closed acyclic,
          )
    ]

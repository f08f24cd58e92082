-- ===== src/Workflow/Dsl/Acyclic.antt =====
-- The acyclicity test of app/workflow/dsl.py, and the topological orders of a graph.
mod Places
mod Degrees
mod Loop
use mathlib.Core.Bool.{false≢true}
use ops_knowledge.Prelude.{
  ℕ, zero, suc, ◌+◌, ◌≤◌, ◌<◌, ◌≡◌, refl, sym, subst, ◌∙◌, ap, Bool, true, false, ◌||◌, ◌==◌,
  if◌then◌else◌, Option, some, none, List, [], ◌∷◌, arith, mem, In, inl, inr, ◌⊎◌, IsUnique,
  Bool-cases, length,
}
use ops_knowledge.Prelude.Dict.{Dict, lookup}
use ops_knowledge.Prelude.Results.{Result, ok, err, ◌>>=◌}
use ops_knowledge.Workflow.Dsl.{
  EdgeDef, NodeDef, GraphDef, DslError, has_cycle, ids, fill, in_degrees, successors, zeros, visit,
  assert_acyclic,
}
use ops_knowledge.Workflow.Dsl.Acyclic.Degrees.{
  appended, count_in, occurs, targets, lookup-in_degrees, lookup-successors, lookup-fill,
  degrees-IsUnique, zeros-IsUnique, mem-zeros, zeros-lookup, count_in-pos,
}
use ops_knowledge.Workflow.Dsl.Acyclic.Loop.{Inv, visit_all}
use ops_knowledge.Workflow.Dsl.Acyclic.Places.{place, unseen, unseen-nil, unseen-zero, zero-unseen}

-- Every edge joins two nodes of the graph.
abbrev pub IsClosed : GraphDef → Type 0
IsClosed g =
    (e : EdgeDef)
    → In e g.edges
    → (mem e.source (ids g.nodes) ≡ true) × (mem e.target (ids g.nodes) ≡ true)

-- Some numbering of the nodes grows along every edge.
abbrev pub IsAcyclic : GraphDef → Type 0
IsAcyclic g = (rank : ℕ → ℕ) × ((e : EdgeDef) → In e g.edges → rank e.source < rank e.target)

module _ (g : GraphDef) (unique : IsUnique (ids g.nodes)) (closed : IsClosed g) where
  abbrev nodes : List ℕ
  nodes = ids g.nodes

  abbrev start_degrees : Dict ℕ
  start_degrees = in_degrees (fill 0 [] g.nodes) g.edges

  degree_of :
      (t : ℕ)
      → lookup t start_degrees ≡ (if mem t nodes then some (count_in [] t g.edges) else none)
  degree_of t =
      lookup-in_degrees t (fill 0 [] g.nodes) g.edges
      ∙ ground (arith, lookup-fill {V = ℕ} t 0 [] g.nodes)

  degree_in : (t : ℕ) → mem t nodes ≡ true → lookup t start_degrees ≡ some (count_in [] t g.edges)
  degree_in t m = degree_of t ∙ ground arith

  start_Inv : Inv nodes g.edges [] (zeros start_degrees) [] start_degrees
  start_Inv = record {
    degrees = λ t m. degree_in t m ∙ ap some (omega arith);
    ready = λ t m. ground (
      arith,
      mem-zeros t (count_in [] t g.edges) start_degrees (degrees-IsUnique g.nodes g.edges)
          (degree_in t m),
    );
    inside = λ t m. elim (Bool-cases (mem t nodes)) [
      | inl y ↦ y
      | inr n ↦
          absurd (false≢true (sym (zeros-lookup t start_degrees (degree_of t ∙ ground arith)) ∙ m))
    ];
    apart = λ t m. refl;
    once = zeros-IsUnique start_degrees (degrees-IsUnique g.nodes g.edges);
    size = omega (arith, unseen-nil nodes);
    ordered = λ e i m. absurd (false≢true m);
  }

  abbrev links_of : Dict (List ℕ)
  links_of = successors (fill [] [] g.nodes) g.edges

  link_in : (k : ℕ) → mem k nodes ≡ true → lookup k links_of ≡ some (targets k g.edges)
  link_in k m =
      lookup-successors k (fill [] [] g.nodes) g.edges
      ∙ rw (lookup-fill {V = List ℕ} k [] [] g.nodes, appended) (rw m)

  -- What the loop leaves, and the test of the count.
  abbrev Left : List ℕ → Dict ℕ → Type 0
  Left seen d = Inv nodes g.edges seen [] [] d

  -- Under a numbering that grows along the edges, a node below a given number is visited.
  all_seen :
      (rank : ℕ → ℕ)
      → ((e : EdgeDef) → In e g.edges → rank e.source < rank e.target)
      → (seen : List ℕ) (d : Dict ℕ) → Left seen d
      → (bound t : ℕ) → rank t < bound
      → mem t nodes ≡ true
      → mem t seen ≡ true
  all_seen rank grows seen d left zero t h m = elim h [ ]
  all_seen rank grows seen d left (suc bound) t h m = elim (Bool-cases (mem t seen)) [
    | inl y ↦ y
    | inr n ↦
        let (e, i, to, from) = count_in-pos seen t g.edges (ground (arith, left.ready t m)) in
        let lower : rank e.source < rank t = subst (λ k. rank e.source < rank k) to (grows e i) in
        absurd (
          false≢true (
            sym from ∙ all_seen rank grows seen d left bound e.source (omega arith) (closed e i).0))
  ]

  length-ids : (ns : List NodeDef) → length (ids ns) ≡ length ns
  length-ids [] = refl
  length-ids (n ∷ ns) = ap suc (length-ids ns)

  verdict :
      (seen : List ℕ) (d : Dict ℕ)
      → Left seen d
      → (assert_acyclic g ≡ (if length seen == length g.nodes then ok tt else err has_cycle))
      → ((assert_acyclic g ≡ ok tt) × IsAcyclic g)
        ⊎ ((assert_acyclic g ≡ err has_cycle) × ¬ (IsAcyclic g))
  verdict seen d left e = elim (Bool-cases (length seen == length g.nodes)) [
    | inl y ↦
        let none_left : unseen seen nodes ≡ 0 = ground (arith, left.size, length-ids g.nodes) in
        inl (
          e ∙ rw y,
          (
            λ k. place k seen,
            λ edge i.
                left.ordered edge i
                  (unseen-zero seen nodes edge.target none_left (closed edge i).1),
          ),
        )
    | inr n ↦ inr (
      e ∙ rw n,
      λ (rank, grows).
          let every =
            zero-unseen seen nodes
              (λ k m. all_seen rank grows seen d left (suc (rank k)) k (omega arith) m) in
          absurd (ground (arith, left.size, length-ids g.nodes, every)),
    )
  ]

-- On a graph whose ids are unique and whose edges join its nodes, the test ends in one of two ways:
-- it passes and the edges have a topological numbering, or it reports a cycle and they have none.
pub assert_acyclic_exact :
    (g : GraphDef)
    → IsUnique (ids g.nodes)
    → IsClosed g
    → ((assert_acyclic g ≡ ok tt) × IsAcyclic g)
      ⊎ ((assert_acyclic g ≡ err has_cycle) × ¬ (IsAcyclic g))
assert_acyclic_exact g unique closed =
    let (seen, d, visited, left) =
      visit_all (ids g.nodes) g.edges (length g.nodes + 1) (links_of g unique closed) []
        (zeros (start_degrees g unique closed)) (start_degrees g unique closed) unique
        (link_in g unique closed) (λ e i. (closed e i).1)
        (omega (arith, unseen-nil (ids g.nodes), length-ids g unique closed g.nodes))
        (start_Inv g unique closed) in
    verdict g unique closed seen d left (unfold assert_acyclic in rw (visited, assert_acyclic))

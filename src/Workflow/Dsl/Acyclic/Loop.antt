-- ===== src/Workflow/Dsl/Acyclic/Loop.antt =====
-- The invariant of the loop of `_assert_acyclic` (app/workflow/dsl.py), its progress and its end.
use Prim.Native.Nat.{pred}
use mathlib.Core.Bool.{false≢true}
use ops_knowledge.Prelude.{
  IsUnique-snoc, ℕ, zero, suc, ◌+◌, ◌<◌, ◌≡◌, refl, sym, ◌∙◌, ap, true, false, ◌||◌, ◌==◌,
  if◌then◌else◌, some, List, [], ◌∷◌, ◌++◌, arith, mem, In, inl, inr, IsUnique, Bool-cases,
  mem-append, length, length-append,
}
use ops_knowledge.Prelude.Dict.{Dict, lookup, insert, lookup-insert}
use ops_knowledge.Prelude.Results.{ok}
use ops_knowledge.Workflow.Dsl.{EdgeDef, release, visit}
use ops_knowledge.Workflow.Dsl.Acyclic.Degrees.{
  count_in, occurs, targets, count_in-snoc, count_in-zero, targets-In,
}
use ops_knowledge.Workflow.Dsl.Acyclic.Places.{
  place, place-lt, place-snoc, place-snoc_new, mem_of_place, unseen, unseen-snoc,
}

module _ (nodes : List ℕ) (es : List EdgeDef) where
  -- `seen` is visited in this order, `queue` waits, and the edges to `left` of the node in hand
  -- are still to be taken from the degrees `d`.
  pub record Inv (seen queue left : List ℕ) (d : Dict ℕ) : Type 0 where
    pub degrees :
        (t : ℕ) → mem t nodes ≡ true → lookup t d ≡ some (count_in seen t es + occurs t left)
    pub ready :
        (t : ℕ)
        → mem t nodes ≡ true
        → (mem t seen || mem t queue) ≡ (count_in seen t es + occurs t left == 0)
    pub inside : (t : ℕ) → (mem t seen || mem t queue) ≡ true → mem t nodes ≡ true
    pub apart : (t : ℕ) → mem t queue ≡ true → mem t seen ≡ false
    pub once : IsUnique queue
    pub size : length seen + unseen seen nodes ≡ length nodes
    pub ordered :
        (e : EdgeDef)
        → In e es
        → mem e.target seen ≡ true
        → place e.source seen < place e.target seen

module _ (nodes : List ℕ) (es : List EdgeDef) where
  -- One turn of the inner loop: an edge to `t` is taken from the degrees.
  release_one :
      (seen queue : List ℕ) (t : ℕ) (ts : List ℕ) (d : Dict ℕ)
      → mem t nodes ≡ true
      → Inv nodes es seen queue (t ∷ ts) d
      → Inv nodes es seen
          (if count_in seen t es + occurs t ts == 0 then queue ++ t ∷ [] else queue)
          ts
          (insert t (count_in seen t es + occurs t ts) d)
  release_one seen queue t ts d t_in inv = elim (Bool-cases (rest == 0)) [
    | inl last ↦ rw last (record {
      degrees = degrees;
      ready = λ j m. elim (Bool-cases (j == t)) [
        | inl y ↦
            let same : j ≡ t = ground arith in rw same (ground (arith, mem-append t queue (t ∷ [])))
        | inr n ↦ ground (arith, mem-append j queue (t ∷ []), inv.ready j m)
      ];
      inside = λ j m. elim (Bool-cases (j == t)) [
        | inl y ↦ let same : j ≡ t = ground arith in rw same t_in
        | inr n ↦ inv.inside j (ground (arith, mem-append j queue (t ∷ [])))
      ];
      apart = λ j m. elim (Bool-cases (j == t)) [
        | inl y ↦ let same : j ≡ t = ground arith in rw same (ground (arith, fresh))
        | inr n ↦ inv.apart j (ground (arith, mem-append j queue (t ∷ [])))
      ];
      once = IsUnique-snoc queue t inv.once (ground (arith, fresh));
      size = inv.size;
      ordered = inv.ordered;
    })
    | inr more ↦ rw more (record {
      degrees = degrees;
      ready = λ j m. elim (Bool-cases (j == t)) [
        | inl y ↦ let same : j ≡ t = ground arith in rw same (ground (arith, fresh))
        | inr n ↦ ground (arith, inv.ready j m)
      ];
      inside = inv.inside;
      apart = inv.apart;
      once = inv.once;
      size = inv.size;
      ordered = inv.ordered;
    })
  ]
    where
      rest : ℕ
      rest = count_in seen t es + occurs t ts

      fresh : (mem t seen || mem t queue) ≡ false
      fresh = ground (arith, inv.ready t t_in)

      degrees :
          (j : ℕ)
          → mem j nodes ≡ true
          → lookup j (insert t rest d) ≡ some (count_in seen j es + occurs j ts)
      degrees j m = lookup-insert t j rest d ∙ elim (Bool-cases (j == t)) [
        | inl y ↦ let same : j ≡ t = ground arith in rw y (rw same)
        | inr n ↦ rw n (inv.degrees j m ∙ ap some (ground arith))
      ]

  release_next :
      (t m n : ℕ) (ts : List ℕ) (d : Dict ℕ) (queue : List ℕ)
      → lookup t d ≡ some n
      → pred n ≡ m
      → release (t ∷ ts) d queue
        ≡ release ts (insert t m d) (if m == 0 then queue ++ t ∷ [] else queue)
  unfolding release
  release_next t m n ts d queue found less = rw (found, release) (rw less)

  -- The whole inner loop.
  release_all :
      (seen queue ts : List ℕ) (d : Dict ℕ)
      → ((t : ℕ) → mem t ts ≡ true → mem t nodes ≡ true)
      → Inv nodes es seen queue ts d
      → (d' : Dict ℕ) × (queue' : List ℕ) × (release ts d queue ≡ ok (d', queue'))
        × Inv nodes es seen queue' [] d'
  unfolding release
  release_all seen queue [] d known inv = (d, queue, refl, inv)
  release_all seen queue (t ∷ ts) d known inv =
      let t_in : mem t nodes ≡ true = known t (ground arith) in
      let degree = inv.degrees t t_in in
      let less : pred (count_in seen t es + occurs t (t ∷ ts)) ≡ count_in seen t es + occurs t ts =
        ground arith in
      let rest = count_in seen t es + occurs t ts in
      let (d', queue', e, inv') =
        release_all seen (if rest == 0 then queue ++ t ∷ [] else queue) ts (insert t rest d)
          (λ j m. known j (ground arith)) (release_one seen queue t ts d t_in inv) in
      (d', queue', release_next t rest _ ts d queue degree less ∙ e, inv')

  -- The node at the head of the queue is visited, its successors in hand.
  take_head :
      (seen : List ℕ) (nid : ℕ) (queue : List ℕ) (d : Dict ℕ)
      → IsUnique nodes
      → Inv nodes es seen (nid ∷ queue) [] d
      → Inv nodes es (seen ++ nid ∷ []) queue (targets nid es) d
  take_head seen nid queue d unique inv = record {
    degrees = λ j m. inv.degrees j m ∙ ap some (moved j);
    ready = λ j m. ground (arith, inv.ready j m, moved j, mem-append j seen (nid ∷ []));
    inside = λ j m. inv.inside j (ground (arith, mem-append j seen (nid ∷ [])));
    apart = λ j m. elim (Bool-cases (j == nid)) [
      | inl y ↦
          let same : j ≡ nid = ground arith in absurd (false≢true (sym inv.once.0 ∙ rw same at m))
      | inr n ↦ ground (arith, inv.apart j, mem-append j seen (nid ∷ []))
    ];
    once = inv.once.1;
    size = ground (
      arith,
      inv.size,
      unseen-snoc seen nid nodes unique nid_in fresh,
      length-append seen (nid ∷ []),
    );
    ordered = λ e i m. elim (Bool-cases (mem e.target seen)) [
      | inl old ↦
          let before = inv.ordered e i old in
          let in_place = place-lt e.target seen old in
          let source_in : mem e.source seen ≡ true = mem_of_place e.source seen (omega arith) in
          rw (place-snoc e.source nid seen source_in, place-snoc e.target nid seen old) before
      | inr new ↦
          let same : e.target ≡ nid = ground (arith, mem-append e.target seen (nid ∷ [])) in
          let source_in : mem e.source seen ≡ true =
            count_in-zero seen e es i (rw same none_left) in
          rw (place-snoc e.source nid seen source_in)
            (rw same (rw (place-snoc_new nid seen fresh) (place-lt e.source seen source_in)))
    ];
  }
    where
      fresh : mem nid seen ≡ false
      fresh = inv.apart nid (ground arith)

      nid_in : mem nid nodes ≡ true
      nid_in = inv.inside nid (ground (arith, fresh))

      none_left : count_in seen nid es ≡ 0
      none_left = ground (arith, fresh, inv.ready nid nid_in)

      moved :
          (j : ℕ)
          → count_in seen j es + 0 ≡ count_in (seen ++ nid ∷ []) j es + occurs j (targets nid es)
      moved j = omega (arith, count_in-snoc seen nid j es fresh)

  visit_next :
      (fuel : ℕ) (adj : Dict (List ℕ)) (d d' : Dict ℕ) (nid v w : ℕ) (ts queue queue' : List ℕ)
      → lookup nid adj ≡ some ts
      → release ts d queue ≡ ok (d', queue')
      → v + 1 ≡ w
      → visit (suc fuel) adj d (nid ∷ queue) v ≡ visit fuel adj d' queue' w
  unfolding visit
  visit_next fuel adj d d' nid v w ts queue queue' linked released more =
      rw (linked, visit) (rw (released, visit) (rw more))

  -- The outer loop ends with the queue empty, and counts the nodes that it visited.
  pub visit_all :
      (fuel : ℕ) (adj : Dict (List ℕ)) (seen queue : List ℕ) (d : Dict ℕ)
      → IsUnique nodes
      → ((k : ℕ) → mem k nodes ≡ true → lookup k adj ≡ some (targets k es))
      → ((e : EdgeDef) → In e es → mem e.target nodes ≡ true)
      → unseen seen nodes < fuel
      → Inv nodes es seen queue [] d
      → (seen' : List ℕ) × (d' : Dict ℕ) × (visit fuel adj d queue (length seen)
          ≡ ok (length seen'))
        × Inv nodes es seen' [] [] d'
  unfolding visit
  visit_all fuel adj seen [] d unique links closed enough inv = (seen, d, refl, inv)
  visit_all zero adj seen (nid ∷ queue) d unique links closed enough inv = elim enough [ ]
  visit_all (suc fuel) adj seen (nid ∷ queue) d unique links closed enough inv =
      let fresh : mem nid seen ≡ false = inv.apart nid (ground arith) in
      let nid_in : mem nid nodes ≡ true = inv.inside nid (ground arith) in
      let known =
        λ (t : ℕ) (m : mem t (targets nid es) ≡ true). target_known t (targets-In nid t es m) in
      let (d', queue', released, inv') =
        release_all (seen ++ nid ∷ []) queue (targets nid es) d known
          (take_head seen nid queue d unique inv) in
      let (seen', d'', visited, inv'') =
        visit_all fuel adj (seen ++ nid ∷ []) queue' d' unique links closed
          (omega (arith, unseen-snoc seen nid nodes unique nid_in fresh)) inv' in
      (
        seen',
        d'',
        visit_next fuel adj d d' nid (length seen) (length (seen ++ nid ∷ [])) (targets nid es)
              queue queue' (links nid nid_in) released
              (omega (arith, length-append seen (nid ∷ [])))
            ∙ visited,
        inv'',
      )
    where
      target_known : (t : ℕ) → ((e : EdgeDef) × In e es × (e.target ≡ t)) → mem t nodes ≡ true
      target_known t (e, i, same) = rw (← same) (closed e i)

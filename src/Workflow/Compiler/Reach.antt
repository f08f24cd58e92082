-- ===== src/Workflow/Compiler/Reach.antt =====
-- The search of app/workflow/langgraph/compiler.py, and the nodes that edges lead to.
use mathlib.Core.Bool.{false≢true}
use mathlib.Core.List.{reverse, reverse-cons}
use ops_knowledge.Prelude.{
  ℕ, zero, suc, ◌+◌, ◌≤◌, ◌≡◌, refl, sym, ap, ◌∙◌, subst, ◌↔◌, ◌&&◌, ◌⊎◌, inl, inr, true, false,
  ◌||◌, ◌==◌, if◌then◌else◌, some, List, [], ◌∷◌, ◌++◌, arith, mem, In, mem-append, length,
  length-append, Bool-cases,
}
use ops_knowledge.Workflow.Dsl.{EdgeDef}
use ops_knowledge.Workflow.Compiler.{targets_of, explore, reachable_from}

-- A start, or what an edge leads to from such a node.
pub data Reachable (starts : List ℕ) (edges : List EdgeDef) : ℕ → Type 0 where
  start : {k : ℕ} → mem k starts ≡ true → Reachable starts edges k
  follow :
      (e : EdgeDef) → Reachable starts edges e.source → In e edges → Reachable starts edges e.target

mem-reverse : (k : ℕ) (xs : List ℕ) → mem k (reverse xs) ≡ mem k xs
mem-reverse k [] = refl
mem-reverse k (x ∷ xs) =
    ap (mem k) (reverse-cons x xs)
    ∙ mem-append k (reverse xs) (x ∷ [])
    ∙ ground (arith, mem-reverse k xs)

length-reverse : (xs : List ℕ) → length (reverse xs) ≡ length xs
length-reverse [] = refl
length-reverse (x ∷ xs) =
    ap length (reverse-cons x xs)
    ∙ length-append (reverse xs) (x ∷ [])
    ∙ omega (arith, length-reverse xs)

-- The edges whose source is not seen.
abbrev waiting : List ℕ → List EdgeDef → ℕ
waiting seen [] = 0
waiting seen (e ∷ es) = (if mem e.source seen then 0 else 1) + waiting seen es

waiting-nil : (es : List EdgeDef) → waiting [] es ≡ length es
waiting-nil [] = refl
waiting-nil (e ∷ es) = ground (arith, waiting-nil es)

-- To see a node moves its edges to the stack.
waiting-snoc :
    (seen : List ℕ) (k : ℕ) (es : List EdgeDef)
    → mem k seen ≡ false
    → waiting (seen ++ k ∷ []) es + length (targets_of k es) ≡ waiting seen es
waiting-snoc seen k [] h = omega arith
waiting-snoc seen k (e ∷ es) h = elim (Bool-cases (k == e.source)) [
  | inl y ↦
      let same : e.source ≡ k = ground arith in
      let unseen : mem e.source seen ≡ false = rw same h in
      ground (arith, mem-append e.source seen (k ∷ []), waiting-snoc seen k es h)
  | inr n ↦ ground (arith, mem-append e.source seen (k ∷ []), waiting-snoc seen k es h)
]

target_edge :
    (k t : ℕ) (es : List EdgeDef)
    → mem t (targets_of k es) ≡ true
    → (e : EdgeDef) × In e es × (e.source ≡ k) × (e.target ≡ t)
target_edge k t [] h = absurd (ground arith)
target_edge k t (e ∷ es) h = elim (Bool-cases ((k == e.source) && (t == e.target))) [
  | inl y ↦ (e, inl refl, ground arith, ground arith)
  | inr n ↦ let (f, i, p, q) = target_edge k t es (ground arith) in (f, inr i, p, q)
]

edge_target :
    (e : EdgeDef) (es : List EdgeDef) → In e es → mem e.target (targets_of e.source es) ≡ true
edge_target e [] i = absurd i
edge_target e (f ∷ fs) (inl q) = rw q (ground arith)
edge_target e (f ∷ fs) (inr i) = ground (arith, edge_target e fs i)

module _ (edges : List EdgeDef) where
  abbrev pushed : ℕ → List ℕ → List ℕ
  pushed nid stack = reverse (targets_of nid edges) ++ stack

  mem-pushed :
      (k nid : ℕ) (stack : List ℕ)
      → mem k (pushed nid stack) ≡ (mem k (targets_of nid edges) || mem k stack)
  mem-pushed k nid stack =
      mem-append k (reverse (targets_of nid edges)) stack
      ∙ ground (arith, mem-reverse k (targets_of nid edges))

  explore_total :
      (fuel : ℕ) (seen stack : List ℕ)
      → length stack + waiting seen edges ≤ fuel
      → (ids : List ℕ) × (explore fuel edges seen stack ≡ some ids)
  unfolding explore
  explore_total fuel seen [] h = (seen, refl)
  explore_total zero seen (nid ∷ stack) h = absurd (omega arith)
  explore_total (suc fuel) seen (nid ∷ stack) h = elim (Bool-cases (mem nid seen)) [
    | inl old ↦ let (ids, e) = explore_total fuel seen stack (omega arith) in (ids, rw old e)
    | inr new ↦
        let (ids, e) = explore_total fuel (seen ++ nid ∷ []) (pushed nid stack) (
          omega (
            arith,
            waiting-snoc seen nid edges new,
            length-append (reverse (targets_of nid edges)) stack,
            length-reverse (targets_of nid edges),
          )) in
        (ids, rw new e)
  ]

  AllReachable : List ℕ → List ℕ → Type 0
  AllReachable starts ids = (k : ℕ) → mem k ids ≡ true → Reachable starts edges k

  explore_sound :
      (fuel : ℕ) (starts seen stack ids : List ℕ)
      → AllReachable starts seen
      → AllReachable starts stack
      → explore fuel edges seen stack ≡ some ids
      → AllReachable starts ids
  unfolding explore AllReachable
  explore_sound fuel starts seen [] ids met wait e k m = met k (ground arith)
  explore_sound zero starts seen (nid ∷ stack) ids met wait e k m = absurd (ground arith)
  explore_sound (suc fuel) starts seen (nid ∷ stack) ids met wait e k m =
      elim (Bool-cases (mem nid seen)) [
        | inl old ↦
            explore_sound fuel starts seen stack ids met (λ j h. wait j (ground arith))
              (rw old at e) k m
        | inr new ↦
            explore_sound fuel starts (seen ++ nid ∷ []) (pushed nid stack) ids
              (λ j h. from_seen j (Bool-cases (j == nid)) h)
              (λ j h. from_stack j (Bool-cases (mem j stack)) h) (rw new at e) k m
      ]
    where
      from_seen :
          (j : ℕ)
          → ((j == nid) ≡ true) ⊎ ((j == nid) ≡ false)
          → mem j (seen ++ nid ∷ []) ≡ true
          → Reachable starts edges j
      from_seen j (inl y) h = wait j (ground arith)
      from_seen j (inr n) h = met j (ground (arith, mem-append j seen (nid ∷ [])))

      from_stack :
          (j : ℕ)
          → (mem j stack ≡ true) ⊎ (mem j stack ≡ false)
          → mem j (pushed nid stack) ≡ true
          → Reachable starts edges j
      from_stack j (inl y) h = wait j (ground arith)
      from_stack j (inr n) h =
          let (f, i, from, to) = target_edge nid j edges (ground (arith, mem-pushed j nid stack)) in
          let source : Reachable starts edges f.source =
            subst (Reachable starts edges) (sym from) (wait nid (ground arith)) in
          subst (Reachable starts edges) to (follow f source i)

  -- What edges lead to from what is seen is seen, or on the stack.
  ClosedBut : List ℕ → List ℕ → Type 0
  ClosedBut seen stack =
      (e : EdgeDef)
      → In e edges
      → mem e.source seen ≡ true
      → (mem e.target seen || mem e.target stack) ≡ true

  explore_keeps :
      (fuel : ℕ) (seen stack ids : List ℕ)
      → ClosedBut seen stack
      → explore fuel edges seen stack ≡ some ids
      → ClosedBut ids [] × ((k : ℕ) → (mem k seen || mem k stack) ≡ true → mem k ids ≡ true)
  unfolding explore ClosedBut
  explore_keeps fuel seen [] ids closed e =
      (λ f i m. ground (arith, closed f i), λ k m. ground arith)
  explore_keeps zero seen (nid ∷ stack) ids closed e = absurd (ground arith)
  explore_keeps (suc fuel) seen (nid ∷ stack) ids closed e = elim (Bool-cases (mem nid seen)) [
    | inl old ↦
        let (c, g) =
          explore_keeps fuel seen stack ids (λ f i m. still old f (closed f i m)) (rw old at e) in
        (c, λ k m. g k (shorter old k (Bool-cases (k == nid)) m))
    | inr new ↦
        let (c, g) =
          explore_keeps fuel (seen ++ nid ∷ []) (pushed nid stack) ids
            (λ f i m. grown f i (Bool-cases (f.source == nid)) m) (rw new at e) in
        (c, λ k m. g k (ground (arith, mem-append k seen (nid ∷ []), mem-pushed k nid stack)))
  ]
    where
      shorter :
          mem nid seen ≡ true
          → (k : ℕ) → ((k == nid) ≡ true) ⊎ ((k == nid) ≡ false)
          → (mem k seen || mem k (nid ∷ stack)) ≡ true
          → (mem k seen || mem k stack) ≡ true
      shorter old k (inl y) m =
          let same : k ≡ nid = ground arith in
          let seen_k : mem k seen ≡ true = rw same old in ground arith
      shorter old k (inr n) m = ground arith

      still :
          mem nid seen ≡ true
          → (f : EdgeDef) → (mem f.target seen || mem f.target (nid ∷ stack)) ≡ true
          → (mem f.target seen || mem f.target stack) ≡ true
      still old f m = shorter old f.target (Bool-cases (f.target == nid)) m

      grown :
          (f : EdgeDef)
          → In f edges
          → ((f.source == nid) ≡ true) ⊎ ((f.source == nid) ≡ false)
          → mem f.source (seen ++ nid ∷ []) ≡ true
          → (mem f.target (seen ++ nid ∷ []) || mem f.target (pushed nid stack)) ≡ true
      grown f i (inl y) m =
          let same : f.source ≡ nid = ground arith in
          let to : mem f.target (targets_of nid edges) ≡ true =
            subst (λ s. mem f.target (targets_of s edges) ≡ true) same (edge_target f edges i) in
          ground (arith, mem-pushed f.target nid stack, mem-append f.target seen (nid ∷ []))
      grown f i (inr n) m = ground (
        arith,
        closed f i,
        mem-append f.source seen (nid ∷ []),
        mem-append f.target seen (nid ∷ []),
        mem-pushed f.target nid stack,
      )

  reach_complete :
      (starts ids : List ℕ) {k : ℕ}
      → ((j : ℕ) → mem j starts ≡ true → mem j ids ≡ true)
      → ClosedBut ids []
      → Reachable starts edges k
      → mem k ids ≡ true
  unfolding ClosedBut
  reach_complete starts ids {k} begin closed (start m) = begin k m
  reach_complete starts ids begin closed (follow e r i) =
      ground (arith, closed e i (reach_complete starts ids begin closed r))

-- The search ends within its fuel, for any edges, cyclic ones included, and returns exactly the
-- nodes that edges lead to from the starts.
pub reachable_from_exact :
    (starts : List ℕ) (edges : List EdgeDef)
    → (ids : List ℕ) × (reachable_from starts edges ≡ some ids)
      × ((k : ℕ) → (mem k ids ≡ true) ↔ Reachable starts edges k)
unfolding reachable_from AllReachable ClosedBut
reachable_from_exact starts edges =
    let fuel = length starts + length edges in
    let (ids, e) =
      explore_total edges fuel [] (reverse starts)
        (omega (arith, waiting-nil edges, length-reverse starts)) in
    let (closed, kept) =
      explore_keeps edges fuel [] (reverse starts) ids (λ f i m. absurd (false≢true m)) e in
    (
      ids,
      e,
      λ k. (
        explore_sound edges fuel starts [] (reverse starts) ids (λ j m. absurd (false≢true m))
            (λ j m. start (sym (mem-reverse j starts) ∙ m)) e k,
        reach_complete edges starts ids (λ j m. kept j (mem-reverse j starts ∙ m)) closed,
      ),
    )

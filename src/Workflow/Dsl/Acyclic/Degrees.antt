-- ===== src/Workflow/Dsl/Acyclic/Degrees.antt =====
-- What the dictionaries of `_assert_acyclic` (app/workflow/dsl.py) hold: the in-degrees, the
-- successors, and the queue of nodes without predecessors.
use ops_knowledge.Prelude.{
  ℕ, ◌+◌, ◌≡◌, refl, sym, ◌∙◌, ap, true, false, not, ◌&&◌, ◌||◌, ◌==◌, if◌then◌else◌, Option, none,
  some, List, [], ◌∷◌, ◌++◌, arith, mem, In, inl, inr, IsUnique, Bool-cases, mem-append, ◌<◌,
  Option-cases,
}
use mathlib.Core.List.{append_assoc, append-nil}
use ops_knowledge.Prelude.Dict.{Dict, lookup, insert, keys, lookup-insert}
use ops_knowledge.Workflow.Dsl.{
  EdgeDef, NodeDef, ids, fill, id_of, count_target, in_degrees, add_successor, successors, zeros,
}

-- The edges into `t` from outside `seen`.
abbrev pub count_in : List ℕ → ℕ → List EdgeDef → ℕ
count_in seen t [] = 0
count_in seen t (e ∷ es) =
    (if (e.target == t) && not (mem e.source seen) then 1 else 0) + count_in seen t es

abbrev pub occurs : ℕ → List ℕ → ℕ
occurs t [] = 0
occurs t (s ∷ ss) = (if t == s then 1 else 0) + occurs t ss

abbrev pub targets : ℕ → List EdgeDef → List ℕ
targets k [] = []
targets k (e ∷ es) = let rest = targets k es in if k == e.source then e.target ∷ rest else rest

abbrev pub plus : Option ℕ → ℕ → Option ℕ
plus none n = none
plus (some m) n = some (m + n)

abbrev pub appended : Option (List ℕ) → List ℕ → Option (List ℕ)
appended none ts = none
appended (some ss) ts = some (ss ++ ts)

plus-plus : (o : Option ℕ) (m n : ℕ) → plus (plus o m) n ≡ plus o (m + n)
plus-plus none m n = refl
plus-plus (some k) m n = ap some (omega arith)

plus_zero : (o : Option ℕ) → plus o 0 ≡ o
plus_zero none = refl
plus_zero (some k) = ap some (omega arith)

lookup-count_target :
    (t : ℕ) (d : Dict ℕ) (e : EdgeDef)
    → lookup t (count_target d e) ≡ plus (lookup t d) (if e.target == t then 1 else 0)
lookup-count_target t d e = elim (Option-cases (lookup e.target d)) [
  | inl q ↦ elim (Bool-cases (e.target == t)) [
    | inl y ↦ let same : e.target ≡ t = ground arith in rw (q, count_target, y) (rw (rw same at q))
    | inr n ↦ rw (q, count_target, n) (sym (plus_zero (lookup t d)))
  ]
  | inr (m, q) ↦ elim (Bool-cases (e.target == t)) [
    | inl y ↦
        let same : e.target ≡ t = ground arith in
        rw (q, count_target, y)
          (lookup-insert e.target t (m + 1) d ∙ ground (arith, ap (λ k. lookup k d) same))
    | inr n ↦
        rw (q, count_target, n)
          (lookup-insert e.target t (m + 1) d ∙ ground (arith, plus_zero (lookup t d)))
  ]
]

pub lookup-in_degrees :
    (t : ℕ) (d : Dict ℕ) (es : List EdgeDef)
    → lookup t (in_degrees d es) ≡ plus (lookup t d) (count_in [] t es)
unfolding in_degrees
lookup-in_degrees t d [] = sym (plus_zero (lookup t d))
lookup-in_degrees t d (e ∷ es) =
    lookup-in_degrees t (count_target d e) es
    ∙ ap (λ o. plus o (count_in [] t es)) (lookup-count_target t d e)
    ∙ plus-plus (lookup t d) _ _
    ∙ ground arith

appended_nil : (o : Option (List ℕ)) → appended o [] ≡ o
appended_nil none = refl
appended_nil (some ss) = ap some (append-nil ss)

appended_twice :
    (o : Option (List ℕ)) (ss ts : List ℕ) → appended (appended o ss) ts ≡ appended o (ss ++ ts)
appended_twice none ss ts = refl
appended_twice (some rs) ss ts = ap some (append_assoc rs ss ts)

lookup-add_successor :
    (k : ℕ) (d : Dict (List ℕ)) (e : EdgeDef)
    → lookup k (add_successor d e)
      ≡ appended (lookup k d) (if k == e.source then e.target ∷ [] else [])
lookup-add_successor k d e = elim (Option-cases (lookup e.source d)) [
  | inl q ↦ elim (Bool-cases (k == e.source)) [
    | inl y ↦ let same : e.source ≡ k = ground arith in rw (q, add_successor, y) (rw (rw same at q))
    | inr n ↦ rw (q, add_successor, n) (sym (appended_nil (lookup k d)))
  ]
  | inr (ts, q) ↦ elim (Bool-cases (k == e.source)) [
    | inl y ↦
        let same : e.source ≡ k = ground arith in
        rw (q, add_successor, y)
          (lookup-insert e.source k (ts ++ e.target ∷ []) d
            ∙ ground (arith, ap (λ j. lookup j d) same))
    | inr n ↦
        rw (q, add_successor, n)
          (lookup-insert e.source k (ts ++ e.target ∷ []) d
            ∙ ground (arith, appended_nil (lookup k d)))
  ]
]

pub lookup-successors :
    (k : ℕ) (d : Dict (List ℕ)) (es : List EdgeDef)
    → lookup k (successors d es) ≡ appended (lookup k d) (targets k es)
unfolding successors
lookup-successors k d [] = sym (appended_nil (lookup k d))
lookup-successors k d (e ∷ es) =
    lookup-successors k (add_successor d e) es
    ∙ ap (λ o. appended o (targets k es)) (lookup-add_successor k d e)
    ∙ appended_twice (lookup k d) _ _
    ∙ ap (appended (lookup k d)) (ground arith)

pub lookup-fill :
    {V : Type 0} (k : ℕ) (v : V) (d : Dict V) (ns : List NodeDef)
    → lookup k (fill v d ns) ≡ (if mem k (ids ns) then some v else lookup k d)
unfolding fill
lookup-fill k v d [] = refl
lookup-fill k v d (n ∷ ns) =
    lookup-fill k v (insert (id_of n) v d) ns ∙ ground (arith, lookup-insert (id_of n) k v d)

-- ------------------------------------------------------------------ keys

mem-keys-insert :
    {V : Type 0} (j k : ℕ) (v : V) (d : Dict V)
    → mem j (keys (insert k v d)) ≡ ((j == k) || mem j (keys d))
mem-keys-insert j k v [] = ground arith
mem-keys-insert j k v ((i, w) ∷ d) = ground (arith, mem-keys-insert j k v d)

keys-insert-IsUnique :
    {V : Type 0} (k : ℕ) (v : V) (d : Dict V) → IsUnique (keys d) → IsUnique (keys (insert k v d))
keys-insert-IsUnique k v [] h = ground arith
keys-insert-IsUnique k v ((i, w) ∷ d) h = elim (Bool-cases (k == i)) [
  | inl y ↦ rw y h
  | inr n ↦ rw n (ground (arith, mem-keys-insert i k v d), keys-insert-IsUnique k v d h.1)
]

fill-IsUnique :
    {V : Type 0} (v : V) (d : Dict V) (ns : List NodeDef)
    → IsUnique (keys d)
    → IsUnique (keys (fill v d ns))
unfolding fill
fill-IsUnique v d [] h = h
fill-IsUnique v d (n ∷ ns) h =
    fill-IsUnique v (insert (id_of n) v d) ns (keys-insert-IsUnique (id_of n) v d h)

in_degrees-IsUnique :
    (d : Dict ℕ) (es : List EdgeDef) → IsUnique (keys d) → IsUnique (keys (in_degrees d es))
unfolding in_degrees
in_degrees-IsUnique d [] h = h
in_degrees-IsUnique d (e ∷ es) h =
    in_degrees-IsUnique (count_target d e) es (elim (Option-cases (lookup e.target d)) [
      | inl q ↦ rw (q, count_target) h
      | inr (m, q) ↦ rw (q, count_target) (keys-insert-IsUnique e.target (m + 1) d h)
    ])

pub degrees-IsUnique :
    (ns : List NodeDef) (es : List EdgeDef) → IsUnique (keys (in_degrees (fill 0 [] ns) es))
degrees-IsUnique ns es = in_degrees-IsUnique _ es (fill-IsUnique 0 [] ns tt)

zeros-keys : (k : ℕ) (d : Dict ℕ) → mem k (keys d) ≡ false → mem k (zeros d) ≡ false
zeros-keys k [] h = refl
zeros-keys k ((i, n) ∷ d) h = ground (arith, zeros-keys k d)

pub zeros-IsUnique : (d : Dict ℕ) → IsUnique (keys d) → IsUnique (zeros d)
zeros-IsUnique [] h = tt
zeros-IsUnique ((i, n) ∷ d) h = elim (Bool-cases (n == 0)) [
  | inl y ↦ rw y (zeros-keys i d h.0, zeros-IsUnique d h.1)
  | inr f ↦ rw f (zeros-IsUnique d h.1)
]

-- A key stands in the queue exactly if its value is 0.
pub mem-zeros :
    (k n : ℕ) (d : Dict ℕ) → IsUnique (keys d) → lookup k d ≡ some n → mem k (zeros d) ≡ (n == 0)
mem-zeros k n [] u h = ground arith
mem-zeros k n ((i, m) ∷ d) u h = elim (Bool-cases (k == i)) [
  | inl y ↦
      let same : k ≡ i = ground arith in
      ground (arith, zeros-keys i d u.0, ap (λ j. mem j (zeros d)) same)
  | inr f ↦ ground (arith, mem-zeros k n d u.1)
]

pub zeros-lookup : (k : ℕ) (d : Dict ℕ) → lookup k d ≡ none → mem k (zeros d) ≡ false
zeros-lookup k [] h = refl
zeros-lookup k ((i, n) ∷ d) h = ground (arith, zeros-lookup k d)

-- ------------------------------------------------------------------ counting

-- Once `k` is seen, the edges from `k` are no longer counted: they are its successors.
pub count_in-snoc :
    (seen : List ℕ) (k t : ℕ) (es : List EdgeDef)
    → mem k seen ≡ false
    → count_in seen t es ≡ count_in (seen ++ k ∷ []) t es + occurs t (targets k es)
count_in-snoc seen k t [] h = refl
count_in-snoc seen k t (e ∷ es) h = elim (Bool-cases (k == e.source)) [
  | inl y ↦
      let same : e.source ≡ k = ground arith in
      let unseen : mem e.source seen ≡ false = rw same h in
      ground (arith, mem-append e.source seen (k ∷ []), count_in-snoc seen k t es h)
  | inr n ↦ ground (arith, mem-append e.source seen (k ∷ []), count_in-snoc seen k t es h)
]

-- With no edge left into `t`, all sources of edges into `t` are seen.
pub count_in-zero :
    (seen : List ℕ) (e : EdgeDef) (es : List EdgeDef)
    → In e es
    → count_in seen e.target es ≡ 0
    → mem e.source seen ≡ true
count_in-zero seen e [] i h = absurd i
count_in-zero seen e (f ∷ fs) (inl q) h = elim (Bool-cases (mem e.source seen)) [
  | inl y ↦ y
  | inr n ↦
      let to : f.target ≡ e.target = ap (λ (x : EdgeDef). x.target) (sym q) in
      let from : mem f.source seen ≡ false = rw q at n in absurd (ground (arith, to, from))
]
count_in-zero seen e (f ∷ fs) (inr i) h = count_in-zero seen e fs i (ground arith)

-- With an edge left into `t`, one of them is found.
pub count_in-pos :
    (seen : List ℕ) (t : ℕ) (es : List EdgeDef)
    → 0 < count_in seen t es
    → (e : EdgeDef) × In e es × (e.target ≡ t) × (mem e.source seen ≡ false)
count_in-pos seen t [] h = absurd (omega arith)
count_in-pos seen t (e ∷ es) h = elim (Bool-cases ((e.target == t) && not (mem e.source seen))) [
  | inl y ↦ (e, inl refl, ground arith, ground arith)
  | inr n ↦ let (f, i, q, m) = count_in-pos seen t es (ground arith) in (f, inr i, q, m)
]

pub targets-In :
    (k t : ℕ) (es : List EdgeDef)
    → mem t (targets k es) ≡ true
    → (e : EdgeDef) × In e es × (e.target ≡ t)
targets-In k t [] h = absurd (ground arith)
targets-In k t (e ∷ es) h = elim (Bool-cases (e.target == t)) [
  | inl y ↦ (e, inl refl, ground arith)
  | inr n ↦ let (f, i, q) = targets-In k t es (ground arith) in (f, inr i, q)
]

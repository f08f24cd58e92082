-- ===== src/Workflow/Dsl/Acyclic/Places.antt =====
-- The order in which nodes were visited: the place of each, and how many are left.
use ops_knowledge.Prelude.{
  ℕ, suc, ◌+◌, ◌<◌, ◌≡◌, refl, ap, subst, true, false, ◌==◌, if◌then◌else◌, List, [], ◌∷◌, ◌++◌,
  arith, mem, inl, inr, IsUnique, Bool-cases, mem-append, length,
}

-- The place of `k` in the list, or its length.
abbrev pub place : ℕ → List ℕ → ℕ
place k [] = 0
place k (x ∷ xs) = if k == x then 0 else suc (place k xs)

pub place-lt : (k : ℕ) (xs : List ℕ) → mem k xs ≡ true → place k xs < length xs
place-lt k [] h = absurd (ground arith)
place-lt k (x ∷ xs) h = ground (arith, place-lt k xs)

pub place-snoc : (k x : ℕ) (xs : List ℕ) → mem k xs ≡ true → place k (xs ++ x ∷ []) ≡ place k xs
place-snoc k x [] h = absurd (ground arith)
place-snoc k x (y ∷ ys) h = ground (arith, place-snoc k x ys)

pub place-snoc_new : (x : ℕ) (xs : List ℕ) → mem x xs ≡ false → place x (xs ++ x ∷ []) ≡ length xs
place-snoc_new x [] h = ground arith
place-snoc_new x (y ∷ ys) h = ground (arith, place-snoc_new x ys)

pub mem_of_place : (k : ℕ) (xs : List ℕ) → place k xs < length xs → mem k xs ≡ true
mem_of_place k [] h = absurd (omega arith)
mem_of_place k (x ∷ xs) h = ground (arith, mem_of_place k xs)

-- How many of the nodes are not seen.
abbrev pub unseen : List ℕ → List ℕ → ℕ
unseen seen [] = 0
unseen seen (n ∷ ns) = (if mem n seen then 0 else 1) + unseen seen ns

pub unseen-nil : (ns : List ℕ) → unseen [] ns ≡ length ns
unseen-nil [] = refl
unseen-nil (n ∷ ns) = ground (arith, unseen-nil ns)

pub unseen-snoc_other :
    (seen : List ℕ) (k : ℕ) (ns : List ℕ)
    → mem k ns ≡ false
    → unseen (seen ++ k ∷ []) ns ≡ unseen seen ns
unseen-snoc_other seen k [] h = refl
unseen-snoc_other seen k (n ∷ ns) h =
    ground (arith, mem-append n seen (k ∷ []), unseen-snoc_other seen k ns)

-- To see one more node leaves one node less unseen.
pub unseen-snoc :
    (seen : List ℕ) (k : ℕ) (ns : List ℕ)
    → IsUnique ns
    → mem k ns ≡ true
    → mem k seen ≡ false
    → unseen (seen ++ k ∷ []) ns + 1 ≡ unseen seen ns
unseen-snoc seen k [] u h f = absurd (ground arith)
unseen-snoc seen k (n ∷ ns) u h f = elim (Bool-cases (k == n)) [
  | inl y ↦
      let same : n ≡ k = ground arith in
      let gone : mem k ns ≡ false = rw same at u.0 in
      ground (
        arith,
        mem-append n seen (k ∷ []),
        unseen-snoc_other seen k ns gone,
        ap (λ j. mem j seen) same,
      )
  | inr d ↦ ground (arith, mem-append n seen (k ∷ []), unseen-snoc seen k ns u.1)
]

pub unseen-zero :
    (seen ns : List ℕ) (k : ℕ) → unseen seen ns ≡ 0 → mem k ns ≡ true → mem k seen ≡ true
unseen-zero seen [] k z h = absurd (ground arith)
unseen-zero seen (n ∷ ns) k z h = elim (Bool-cases (k == n)) [
  | inl y ↦ let same : n ≡ k = ground arith in subst (λ j. mem j seen ≡ true) same (ground arith)
  | inr d ↦ ground (arith, unseen-zero seen ns k)
]

pub zero-unseen :
    (seen ns : List ℕ) → ((k : ℕ) → mem k ns ≡ true → mem k seen ≡ true) → unseen seen ns ≡ 0
zero-unseen seen [] h = refl
zero-unseen seen (n ∷ ns) h = ground (arith, h n, zero-unseen seen ns (λ k m. h k (ground arith)))

-- ===== src/Workflow/Service/Pruning.antt =====
-- Which versions are kept: `_prune_old_versions` of app/workflow/service.py.
use ops_knowledge.Prelude.{
  ℕ, ◌≤◌, ◌<◌, ◌≡◌, refl, sym, ap, subst, Bool, true, false, not, ◌||◌, ◌==◌, ltb, List, [], ◌∷◌,
  ◌++◌, arith, inl, inr, Bool-cases, In, All, All-append, keep, length, length-keep-le, ◌⊎◌,
}
use ops_knowledge.Workflow.Service.{WorkflowVersion, is_of, newer, prune_old_versions}

module _ {A : Type 0} where
  pub keep-append : (p : A → Bool) (xs ys : List A) → keep p (xs ++ ys) ≡ keep p xs ++ keep p ys
  keep-append p [] ys = refl
  keep-append p (x ∷ xs) ys = elim (Bool-cases (p x)) [
    | inl t ↦ simp t (ap (λ l. x ∷ l) (keep-append p xs ys))
    | inr f ↦ simp f (keep-append p xs ys)
  ]

  pub In-keep : (p : A → Bool) (x : A) (xs : List A) → In x (keep p xs) → In x xs
  In-keep p x [] i = i
  In-keep p x (y ∷ ys) i = elim (Bool-cases (p y)) [
    | inl t ↦
        let j : (x ≡ y) ⊎ In x (keep p ys) = simp t at i in
        elim j [ inl e ↦ inl e | inr later ↦ inr (In-keep p x ys later) ]
    | inr f ↦ inr (In-keep p x ys (simp f at i))
  ]

  pub keep_holds : (p : A → Bool) (x : A) (xs : List A) → In x (keep p xs) → p x ≡ true
  keep_holds p x [] i = absurd i
  keep_holds p x (y ∷ ys) i = elim (Bool-cases (p y)) [
    | inl t ↦
        let j : (x ≡ y) ⊎ In x (keep p ys) = simp t at i in
        elim j [ inl e ↦ rw e t | inr later ↦ keep_holds p x ys later ]
    | inr f ↦ keep_holds p x ys (simp f at i)
  ]

  pub In-snoc : (x y : A) (xs : List A) → In x (xs ++ y ∷ []) → (x ≡ y) ⊎ In x xs
  In-snoc x y [] i = i
  In-snoc x y (z ∷ zs) (inl e) = inr (inl e)
  In-snoc x y (z ∷ zs) (inr i) = elim (In-snoc x y zs i) [
    | inl e ↦ inl e
    | inr later ↦ inr (inr later)
  ]

  pub All-In {κ} : (P : A → Type κ) (xs : List A) → ((x : A) → In x xs → P x) → All P xs
  All-In P [] h = tt
  All-In P (x ∷ xs) h = (h x (inl refl), All-In P xs (λ y i. h y (inr i)))

  pub keep-keep : (p q : A → Bool) (xs : List A) → keep p (keep q xs) ≡ keep q (keep p xs)
  keep-keep p q [] = refl
  keep-keep p q (x ∷ xs) = elim (Bool-cases (p x)) [
    | inl t ↦ elim (Bool-cases (q x)) [
      | inl u ↦ simp (t, u, t, u) (ap (λ l. x ∷ l) (keep-keep p q xs))
      | inr v ↦ simp (t, v) (keep-keep p q xs)
    ]
    | inr f ↦ elim (Bool-cases (q x)) [
      | inl u ↦ simp (f, u, f) (keep-keep p q xs)
      | inr v ↦ simp (f, v) (keep-keep p q xs)
    ]
  ]

  pub keep_within : (p q : A → Bool) (xs : List A) → All (λ x. p x ≡ q x) xs → keep p xs ≡ keep q xs
  keep_within p q [] h = refl
  keep_within p q (x ∷ xs) h = rw (h.0, keep_within p q xs h.1) refl

  pub All-keep {κ} : (P : A → Type κ) (p : A → Bool) (xs : List A) → All P xs → All P (keep p xs)
  All-keep P p [] h = tt
  All-keep P p (x ∷ xs) h = elim (Bool-cases (p x)) [
    | inl t ↦ simp t (h.0, All-keep P p xs h.1)
    | inr f ↦ simp f (All-keep P p xs h.1)
  ]

module _ {J : Type 0} where
  -- The versions rise from row to row.
  abbrev pub IsIncreasing : List (WorkflowVersion J) → Type 0
  IsIncreasing [] = Unit
  IsIncreasing (r ∷ rows) = All (λ s. r.version < s.version) rows × IsIncreasing rows

  pub IsIncreasing-keep :
      (p : WorkflowVersion J → Bool) (rows : List (WorkflowVersion J))
      → IsIncreasing rows
      → IsIncreasing (keep p rows)
  IsIncreasing-keep p [] h = tt
  IsIncreasing-keep p (r ∷ rows) h = elim (Bool-cases (p r)) [
    | inl t ↦
        simp t (All-keep (λ s. r.version < s.version) p rows h.0, IsIncreasing-keep p rows h.1)
    | inr f ↦ simp f (IsIncreasing-keep p rows h.1)
  ]

  pub IsIncreasing-snoc :
      (rows : List (WorkflowVersion J)) (r : WorkflowVersion J)
      → All (λ s. s.version < r.version) rows
      → IsIncreasing rows
      → IsIncreasing (rows ++ r ∷ [])
  IsIncreasing-snoc [] r h k = (tt, tt)
  IsIncreasing-snoc (s ∷ rows) r h k = (
    All-append (λ t. s.version < t.version) rows (r ∷ []) k.0 (h.0, tt),
    IsIncreasing-snoc rows r h.1 k.1,
  )

  -- In rising rows, the first is older than all the others, and is not newer than any.
  newer_first :
      (r : WorkflowVersion J) (rows : List (WorkflowVersion J))
      → All (λ s. r.version < s.version) rows
      → newer r rows ≡ length rows
  newer_first r [] h = refl
  newer_first r (s ∷ rows) h = ground (arith, newer_first r rows h.1)

  newer_others :
      (r : WorkflowVersion J) (rows : List (WorkflowVersion J)) (n : ℕ)
      → (whole : List (WorkflowVersion J)) → All (λ s. r.version < s.version) rows
      → All (λ s. ltb (newer s (r ∷ whole)) n ≡ ltb (newer s whole) n) rows
  newer_others r [] n whole h = tt
  newer_others r (s ∷ rows) n whole h = (ground arith, newer_others r rows n whole h.1)

  -- Of rising rows, at most `n` have fewer than `n` newer ones.
  pub length-keep-newer :
      (n : ℕ) (rows : List (WorkflowVersion J))
      → IsIncreasing rows
      → length (keep (λ r. ltb (newer r rows) n) rows) ≤ n
  length-keep-newer n [] h = omega arith
  length-keep-newer n (r ∷ rows) h =
      let first : newer r (r ∷ rows) ≡ length rows = ground (arith, newer_first r rows h.0) in
      let others =
        keep_within (λ s. ltb (newer s (r ∷ rows)) n) (λ s. ltb (newer s rows) n) rows
          (newer_others r rows n rows h.0) in
      elim (Bool-cases (ltb (newer r (r ∷ rows)) n)) [
        | inl t ↦ simp t (
            let shorter = length-keep-le (λ s. ltb (newer s (r ∷ rows)) n) rows in
            let few : length rows < n = ground arith in omega arith)
        | inr f ↦ simp f (subst (λ l. length l ≤ n) (sym others) (length-keep-newer n rows h.1))
      ]

  pub own-prune :
      (k n : ℕ) (rows : List (WorkflowVersion J))
      → keep (is_of k) (prune_old_versions k n rows)
        ≡ keep (λ r. ltb (newer r (keep (is_of k) rows)) n) (keep (is_of k) rows)
  unfolding prune_old_versions
  own-prune k n rows = go (keep (is_of k) rows) rows
    where
      go :
          (mine rows : List (WorkflowVersion J))
          → keep (is_of k) (keep (λ r. not (is_of k r) || ltb (newer r mine) n) rows)
            ≡ keep (λ r. ltb (newer r mine) n) (keep (is_of k) rows)
      go mine [] = refl
      go mine (r ∷ rows) = elim (Bool-cases (is_of k r)) [
        | inr other ↦ simp (other, other) (go mine rows)
        | inl own ↦ elim (Bool-cases (ltb (newer r mine) n)) [
          | inl t ↦ simp (own, t, own) (ap (λ l. r ∷ l) (go mine rows))
          | inr f ↦ simp (own, f) (go mine rows)
        ]
      ]

  pub others-prune :
      (j k n : ℕ) (rows : List (WorkflowVersion J))
      → (j == k) ≡ false
      → keep (is_of j) (prune_old_versions k n rows) ≡ keep (is_of j) rows
  unfolding prune_old_versions
  others-prune j k n rows differ = go (keep (is_of k) rows) rows
    where
      go :
          (mine rows : List (WorkflowVersion J))
          → keep (is_of j) (keep (λ r. not (is_of k r) || ltb (newer r mine) n) rows)
            ≡ keep (is_of j) rows
      go mine [] = refl
      go mine (r ∷ rows) = elim (Bool-cases (is_of j r)) [
        | inl own ↦
            let other : is_of k r ≡ false = ground arith in
            simp (own, other, own) (ap (λ l. r ∷ l) (go mine rows))
        | inr foreign ↦ elim (Bool-cases (not (is_of k r) || ltb (newer r mine) n)) [
          | inl t ↦ simp (t, foreign) (go mine rows)
          | inr f ↦ simp (f, foreign) (go mine rows)
        ]
      ]

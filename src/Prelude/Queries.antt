-- ===== src/Prelude/Queries.antt =====
-- `select(column).where(test)` over a table, and what its rows are.
use Prim.Native.Nat.{ℕ}
use mathlib.Core.Path.{◌≡◌, refl}
use mathlib.Core.Logic.{inl, inr}
use mathlib.Core.Bool.{Bool, true}
use mathlib.Core.List.{List, [], ◌∷◌}
use native.Mathlib.Omega.{arith}
use ops_knowledge.Prelude.Tests.{◌==◌, if◌then◌else◌, Bool-cases}
use ops_knowledge.Prelude.Lists.{any}
use ops_knowledge.Prelude.Members.{mem, In}

module _ {A : Type 0} where
  abbrev pub select : (A → ℕ) → (A → Bool) → List A → List ℕ
  select column test [] = []
  select column test (x ∷ xs) =
      let rest = select column test xs in if test x then column x ∷ rest else rest

  -- A row that passes the test is selected.
  pub mem-select :
      (column : A → ℕ) (test : A → Bool) (x : A) (xs : List A)
      → In x xs
      → test x ≡ true
      → mem (column x) (select column test xs) ≡ true
  mem-select column test x [] i h = absurd i
  mem-select column test x (y ∷ ys) (inl e) h = rw (← e) (rw h (ground arith))
  mem-select column test x (y ∷ ys) (inr i) h = ground (arith, mem-select column test x ys i h)

  -- What is selected stands in a row that passes the test.
  pub select_row :
      (column : A → ℕ) (test : A → Bool) (k : ℕ) (xs : List A)
      → mem k (select column test xs) ≡ true
      → (x : A) × In x xs × (test x ≡ true) × (column x ≡ k)
  select_row column test k [] h = absurd (ground arith)
  select_row column test k (y ∷ ys) h = elim (Bool-cases (test y)) [
    | inr skip ↦
        let later : mem k (select column test ys) ≡ true = ground arith in
        let (x, i, t, c) = select_row column test k ys later in (x, inr i, t, c)
    | inl taken ↦ elim (Bool-cases (k == column y)) [
      | inl same ↦ (y, inl refl, taken, ground arith)
      | inr other ↦
          let later : mem k (select column test ys) ≡ true = ground arith in
          let (x, i, t, c) = select_row column test k ys later in (x, inr i, t, c)
    ]
  ]

  pub any_of :
      (test : A → Bool) (x : A) (xs : List A) → In x xs → test x ≡ true → any test xs ≡ true
  any_of test x [] i h = absurd i
  any_of test x (y ∷ ys) (inl e) h = rw (← e) (rw h)
  any_of test x (y ∷ ys) (inr i) h = ground (arith, any_of test x ys i h)

  pub any_row :
      (test : A → Bool) (xs : List A) → any test xs ≡ true → (x : A) × In x xs × (test x ≡ true)
  any_row test [] h = absurd (ground arith)
  any_row test (y ∷ ys) h = elim (Bool-cases (test y)) [
    | inl t ↦ (y, inl refl, t)
    | inr f ↦ let (x, i, t) = any_row test ys (rw f at h) in (x, inr i, t)
  ]

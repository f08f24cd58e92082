-- ===== src/Prelude/Members.antt =====
-- Membership among identifiers: the test `x in xs`, and the relation it decides.
use Prim.Native.Nat.{ℕ, ◌≤◌}
use mathlib.Core.Path.{◌≡◌, refl}
use mathlib.Core.Logic.{◌⊎◌, inl, inr}
use mathlib.Core.Bool.{Bool, true, false, ◌||◌}
use mathlib.Core.List.{List, [], ◌∷◌, ◌++◌}
use native.Mathlib.Omega.{arith}
use ops_knowledge.Prelude.Tests.{◌==◌, if◌then◌else◌}
use ops_knowledge.Prelude.Lists.{length}

-- `x in xs`
abbrev pub mem : ℕ → List ℕ → Bool
mem x [] = false
mem x (y ∷ ys) = (x == y) || mem x ys

-- Membership by position in the list.
abbrev pub In : {A : Type 0} → A → List A → Type 0
In x [] = ⊥
In x (y ∷ ys) = (x ≡ y) ⊎ In x ys

-- No identifier occurs twice.
abbrev pub IsUnique : List ℕ → Type 0
IsUnique [] = Unit
IsUnique (x ∷ xs) = (mem x xs ≡ false) × IsUnique xs

-- `set(xs)`, as the list of first occurrences read from the end.
abbrev pub dedup : List ℕ → List ℕ
dedup [] = []
dedup (x ∷ xs) = let rest = dedup xs in if mem x xs then rest else x ∷ rest

pub mem-append : (x : ℕ) (xs ys : List ℕ) → mem x (xs ++ ys) ≡ (mem x xs || mem x ys)
mem-append x [] ys = refl
mem-append x (y ∷ xs) ys = ground (arith, mem-append x xs ys)

pub mem-dedup : (x : ℕ) (xs : List ℕ) → mem x (dedup xs) ≡ mem x xs
mem-dedup x [] = refl
mem-dedup x (y ∷ ys) = ground (arith, mem-dedup x ys)

pub length-dedup-le : (xs : List ℕ) → length (dedup xs) ≤ length xs
length-dedup-le [] = omega arith
length-dedup-le (x ∷ xs) = ground (arith, length-dedup-le xs)

-- `len(xs) == len(set(xs))` holds only of lists without repetition.
pub dedup-IsUnique : (xs : List ℕ) → length (dedup xs) ≡ length xs → IsUnique xs
dedup-IsUnique [] h = tt
dedup-IsUnique (x ∷ xs) h = ground (arith, length-dedup-le xs, dedup-IsUnique xs)

pub unique_dedup : (xs : List ℕ) → IsUnique xs → length (dedup xs) ≡ length xs
unique_dedup [] h = refl
unique_dedup (x ∷ xs) h = ground (arith, unique_dedup xs)

pub mem→In : (x : ℕ) (xs : List ℕ) → mem x xs ≡ true → In x xs
mem→In x [] h = ground arith
mem→In x (y ∷ ys) h = ground (arith, mem→In x ys)

pub In→mem : (x : ℕ) (xs : List ℕ) → In x xs → mem x xs ≡ true
In→mem x [] h = absurd h
In→mem x (y ∷ ys) (inl e) = ground arith
In→mem x (y ∷ ys) (inr m) = ground (arith, In→mem x ys m)

pub IsUnique-snoc : (xs : List ℕ) (x : ℕ) → IsUnique xs → mem x xs ≡ false → IsUnique (xs ++ x ∷ [])
IsUnique-snoc [] x u h = ground arith
IsUnique-snoc (y ∷ ys) x u h =
    (ground (arith, mem-append y ys (x ∷ [])), IsUnique-snoc ys x u.1 (ground arith))

-- ===== src/Workflow/Bus/Thinned.antt =====
-- Lists of which some items are dropped, and the end of a history (app/workflow/events.py).
use ops_knowledge.Prelude.{
  ℕ, zero, suc, ◌-◌, ◌≤◌, ◌≡◌, refl, sym, subst, true, ltb, List, [], ◌∷◌, ◌++◌, arith, inl, inr,
  Bool-cases, length, drop, take_last, length-append, length-drop,
}
use mathlib.Core.List.{append-nil}
use ops_knowledge.Workflow.Bus.{Event, trimmed}

-- The first list is left of the second when items are dropped and none is moved or repeated.
pub data IsThinned {A : Type 0} : List A → List A → Type 0 where
  empty : IsThinned [] []
  kept : (a : A) {xs ys : List A} → IsThinned xs ys → IsThinned (a ∷ xs) (a ∷ ys)
  dropped : (a : A) {xs ys : List A} → IsThinned xs ys → IsThinned xs (a ∷ ys)

module _ {A : Type 0} where
  pub IsThinned-nil : (ys : List A) → IsThinned [] ys
  IsThinned-nil [] = empty
  IsThinned-nil (y ∷ ys) = dropped y (IsThinned-nil ys)

  pub IsThinned-refl : (ys : List A) → IsThinned ys ys
  IsThinned-refl [] = empty
  IsThinned-refl (y ∷ ys) = kept y (IsThinned-refl ys)

  pub IsThinned-append :
      {xs ys us vs : List A} → IsThinned xs ys → IsThinned us vs → IsThinned (xs ++ us) (ys ++ vs)
  IsThinned-append empty t = t
  IsThinned-append (kept a s) t = kept a (IsThinned-append s t)
  IsThinned-append (dropped a s) t = dropped a (IsThinned-append s t)

  pub IsThinned-drop : (n : ℕ) (ys : List A) → IsThinned (drop n ys) ys
  IsThinned-drop zero ys = IsThinned-refl ys
  IsThinned-drop (suc n) [] = empty
  IsThinned-drop (suc n) (y ∷ ys) = dropped y (IsThinned-drop n ys)

  pub IsThinned-skip : {xs ys : List A} (y : A) → IsThinned xs ys → IsThinned xs (ys ++ y ∷ [])
  IsThinned-skip {xs = xs} {ys = ys} y s =
      subst (λ l. IsThinned l (ys ++ y ∷ [])) (append-nil xs)
        (IsThinned-append s (IsThinned-nil (y ∷ [])))

  -- Trimming after each item is taking the end of the whole.
  pub drop-append : (n : ℕ) (xs ys : List A) → n ≤ length xs → drop n (xs ++ ys) ≡ drop n xs ++ ys
  drop-append zero xs ys h = refl
  drop-append (suc n) [] ys h = absurd (omega arith)
  drop-append (suc n) (x ∷ xs) ys h = drop-append n xs ys (omega arith)

  pub drop-suc : (n : ℕ) (xs : List A) → drop 1 (drop n xs) ≡ drop (suc n) xs
  drop-suc zero xs = refl
  drop-suc (suc n) [] = refl
  drop-suc (suc n) (x ∷ xs) = drop-suc n xs

module _ {D : Type 0} where
  pub trimmed-take_last :
      (n : ℕ) (es : List (Event D)) (ev : Event D)
      → trimmed n (take_last n es ++ ev ∷ []) ≡ take_last n (es ++ ev ∷ [])
  trimmed-take_last n es ev =
      let m = length es - n in
      let whole = length-append es (ev ∷ []) in
      let cut = drop-append m es (ev ∷ []) (omega arith) in
      rw (sym cut) (elim (Bool-cases (ltb (length es) n)) [
        | inl short ↦
            let none_over : length (es ++ ev ∷ []) - n ≡ 0 = ground arith in
            let none_cut : m ≡ 0 = ground arith in rw (none_cut, none_over) (ground arith)
        | inr full ↦
            let over : length (es ++ ev ∷ []) - n ≡ suc m = ground arith in
            let more : length (drop m (es ++ ev ∷ [])) ≡ suc n =
              ground (arith, length-drop m (es ++ ev ∷ [])) in
            let exceeds : ltb n (length (drop m (es ++ ev ∷ []))) ≡ true = ground arith in
            let one : length (drop m (es ++ ev ∷ [])) - n ≡ 1 = omega arith in
            rw (over, exceeds, one) (drop-suc m (es ++ ev ∷ []))
      ])

-- ===== src/Department/Access/Descent.antt =====
-- The downward traversal of app/department/service.py, and the departments below given ones.
use ops_knowledge.Prelude.{
  ℕ, zero, suc, ◌+◌, ◌≤◌, ◌<◌, ◌≡◌, refl, subst, ◌↔◌, inl, inr, true, false, ◌||◌, Option, none,
  some, List, [], ◌∷◌, ◌++◌, arith, mem, In, mem-append, length, Bool-cases, if◌then◌else◌,
}
use ops_knowledge.Prelude.Queries.{select, mem-select, select_row}
use ops_knowledge.Department.Models.{Department, Tables}
use ops_knowledge.Department.Access.{
  parent_in, is_new_child, descend, get_descendant_department_ids,
}

-- The departments at or below `roots`.
pub data Below (depts : List Department) (roots : List ℕ) : ℕ → Type 0 where
  root : {k : ℕ} → mem k roots ≡ true → Below depts roots k
  child :
      {p : ℕ} (d : Department)
      → Below depts roots p
      → In d depts
      → d.parent_department_id ≡ some p
      → Below depts roots d.id

-- How many rows were not met yet.
abbrev unmet : List ℕ → List Department → ℕ
unmet all_ids [] = 0
unmet all_ids (d ∷ ds) = (if mem d.id all_ids then 0 else 1) + unmet all_ids ds

unmet-le-length : (all_ids : List ℕ) (ds : List Department) → unmet all_ids ds ≤ length ds
unmet-le-length all_ids [] = omega arith
unmet-le-length all_ids (d ∷ ds) = ground (arith, unmet-le-length all_ids ds)

unmet-append-le :
    (all_ids more : List ℕ) (ds : List Department) → unmet (all_ids ++ more) ds ≤ unmet all_ids ds
unmet-append-le all_ids more [] = omega arith
unmet-append-le all_ids more (d ∷ ds) =
    ground (arith, mem-append d.id all_ids more, unmet-append-le all_ids more ds)

-- A new identifier among those met leaves fewer rows unmet.
unmet-lt :
    (all_ids more : List ℕ) (d : Department) (ds : List Department)
    → In d ds
    → mem d.id all_ids ≡ false
    → mem d.id more ≡ true
    → unmet (all_ids ++ more) ds < unmet all_ids ds
unmet-lt all_ids more d [] i old new = absurd i
unmet-lt all_ids more d (e ∷ es) (inl same) old new =
    rw (← same) (ground (arith, mem-append d.id all_ids more, unmet-append-le all_ids more es))
unmet-lt all_ids more d (e ∷ es) (inr i) old new =
    ground (arith, mem-append e.id all_ids more, unmet-lt all_ids more d es i old new)

module _ (depts : List Department) where
  abbrev new_children : List ℕ → List ℕ → List ℕ
  new_children all_ids pending = select (λ d. d.id) (is_new_child all_ids pending) depts

  new_children-unmet :
      (all_ids pending : List ℕ) (c : ℕ) (cs : List ℕ)
      → new_children all_ids pending ≡ c ∷ cs
      → unmet (all_ids ++ c ∷ cs) depts < unmet all_ids depts
  new_children-unmet all_ids pending c cs e =
      let first : mem c (new_children all_ids pending) ≡ true = rw e (ground arith) in
      let (d, i, t, same) = select_row (λ d. d.id) (is_new_child all_ids pending) c depts first in
      unmet-lt all_ids (c ∷ cs) d depts i (ground arith) (ground arith)

  descend_total :
      (fuel : ℕ) (all_ids pending : List ℕ)
      → unmet all_ids depts < fuel
      → (ids : List ℕ) × (descend fuel depts all_ids pending ≡ some ids)
  unfolding descend
  descend_total fuel all_ids [] h = (all_ids, refl)
  descend_total zero all_ids (p ∷ ps) h = elim h [ ]
  descend_total (suc fuel) all_ids (p ∷ ps) h =
      go (new_children all_ids (p ∷ ps)) refl (descend_total fuel)
    where
      go :
          (cs : List ℕ)
          → new_children all_ids (p ∷ ps) ≡ cs
          → ((a b : List ℕ)
              → unmet a depts < fuel
              → (ids : List ℕ) × (descend fuel depts a b ≡ some ids))
          → (ids : List ℕ) × (descend fuel depts (all_ids ++ cs) cs ≡ some ids)
      go [] e rec = (all_ids ++ [], refl)
      go (c ∷ cs) e rec =
          rec (all_ids ++ c ∷ cs) (c ∷ cs)
            (omega (arith, new_children-unmet all_ids (p ∷ ps) c cs e))

  -- What is met lies below the roots.
  AllBelow : List ℕ → List ℕ → Type 0
  AllBelow roots ids = (k : ℕ) → mem k ids ≡ true → Below depts roots k

  parent-Below :
      (roots pending : List ℕ) (d : Department)
      → AllBelow roots pending
      → In d depts
      → parent_in pending d ≡ true
      → Below depts roots d.id
  unfolding AllBelow
  parent-Below roots pending d below i h =
      let (p, e, m) = parent_cases d.parent_department_id refl h in child d (below p m) i e
    where
      parent_cases :
          (o : Option ℕ)
          → d.parent_department_id ≡ o
          → parent_in pending d ≡ true
          → (p : ℕ) × (d.parent_department_id ≡ some p) × (mem p pending ≡ true)
      parent_cases none e g = absurd (ground arith)
      parent_cases (some p) e g = (p, e, ground arith)

  new_children-below :
      (roots all_ids pending : List ℕ)
      → AllBelow roots pending
      → AllBelow roots (new_children all_ids pending)
  unfolding AllBelow
  new_children-below roots all_ids pending below k h =
      let (d, i, t, same) = select_row (λ d. d.id) (is_new_child all_ids pending) k depts h in
      subst (Below depts roots) same (parent-Below roots pending d below i (ground arith))

  descend_sound :
      (fuel : ℕ) (roots all_ids pending ids : List ℕ)
      → AllBelow roots all_ids
      → AllBelow roots pending
      → descend fuel depts all_ids pending ≡ some ids
      → AllBelow roots ids
  unfolding descend AllBelow
  descend_sound fuel roots all_ids [] ids met wait e = λ k h. met k (ground arith)
  descend_sound zero roots all_ids (p ∷ ps) ids met wait e = absurd (ground arith)
  descend_sound (suc fuel) roots all_ids (p ∷ ps) ids met wait e =
      let cs = new_children all_ids (p ∷ ps) in
      let below = new_children-below roots all_ids (p ∷ ps) wait in
      descend_sound fuel roots (all_ids ++ cs) cs ids (λ k h. either k (rw mem-append at h) below)
        below e
    where
      either :
          (k : ℕ)
          → (mem k all_ids || mem k (new_children all_ids (p ∷ ps))) ≡ true
          → ((j : ℕ) → mem j (new_children all_ids (p ∷ ps)) ≡ true → Below depts roots j)
          → Below depts roots k
      either k h below = elim (Bool-cases (mem k all_ids)) [
        | inl old ↦ met k old
        | inr new ↦ below k (rw new at h)
      ]

  -- Every child of what is met is met, unless its parent is still pending.
  ClosedBut : List ℕ → List ℕ → Type 0
  ClosedBut all_ids pending =
      (d : Department) (p : ℕ)
      → In d depts
      → d.parent_department_id ≡ some p
      → mem p all_ids ≡ true
      → (mem p pending || mem d.id all_ids) ≡ true

  ClosedBut-step :
      (all_ids pending : List ℕ)
      → ClosedBut all_ids pending
      → ClosedBut (all_ids ++ new_children all_ids pending) (new_children all_ids pending)
  unfolding ClosedBut
  ClosedBut-step all_ids pending closed d p i e m =
      let cs = new_children all_ids pending in
      elim (Bool-cases (mem p cs)) [
        | inl now ↦ rw now
        | inr not_now ↦
            let met : mem p all_ids ≡ true = ground (arith, mem-append p all_ids cs) in
            let new : is_new_child all_ids pending d ≡ true → mem d.id cs ≡ true =
              mem-select (λ d. d.id) (is_new_child all_ids pending) d depts i in
            ground (arith, closed d p i e met, new, mem-append d.id all_ids cs)
      ]

  descend_grows :
      (fuel : ℕ) (all_ids pending ids : List ℕ) (k : ℕ)
      → descend fuel depts all_ids pending ≡ some ids
      → mem k all_ids ≡ true
      → mem k ids ≡ true
  unfolding descend
  descend_grows fuel all_ids [] ids k e m = ground arith
  descend_grows zero all_ids (p ∷ ps) ids k e m = absurd (ground arith)
  descend_grows (suc fuel) all_ids (p ∷ ps) ids k e m =
      let cs = new_children all_ids (p ∷ ps) in
      descend_grows fuel (all_ids ++ cs) cs ids k e (ground (arith, mem-append k all_ids cs))

  descend_closed :
      (fuel : ℕ) (all_ids pending ids : List ℕ)
      → ClosedBut all_ids pending
      → descend fuel depts all_ids pending ≡ some ids
      → ClosedBut ids []
  unfolding descend ClosedBut
  descend_closed fuel all_ids [] ids closed e = λ d p i q m. ground (arith, closed d p i q)
  descend_closed zero all_ids (p ∷ ps) ids closed e = absurd (ground arith)
  descend_closed (suc fuel) all_ids (p ∷ ps) ids closed e =
      descend_closed fuel _ _ ids (ClosedBut-step all_ids (p ∷ ps) closed) e

  closed_complete :
      (roots ids : List ℕ) {k : ℕ}
      → ((j : ℕ) → mem j roots ≡ true → mem j ids ≡ true)
      → ClosedBut ids []
      → Below depts roots k
      → mem k ids ≡ true
  unfolding ClosedBut
  closed_complete roots ids {k} start closed (root m) = start k m
  closed_complete roots ids start closed (child {p = p} d b i e) =
      closed d p i e (closed_complete roots ids start closed b)

-- The loop ends for any departments, cyclic parent links included, within the fuel given.
pub get_descendants_total :
    (dept_ids : List ℕ) (t : Tables)
    → (ids : List ℕ) × (get_descendant_department_ids dept_ids t ≡ some ids)
unfolding get_descendant_department_ids
get_descendants_total dept_ids t =
    descend_total t.departments (length t.departments + 1) dept_ids dept_ids
      (omega (arith, unmet-le-length dept_ids t.departments))

-- What is returned is what is below.
pub found-Below :
    (dept_ids ids : List ℕ) (t : Tables) (k : ℕ)
    → get_descendant_department_ids dept_ids t ≡ some ids
    → (mem k ids ≡ true) ↔ Below t.departments dept_ids k
unfolding get_descendant_department_ids AllBelow ClosedBut
found-Below dept_ids ids t k e =
    let fuel = length t.departments + 1 in
    (
      descend_sound t.departments fuel dept_ids dept_ids dept_ids ids (λ j m. root m)
          (λ j m. root m) e k,
      closed_complete t.departments dept_ids ids
          (λ j m. descend_grows t.departments fuel dept_ids dept_ids ids j e m)
          (descend_closed t.departments fuel dept_ids dept_ids ids (λ d p i q m. ground arith) e),
    )

-- The traversal ends within the fuel for any departments, cyclic parent links included, and the ids
-- that it returns are those of the given departments and of all departments below them, and no
-- others.
pub get_descendants_exact :
    (dept_ids : List ℕ) (t : Tables)
    → (ids : List ℕ) × (get_descendant_department_ids dept_ids t ≡ some ids)
      × ((k : ℕ) → (mem k ids ≡ true) ↔ Below t.departments dept_ids k)
get_descendants_exact dept_ids t =
    let (ids, found) = get_descendants_total dept_ids t in
    (ids, found, λ k. found-Below dept_ids ids t k found)

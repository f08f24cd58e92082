-- ===== src/Department/Access/Levels.antt =====
-- The level that app/department/service.py grants, and the shares with the departments of the user
-- and with those below them.
use text.Mathlib.Text.{◌==◌ as str_eq}
use text.Mathlib.TextEquality.{eq_iff}
use ops_knowledge.Prelude.{
  ℕ, ◌≤◌, ◌≡◌, refl, Bool, true, false, ◌&&◌, if◌then◌else◌, Option, none, some, List, [], ◌∷◌,
  arith, String, In, Bool-cases, inl, inr,
}
use ops_knowledge.Prelude.Queries.{any_of, any_row}
use ops_knowledge.Department.Models.{user, Department, DepartmentResource, Tables}
use ops_knowledge.Department.Access.{
  get_user_department_ids, get_descendant_department_ids, is_shared, has_level, highest, priority,
  is_creator, check_resource_access,
}
use ops_knowledge.Department.Access.Descent.{Below, root, child, found-Below, get_descendants_total}

-- The place of a level among those that the code knows, the highest first.
abbrev pub rank : String → ℕ
rank s =
    if str_eq "full" s
    then 0
    else if str_eq "edit" s
    then 1
    else if str_eq "use" s
    then 2
    else if str_eq "view" s
    then 3
    else 4

-- The resource is shared by `row` with a department at or below one of the user's.
pub record Reaches (user_id : ℕ) (resource_type : String) (resource_id : ℕ) (t : Tables)
    (row : DepartmentResource) : Type 0 where
  pub listed : In row t.resources
  pub below : Below t.departments (get_user_department_ids user_id t) row.department_id
  pub same_type : row.resource_type ≡ resource_type
  pub same_id : row.resource_id ≡ resource_id

-- A granted level is that of a row, and no row has a higher one; None is the answer where no row
-- has a level that the code knows.
abbrev pub IsHighest : (DepartmentResource → Type 0) → Option String → Type 0
IsHighest R none = (row : DepartmentResource) → R row → rank row.access_level ≡ 4
IsHighest R (some l) =
    ((row : DepartmentResource) × R row × (row.access_level ≡ l))
    × ((row : DepartmentResource) → R row → rank l ≤ rank row.access_level)

module _ (test : DepartmentResource → Bool) (rows : List DepartmentResource) where
  unfoldable pub Passes : DepartmentResource → Type 0
  Passes row = In row rows × (test row ≡ true)

  pub absent :
      (l : String) (row : DepartmentResource)
      → Passes row
      → has_level l test rows ≡ false
      → str_eq l row.access_level ≡ false
  unfolding Passes
  absent l row (i, t) h = elim (Bool-cases (str_eq l row.access_level)) [
    | inr f ↦ f
    | inl e ↦ ground (arith, any_of (λ r. test r && str_eq l r.access_level) row rows i (rw (t, e)))
  ]

  pub present :
      (l : String)
      → has_level l test rows ≡ true
      → (row : DepartmentResource) × Passes row × (row.access_level ≡ l)
  unfolding Passes
  present l h =
      let (row, i, t) = any_row (λ r. test r && str_eq l r.access_level) rows h in
      (row, (i, ground arith), ground (arith, eq_iff l row.access_level))

  -- The four tests in their order.
  pub highest-IsHighest : IsHighest Passes (highest (λ l. has_level l test rows) priority)
  highest-IsHighest = elim (Bool-cases (has_level "full" test rows)) [
    | inl f ↦ rw f (present "full" f, λ row p. ground arith)
    | inr nf ↦ elim (Bool-cases (has_level "edit" test rows)) [
      | inl e ↦ rw (nf, e) (present "edit" e, λ row p. ground (arith, absent "full" row p nf))
      | inr ne ↦ elim (Bool-cases (has_level "use" test rows)) [
        | inl u ↦
            rw (nf, ne, u)
              (
                present "use" u,
                λ row p. ground (arith, absent "full" row p nf, absent "edit" row p ne),
              )
        | inr nu ↦ elim (Bool-cases (has_level "view" test rows)) [
          | inl v ↦
              rw (nf, ne, nu, v)
                (
                  present "view" v,
                  λ row p. ground (
                    arith,
                    absent "full" row p nf,
                    absent "edit" row p ne,
                    absent "use" row p nu,
                  ),
                )
          | inr nv ↦
              rw (nf, ne, nu, nv)
                (λ row p. ground (
                  arith,
                  absent "full" row p nf,
                  absent "edit" row p ne,
                  absent "use" row p nu,
                  absent "view" row p nv,
                ))
        ]
      ]
    ]
  ]

pub Below-nothing : {ds : List Department} {k : ℕ} → Below ds [] k → ⊥
Below-nothing (root m) = ground arith
Below-nothing (child d b i e) = Below-nothing b

pub IsHighest-map :
    (R S : DepartmentResource → Type 0)
    → ((row : DepartmentResource) → R row → S row)
    → ((row : DepartmentResource) → S row → R row)
    → (o : Option String) → IsHighest R o
    → IsHighest S o
IsHighest-map R S to back none h = λ row s. h row (back row s)
IsHighest-map R S to back (some l) ((row, r, e), top) =
    ((row, to row r, e), λ row' s. top row' (back row' s))

module _ (user_id : ℕ) (resource_type : String) (resource_id : ℕ) (t : Tables) where
  -- A row passes the query's test when it shares the resource with a department at or below one
  -- of the user's.
  pub Passes-Reaches :
      (ids : List ℕ)
      → get_descendant_department_ids (get_user_department_ids user_id t) t ≡ some ids
      → (row : DepartmentResource)
      → Passes (is_shared ids resource_type resource_id) t.resources row
      → Reaches user_id resource_type resource_id t row
  unfolding Passes
  Passes-Reaches ids e row (i, p) = record {
    listed = i;
    below =
        (found-Below (get_user_department_ids user_id t) ids t row.department_id e).0
          (ground arith);
    same_type = (eq_iff row.resource_type resource_type).0 (ground arith);
    same_id = ground arith;
  }

  pub Reaches-Passes :
      (ids : List ℕ)
      → get_descendant_department_ids (get_user_department_ids user_id t) t ≡ some ids
      → (row : DepartmentResource) → Reaches user_id resource_type resource_id t row
      → Passes (is_shared ids resource_type resource_id) t.resources row
  unfolding Passes
  Reaches-Passes ids e row r =
      let met =
        (found-Below (get_user_department_ids user_id t) ids t row.department_id e).1 r.below in
      let same_type = (eq_iff row.resource_type resource_type).1 r.same_type in
      (r.listed, ground (arith, r.same_id))

-- The answer for a user who is neither an administrator nor the creator: it is given, a granted
-- level is that of a share with a department at or below one of the user's and no such share has
-- a higher level, and None is the answer only where no such share has a known level.
pub check_resource_access-IsHighest :
    (user_id : ℕ) (resource_type : String) (resource_id : ℕ) (created_by : Option ℕ) (t : Tables)
    → is_creator user_id created_by ≡ false
    → (answer : Option String) × (check_resource_access user_id user resource_type resource_id
          created_by t
        ≡ some answer)
      × IsHighest (Reaches user_id resource_type resource_id t) answer
unfolding check_resource_access
check_resource_access-IsHighest user_id resource_type resource_id created_by t stranger =
    let (all_ids, found) = get_descendants_total (get_user_department_ids user_id t) t in
    rw stranger (go (get_user_department_ids user_id t) refl all_ids found)
  where
    Answer : List ℕ → Type 0
    Answer dept_ids =
        (answer : Option String) × ((elim dept_ids [
          | [] ↦ some none
          | d ∷ ds ↦ elim (get_descendant_department_ids (d ∷ ds) t) [
            | none ↦ none
            | some ids ↦ some (
                highest (λ l. has_level l (is_shared ids resource_type resource_id) t.resources)
                  priority)
          ]
        ])
          ≡ some answer)
        × IsHighest (Reaches user_id resource_type resource_id t) answer

    go :
        (dept_ids : List ℕ)
        → get_user_department_ids user_id t ≡ dept_ids
        → (ids : List ℕ)
        → get_descendant_department_ids (get_user_department_ids user_id t) t ≡ some ids
        → Answer dept_ids
    go [] e ids found = (none, refl, λ row r. absurd (Below-nothing (rw e at r.below)))
    go (d ∷ ds) e ids found =
        let test = is_shared ids resource_type resource_id in
        (
          highest (λ l. has_level l test t.resources) priority,
          rw (rw e at found),
          IsHighest-map (Passes test t.resources) _
              (Passes-Reaches user_id resource_type resource_id t ids found)
              (Reaches-Passes user_id resource_type resource_id t ids found) _
              (highest-IsHighest test t.resources),
        )

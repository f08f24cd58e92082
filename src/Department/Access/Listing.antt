-- ===== src/Department/Access/Listing.antt =====
-- Which resources `get_accessible_resource_ids` of app/department/service.py lists.
use text.Mathlib.Text.{◌==◌ as str_eq}
use ops_knowledge.Prelude.{
  ℕ, ◌≡◌, refl, subst, ◌↔◌, Bool, true, ◌&&◌, none, some, List, [], ◌∷◌, arith, String, mem,
}
use ops_knowledge.Prelude.Queries.{select, select_row, mem-select}
use ops_knowledge.Department.Models.{DepartmentResource, Tables}
use ops_knowledge.Department.Access.{
  get_user_department_ids, get_descendant_department_ids, get_accessible_resource_ids,
}
use ops_knowledge.Department.Access.Descent.{get_descendants_total}
use ops_knowledge.Department.Access.Levels.{
  Reaches, Passes, Below-nothing, Passes-Reaches, Reaches-Passes,
}

abbrev is_of_type : List ℕ → String → DepartmentResource → Bool
is_of_type ids resource_type r = mem r.department_id ids && str_eq r.resource_type resource_type

module _ (user_id : ℕ) (resource_type : String) (resource_id : ℕ) (t : Tables) (ids : List ℕ)
    (found : get_descendant_department_ids (get_user_department_ids user_id t) t ≡ some ids) where
  typed-Reaches :
      mem resource_id (select (λ r. r.resource_id) (is_of_type ids resource_type) t.resources)
        ≡ true
      → (row : DepartmentResource) × Reaches user_id resource_type resource_id t row
  typed-Reaches h =
      let (row, i, p, same) =
        select_row (λ r. r.resource_id) (is_of_type ids resource_type) resource_id t.resources h in
      (
        row,
        Passes-Reaches user_id resource_type resource_id t ids found row
            (unfold Passes in (i, ground arith)),
      )

  Reaches-typed :
      (row : DepartmentResource)
      → Reaches user_id resource_type resource_id t row
      → mem resource_id (select (λ r. r.resource_id) (is_of_type ids resource_type) t.resources)
        ≡ true
  unfolding Passes
  Reaches-typed row r =
      let (i, p) = Reaches-Passes user_id resource_type resource_id t ids found row r in
      subst
        (λ k. mem k (select (λ r. r.resource_id) (is_of_type ids resource_type) t.resources) ≡ true)
        r.same_id
        (mem-select (λ r. r.resource_id) (is_of_type ids resource_type) row t.resources i
          (ground arith))

-- The list of accessible resources is given, and it holds exactly the resources of the type that
-- are shared with a department at or below one of the user's.
pub accessible_exact :
    (user_id : ℕ) (resource_type : String) (t : Tables)
    → (ids : List ℕ) × (get_accessible_resource_ids user_id resource_type t ≡ some ids)
      × ((resource_id : ℕ)
          → (mem resource_id ids ≡ true)
            ↔ ((row : DepartmentResource) × Reaches user_id resource_type resource_id t row))
unfolding get_accessible_resource_ids
accessible_exact user_id resource_type t =
    let (all_ids, found) = get_descendants_total (get_user_department_ids user_id t) t in
    go (get_user_department_ids user_id t) refl all_ids found
  where
    go :
        (dept_ids : List ℕ)
        → get_user_department_ids user_id t ≡ dept_ids
        → (below : List ℕ)
        → get_descendant_department_ids (get_user_department_ids user_id t) t ≡ some below
        → (ids : List ℕ) × ((elim dept_ids [
          | [] ↦ some []
          | d ∷ ds ↦ elim (get_descendant_department_ids (d ∷ ds) t) [
            | none ↦ none
            | some all_ids ↦ some (
                select
                  (λ r. r.resource_id)
                  (λ r. mem r.department_id all_ids && str_eq r.resource_type resource_type)
                  t.resources)
          ]
        ])
            ≡ some ids)
          × ((resource_id : ℕ)
              → (mem resource_id ids ≡ true)
                ↔ ((row : DepartmentResource) × Reaches user_id resource_type resource_id t row))
    go [] e below found = (
      [],
      refl,
      λ k. (λ h. absurd (ground arith), λ (row, r). absurd (Below-nothing (rw e at r.below))),
    )
    go (d ∷ ds) e below found = (
      select (λ r. r.resource_id) (is_of_type below resource_type) t.resources,
      rw (rw e at found),
      λ k. (
        typed-Reaches user_id resource_type k t below found,
        λ (row, r). Reaches-typed user_id resource_type k t below found row r,
      ),
    )

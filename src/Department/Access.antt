-- ===== src/Department/Access.antt =====
-- The access control of `DepartmentService` (app/department/service.py): the departments below
-- given ones, and the level at which a user reaches a resource.
pub mod Listing
pub mod Descent
pub mod Levels
use text.Mathlib.Text.{◌==◌ as str_eq}
use ops_knowledge.Prelude.{
  ℕ, zero, suc, ◌+◌, Bool, true, false, not, ◌&&◌, ◌||◌, ◌==◌, if◌then◌else◌, Option, none, some,
  List, [], ◌∷◌, ◌++◌, String, mem, any, length,
}
use ops_knowledge.Prelude.Queries.{select}
use ops_knowledge.Department.Models.{
  UserRole, is_system_admin, Department, UserDepartment, DepartmentResource, Tables,
}

unfoldable pub get_user_department_ids : ℕ → Tables → List ℕ
get_user_department_ids user_id t =
    select (λ m. m.department_id) (λ m. m.user_id == user_id) t.members

abbrev pub parent_in : List ℕ → Department → Bool
parent_in pending d = elim d.parent_department_id [ none ↦ false | some p ↦ mem p pending ]

-- The rows whose parent is pending and that were not met before.
abbrev pub is_new_child : List ℕ → List ℕ → Department → Bool
is_new_child all_ids pending d = parent_in pending d && not (mem d.id all_ids)

-- The `while` loop, one unit of fuel for each round.
pub descend : ℕ → List Department → List ℕ → List ℕ → Option (List ℕ)
descend fuel depts all_ids [] = some all_ids
descend zero depts all_ids (p ∷ ps) = none
descend (suc fuel) depts all_ids (p ∷ ps) =
    let children = select (λ d. d.id) (is_new_child all_ids (p ∷ ps)) depts in
    descend fuel depts (all_ids ++ children) children

-- Each round but the last meets a department that was not met before.
unfoldable pub get_descendant_department_ids : List ℕ → Tables → Option (List ℕ)
unfolding descend
get_descendant_department_ids dept_ids t =
    descend (length t.departments + 1) t.departments dept_ids dept_ids

abbrev pub is_shared : List ℕ → String → ℕ → DepartmentResource → Bool
is_shared dept_ids resource_type resource_id r =
    mem r.department_id dept_ids
    && (str_eq r.resource_type resource_type)
    && (r.resource_id == resource_id)

abbrev pub has_level : String → (DepartmentResource → Bool) → List DepartmentResource → Bool
has_level level test rows = any (λ r. test r && str_eq level r.access_level) rows

abbrev pub highest : (String → Bool) → List String → Option String
highest has [] = none
highest has (l ∷ ls) = if has l then some l else highest has ls

abbrev pub priority : List String
priority = "full" ∷ "edit" ∷ "use" ∷ "view" ∷ []

abbrev pub is_creator : ℕ → Option ℕ → Bool
is_creator user_id none = false
is_creator user_id (some c) = c == user_id

-- `none` outside is the loop of the model out of fuel; inside it is the answer None.
unfoldable pub check_resource_access :
    ℕ → UserRole → String → ℕ → Option ℕ → Tables → Option (Option String)
unfolding get_user_department_ids get_descendant_department_ids
check_resource_access user_id user_role resource_type resource_id created_by t =
    if is_system_admin user_role
    then some (some "full")
    else if is_creator user_id created_by
    then some (some "full")
    else elim (get_user_department_ids user_id t) [
      | [] ↦ some none
      | d ∷ ds ↦ elim (get_descendant_department_ids (d ∷ ds) t) [
        | none ↦ none
        | some ids ↦ some (
            highest (λ l. has_level l (is_shared ids resource_type resource_id) t.resources)
              priority)
      ]
    ]

unfoldable pub get_accessible_resource_ids : ℕ → String → Tables → Option (List ℕ)
unfolding get_user_department_ids get_descendant_department_ids
get_accessible_resource_ids user_id resource_type t = elim (get_user_department_ids user_id t) [
  | [] ↦ some []
  | d ∷ ds ↦ elim (get_descendant_department_ids (d ∷ ds) t) [
    | none ↦ none
    | some ids ↦ some (
        select (λ r. r.resource_id)
          (λ r. mem r.department_id ids && str_eq r.resource_type resource_type) t.resources)
  ]
]

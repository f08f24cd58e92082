-- ===== src/Examples/Departments.antt =====
-- Tests and instances for app/department/service.py.
use ops_knowledge.Prelude.{
  ℕ, ◌≡◌, refl, ◌↔◌, false, true, Option, none, some, List, [], ◌∷◌, String, mem, Bool, leb, arith,
}
use mathlib.Core.List.{Perm}
use ops_knowledge.Prelude.Texts.{Text, text_eq}
use ops_knowledge.Prelude.Results.{err}
use ops_knowledge.Department.Models.{user, viewer, editor, Department, DepartmentResource, Tables}
use ops_knowledge.Department.Service.{
  children_of, delete_department, get_department_tree, has_children, find_department,
  ensure_user_membership, multiple_results_found,
}
use ops_knowledge.Department.Access.{
  get_descendant_department_ids, check_resource_access, get_accessible_resource_ids,
}
use ops_knowledge.Department.Access.Descent.{Below, get_descendants_exact}
use ops_knowledge.Prelude.Queries.{select}
use ops_knowledge.Department.Service.Tree.{
  IsOrdered, is_root, listed_under, get_department_tree_exact,
}
use ops_knowledge.Department.Access.Levels.{Reaches, IsHighest, check_resource_access-IsHighest}
use ops_knowledge.Department.Access.Listing.{accessible_exact}
use ops_knowledge.Department.Integrity.{IsConsistent}
use ops_knowledge.Department.Membership.{
  Call, create, delete, add, ensure, share, apply_all, apply_all-IsConsistent,
}

abbrev dept : ℕ → Option ℕ → Department
dept k parent = record { id = k; name = k ∷ []; description = none; parent_department_id = parent }

abbrev shared_kb : ℕ → String → DepartmentResource
shared_kb k level = record {
  department_id = k;
  resource_type = "knowledge_base";
  resource_id = 50;
  access_level = level;
  shared_by = none;
}

-- A chain of three departments, a loop of two, and a member of the topmost.
abbrev sample : Tables
sample = record {
  users = record { id = 7; role = user } ∷ [];
  departments =
      dept 1 none ∷ dept 2 (some 1) ∷ dept 3 (some 2) ∷ dept 8 (some 9) ∷ dept 9 (some 8) ∷ [];
  members = record { user_id = 7; department_id = 1; role = viewer; is_primary = true } ∷ [];
  resources = shared_kb 3 "use" ∷ shared_kb 2 "edit" ∷ shared_kb 8 "full" ∷ [];
}

below_first : get_descendant_department_ids (1 ∷ []) sample ≡ some (1 ∷ 2 ∷ 3 ∷ [])
unfolding get_descendant_department_ids
below_first = refl

below_loop : get_descendant_department_ids (8 ∷ []) sample ≡ some (8 ∷ 9 ∷ [])
unfolding get_descendant_department_ids
below_loop = refl

edit_granted : check_resource_access 7 user "knowledge_base" 50 none sample ≡ some (some "edit")
unfolding check_resource_access
edit_granted = refl

-- The names are compared by their first character.
abbrev name_le : Text → Text → Bool
name_le [] b = true
name_le (x ∷ a) [] = false
name_le (x ∷ a) (y ∷ b) = leb x y

abbrev teams : Tables
teams = record sample {
  departments = dept 3 (some 1) ∷ dept 2 (some 1) ∷ dept 1 none ∷ dept 4 (some 2) ∷ [];
}

tree_by_name :
    get_department_tree name_le teams
    ≡ record { roots = 1 ∷ []; children = (1, 2 ∷ 3 ∷ []) ∷ (2, 4 ∷ []) ∷ [] }
unfolding get_department_tree
tree_by_name = refl

-- A share with the parent of the member's department gives nothing.
parent_share_ignored :
    check_resource_access 7 user "knowledge_base" 50 none (record sample {
      members = record { user_id = 7; department_id = 2; role = editor; is_primary = false } ∷ [];
      resources = shared_kb 1 "edit" ∷ [];
    })
    ≡ some none
unfolding check_resource_access
parent_share_ignored = refl

same_name_raises :
    ensure_user_membership 20 7
      (1 ∷ [])
      (record sample { departments = dept 1 none ∷ record (dept 2 none) { name = 1 ∷ [] } ∷ [] })
    ≡ err multiple_results_found
unfolding ensure_user_membership text_eq
same_name_raises = refl

parent_kept : delete_department 2 sample ≡ err has_children
unfolding delete_department find_department
parent_kept = refl

get_descendants_exact_example :
    (ids : List ℕ) × (get_descendant_department_ids (8 ∷ []) sample ≡ some ids)
    × ((k : ℕ) → (mem k ids ≡ true) ↔ Below sample.departments (8 ∷ []) k)
get_descendants_exact_example = get_descendants_exact (8 ∷ []) sample

check_resource_access-IsHighest_example :
    (answer : Option String) × (check_resource_access 7 user "knowledge_base" 50 none sample
      ≡ some answer)
    × IsHighest (Reaches 7 "knowledge_base" 50 sample) answer
check_resource_access-IsHighest_example =
    check_resource_access-IsHighest 7 "knowledge_base" 50 none sample refl

accessible_exact_example :
    (ids : List ℕ) × (get_accessible_resource_ids 7 "knowledge_base" sample ≡ some ids)
    × ((resource_id : ℕ)
        → (mem resource_id ids ≡ true)
          ↔ ((row : DepartmentResource) × Reaches 7 "knowledge_base" resource_id sample row))
accessible_exact_example = accessible_exact 7 "knowledge_base" sample

abbrev empty : Tables
empty = record {
  users = record { id = 7; role = user } ∷ record { id = 8; role = user } ∷ [];
  departments = [];
  members = [];
  resources = [];
}

empty-IsConsistent : IsConsistent empty
empty-IsConsistent = record {
  parents = λ d i. absurd i;
  member_departments = λ m i. absurd i;
  member_users = λ m i. absurd i;
  share_departments = λ r i. absurd i;
  sharers = λ r k i. absurd i;
}

abbrev calls : List Call
calls =
    create 1 (5 ∷ []) none none
    ∷ create 2 (6 ∷ []) none (some 1)
    ∷ add 2 7 viewer false
    ∷ ensure 3 8 (6 ∷ [])
    ∷ share 2 "knowledge_base" 50 "use" 7
    ∷ delete 1
    ∷ delete 2
    ∷ []

apply_all-IsConsistent_example : IsConsistent (apply_all calls empty)
apply_all-IsConsistent_example = apply_all-IsConsistent calls empty empty-IsConsistent

name_le-total : (a b : Text) → name_le a b ≡ false → name_le b a ≡ true
name_le-total [] b h = absurd (ground arith)
name_le-total (x ∷ a) [] h = refl
name_le-total (x ∷ a) (y ∷ b) h = ground arith

name_le-transitive : (a b c : Text) → name_le a b ≡ true → name_le b c ≡ true → name_le a c ≡ true
name_le-transitive [] b c h k = refl
name_le-transitive (x ∷ a) [] c h k = absurd (ground arith)
name_le-transitive (x ∷ a) (y ∷ b) [] h k = absurd (ground arith)
name_le-transitive (x ∷ a) (y ∷ b) (z ∷ c) h k = ground arith

get_department_tree_exact_example :
    (ds : List Department) × Perm ds teams.departments
    × IsOrdered name_le ds
    × ((get_department_tree name_le teams).roots ≡ select (λ d. d.id) (is_root ds) ds)
    × ((p : ℕ) → children_of (get_department_tree name_le teams).children p ≡ listed_under ds p ds)
get_department_tree_exact_example =
    get_department_tree_exact name_le name_le-total name_le-transitive teams

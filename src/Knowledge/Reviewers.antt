-- ===== src/Knowledge/Reviewers.antt =====
-- Who may review the units of a knowledge base: app/knowledge/review/reviewers.py.
pub mod Agreement
use text.Mathlib.Text.{◌==◌ as str_eq}
use ops_knowledge.Prelude.{
  ℕ, Bool, true, false, not, ◌&&◌, ◌==◌, if◌then◌else◌, Option, none, some, List, [], ◌∷◌, ◌++◌,
  mem, keep, dedup,
}
use ops_knowledge.Prelude.Queries.{select}
use ops_knowledge.Department.Models.{
  UserRole, is_system_admin, is_dept_admin, User, UserDepartment, DepartmentResource,
}

-- The fields of a knowledge base that reviews read.
pub record KnowledgeBase : Type 0 where
  pub id : ℕ
  pub name : List ℕ
  pub review_required : Bool
  pub created_by : ℕ

-- The tables that the queries read.
pub record Directory : Type 0 where
  pub users : List User
  pub members : List UserDepartment
  pub resources : List DepartmentResource
  pub knowledge_bases : List KnowledgeBase

abbrev pub shares_kb : ℕ → DepartmentResource → Bool
shares_kb kb_id r = str_eq r.resource_type "knowledge_base" && (r.resource_id == kb_id)

abbrev pub shared_dept_ids : Directory → KnowledgeBase → List ℕ
shared_dept_ids dir kb =
    select (λ r. r.department_id) (shares_kb kb.id) dir.resources
    ++ select (λ m. m.department_id) (λ m. m.user_id == kb.created_by) dir.members

abbrev pub administers : List ℕ → UserDepartment → Bool
administers dept_ids m = mem m.department_id dept_ids && is_dept_admin m.role

-- The sets of the code, in the order of the rows: the code's order is that of a Python set.
unfoldable pub get_candidate_reviewers : Directory → KnowledgeBase → List ℕ → List ℕ
get_candidate_reviewers dir kb exclude =
    let depts = shared_dept_ids dir kb in
    let candidates =
      select (λ m. m.user_id) (administers depts) dir.members
      ++ select (λ u. u.id) (λ u. is_system_admin u.role) dir.users in
    keep (λ uid. not (mem uid exclude)) (dedup candidates)

unfoldable pub is_user_reviewer_for_kb : Directory → User → KnowledgeBase → Bool
unfolding get_candidate_reviewers
is_user_reviewer_for_kb dir user kb =
    if is_system_admin user.role then true else mem user.id (get_candidate_reviewers dir kb [])

abbrev pub administered_by : ℕ → UserDepartment → Bool
administered_by user_id m = (m.user_id == user_id) && is_dept_admin m.role

abbrev pub reviewable : Directory → List ℕ → List ℕ
reviewable dir dept_ids =
    let kb_ids_shared =
      select (λ r. r.resource_id)
        (λ r. str_eq r.resource_type "knowledge_base" && mem r.department_id dept_ids)
        dir.resources in
    let same_dept_users = select (λ m. m.user_id) (λ m. mem m.department_id dept_ids) dir.members in
    let kb_ids_owned =
      select (λ k. k.id) (λ k. mem k.created_by same_dept_users) dir.knowledge_bases in
    dedup (kb_ids_shared ++ kb_ids_owned)

-- None stands for every knowledge base.
unfoldable pub kb_ids_user_can_review : Directory → User → Option (List ℕ)
kb_ids_user_can_review dir user =
    if is_system_admin user.role
    then none
    else elim (select (λ m. m.department_id) (administered_by user.id) dir.members) [
      | [] ↦ some []
      | d ∷ ds ↦ some (reviewable dir (d ∷ ds))
    ]

-- ===== src/Department/Service.antt =====
-- The methods of `DepartmentService` (app/department/service.py) that read and write the tables.
-- A foreign key, a unique pair or a NOT NULL that a flush would break is the error `integrity`; a
-- raise leaves the tables as they were. The lengths that the schemas ask of a name are checked where
-- the service itself builds a schema. `name_le` is the collation of the database.
pub mod Tree
use text.Mathlib.Text.{◌==◌ as str_eq}
use ops_knowledge.Prelude.{
  ℕ, Bool, true, false, not, ◌&&◌, ◌==◌, if◌then◌else◌, Option, none, some, List, [], ◌∷◌, ◌++◌,
  String, mem, any, keep, leb, length,
}
use ops_knowledge.Prelude.Dict.{Dict, lookup, insert}
use ops_knowledge.Prelude.Queries.{select}
use ops_knowledge.Prelude.Results.{Result, ok, err, ◌>>=◌}
use ops_knowledge.Prelude.Texts.{Text, text_eq}
use ops_knowledge.Department.Models.{
  DepartmentRole, viewer, User, Department, UserDepartment, DepartmentResource, Tables,
}

pub data ServiceError : Type 0 where
  department_not_found has_children member_not_found integrity : ServiceError
  -- `scalar_one_or_none` on several rows, and a name that `DepartmentCreate` refuses.
  multiple_results_found invalid_name : ServiceError

-- db.get(Department, id)
unfoldable pub find_department : ℕ → List Department → Option Department
find_department k [] = none
find_department k (d ∷ ds) = if d.id == k then some d else find_department k ds

abbrev pub department_ids : List Department → List ℕ
department_ids = select (λ d. d.id) (λ d. true)

abbrev pub user_ids : List User → List ℕ
user_ids = select (λ u. u.id) (λ u. true)

-- The foreign key of `parent_department_id`.
abbrev pub parent_exists : Option ℕ → List Department → Bool
parent_exists none ds = true
parent_exists (some p) ds = mem p (department_ids ds)

-- `fresh` is the new row's uuid.
unfoldable pub create_department :
    ℕ → Text → Option Text → Option ℕ → Tables → Result ServiceError (Department × Tables)
create_department fresh name description parent t =
    let dept : Department = record {
      id = fresh;
      name = name;
      description = description;
      parent_department_id = parent;
    } in
    if parent_exists parent (dept ∷ t.departments)
    then ok (dept, record t { departments = t.departments ++ dept ∷ [] })
    else err integrity

-- The fields of `DepartmentUpdate` that were set; each may be set to null.
pub record DepartmentUpdate : Type 0 where
  pub name : Option (Option Text)
  pub description : Option (Option Text)

abbrev pub or_else {ℓ} : {A : Type ℓ} → Option A → A → A
or_else none a = a
or_else (some b) a = b

-- A name of null breaks the NOT NULL of the column.
abbrev pub new_name : Option (Option Text) → Text → Result ServiceError Text
new_name none name = ok name
new_name (some none) name = err integrity
new_name (some (some new)) name = ok new

abbrev pub updated : DepartmentUpdate → Text → Department → Department
updated u name d = record d { name = name; description = or_else u.description d.description }

-- The row with the id of `d` becomes `d`.
abbrev pub replace : Department → List Department → List Department
replace d [] = []
replace d (e ∷ es) = (if e.id == d.id then d else e) ∷ replace d es

abbrev pub found_or_error {ℓ} : {A : Type ℓ} → ServiceError → Option A → Result ServiceError A
found_or_error e none = err e
found_or_error e (some a) = ok a

unfoldable pub update_department :
    ℕ → DepartmentUpdate → Tables → Result ServiceError (Department × Tables)
update_department dept_id u t = do
  d ← found_or_error department_not_found (find_department dept_id t.departments)
  name ← new_name u.name d.name
  ok (updated u name d, record t { departments = replace (updated u name d) t.departments })

abbrev pub is_child_of : ℕ → Department → Bool
is_child_of k d = elim d.parent_department_id [ none ↦ false | some p ↦ p == k ]

-- The delete cascades to the members and the shared resources of the department.
unfoldable pub delete_department : ℕ → Tables → Result ServiceError Tables
delete_department dept_id t = elim (find_department dept_id t.departments) [
  | none ↦ err department_not_found
  | some d ↦
      if any (is_child_of dept_id) t.departments
      then err has_children
      else ok (record {
        users = t.users;
        departments = keep (λ e. not (e.id == dept_id)) t.departments;
        members = keep (λ m. not (m.department_id == dept_id)) t.members;
        resources = keep (λ r. not (r.department_id == dept_id)) t.resources;
      })
]

abbrev pub is_member : ℕ → ℕ → UserDepartment → Bool
is_member dept_id user_id m = (m.department_id == dept_id) && (m.user_id == user_id)

-- The user and the department must exist, and their pair is unique.
unfoldable pub add_member :
    ℕ → ℕ → DepartmentRole → Bool → Tables → Result ServiceError (UserDepartment × Tables)
add_member dept_id user_id role is_primary t =
    let member : UserDepartment = record {
      user_id = user_id;
      department_id = dept_id;
      role = role;
      is_primary = is_primary;
    } in
    if mem dept_id (department_ids t.departments)
      && mem user_id (user_ids t.users)
      && not (any (is_member dept_id user_id) t.members)
    then ok (member, record t { members = t.members ++ member ∷ [] })
    else err integrity

unfoldable pub find_member : ℕ → ℕ → List UserDepartment → Option UserDepartment
find_member dept_id user_id [] = none
find_member dept_id user_id (m ∷ ms) =
    if is_member dept_id user_id m then some m else find_member dept_id user_id ms

-- scalar_one_or_none()
abbrev pub one_or_none {ℓ} : {A : Type ℓ} → List A → Result ServiceError (Option A)
one_or_none [] = ok none
one_or_none (a ∷ []) = ok (some a)
one_or_none (a ∷ b ∷ rest) = err multiple_results_found

-- What `DepartmentCreate` asks of a name.
abbrev pub is_name : Text → Bool
is_name name = leb 1 (length name) && leb (length name) 100

abbrev pub found_or_created :
    ℕ → Text → Tables → Option Department → Result ServiceError (Department × Tables)
found_or_created fresh dept_name t (some dept) = ok (dept, t)
found_or_created fresh dept_name t none =
    let created = create_department fresh dept_name none none t in
    if is_name dept_name then created else err invalid_name

abbrev pub member_or_added :
    ℕ → Department × Tables → Option UserDepartment → Result ServiceError (UserDepartment × Tables)
member_or_added user_id (dept, t) (some existing) = ok (existing, t)
member_or_added user_id (dept, t) none = add_member dept.id user_id viewer false t

abbrev pub ensure_in : ℕ → Department × Tables → Result ServiceError (UserDepartment × Tables)
ensure_in user_id (dept, t) = do
  existing ← one_or_none (keep (is_member dept.id user_id) t.members)
  member_or_added user_id (dept, t) existing

unfoldable pub ensure_user_membership :
    ℕ → ℕ → Text → Tables → Result ServiceError (UserDepartment × Tables)
ensure_user_membership fresh user_id dept_name t = do
  dept ← one_or_none (keep (λ d. text_eq d.name dept_name) t.departments)
  found ← found_or_created fresh dept_name t dept
  ensure_in user_id found

unfoldable pub remove_member : ℕ → ℕ → Tables → Tables
remove_member dept_id user_id t = record t {
  members = keep (λ m. not (is_member dept_id user_id m)) t.members;
}

abbrev pub set_role : ℕ → ℕ → DepartmentRole → List UserDepartment → List UserDepartment
set_role dept_id user_id role [] = []
set_role dept_id user_id role (m ∷ ms) =
    (if is_member dept_id user_id m then record m { role = role } else m)
    ∷ set_role dept_id user_id role ms

unfoldable pub update_member_role :
    ℕ → ℕ → DepartmentRole → Tables → Result ServiceError (UserDepartment × Tables)
update_member_role dept_id user_id role t = elim (find_member dept_id user_id t.members) [
  | none ↦ err member_not_found
  | some m ↦
      ok (record m { role = role }, record t { members = set_role dept_id user_id role t.members })
]

unfoldable pub list_members : ℕ → Tables → List UserDepartment
list_members dept_id t = keep (λ m. m.department_id == dept_id) t.members

abbrev pub is_share : ℕ → String → ℕ → DepartmentResource → Bool
is_share dept_id resource_type resource_id r =
    (r.department_id == dept_id)
    && (str_eq r.resource_type resource_type)
    && (r.resource_id == resource_id)

unfoldable pub share_resource :
    ℕ → String → ℕ → String → ℕ → Tables → Result ServiceError (DepartmentResource × Tables)
share_resource dept_id resource_type resource_id access_level shared_by t =
    let res : DepartmentResource = record {
      department_id = dept_id;
      resource_type = resource_type;
      resource_id = resource_id;
      access_level = access_level;
      shared_by = some shared_by;
    } in
    if mem dept_id (department_ids t.departments)
      && mem shared_by (user_ids t.users)
      && not (any (is_share dept_id resource_type resource_id) t.resources)
    then ok (res, record t { resources = t.resources ++ res ∷ [] })
    else err integrity

unfoldable pub unshare_resource : ℕ → String → ℕ → Tables → Tables
unshare_resource dept_id resource_type resource_id t = record t {
  resources = keep (λ r. not (is_share dept_id resource_type resource_id r)) t.resources;
}

-- The tree as the code builds it: the ids of the roots, and for each node the ids of its children.
-- A department whose parent is not in the table is a root.
pub record Forest : Type 0 where
  pub roots : List ℕ
  pub children : Dict (List ℕ)

abbrev pub children_of : Dict (List ℕ) → ℕ → List ℕ
children_of m p = or_else (lookup p m) []

abbrev add_node : List Department → Forest → Department → Forest
add_node all_depts f d = elim d.parent_department_id [
  | none ↦ record f { roots = f.roots ++ d.id ∷ [] }
  | some p ↦
      if mem p (department_ids all_depts)
      then record f { children = insert p (children_of f.children p ++ d.id ∷ []) f.children }
      else record f { roots = f.roots ++ d.id ∷ [] }
]

build : List Department → Forest → List Department → Forest
build all_depts f [] = f
build all_depts f (d ∷ ds) = build all_depts (add_node all_depts f d) ds

-- `order_by(Department.name)`
abbrev pub add_by_name : (Text → Text → Bool) → Department → List Department → List Department
add_by_name name_le d [] = d ∷ []
add_by_name name_le d (e ∷ es) =
    let rest = add_by_name name_le d es in if name_le d.name e.name then d ∷ e ∷ es else e ∷ rest

abbrev pub order_by_name : (Text → Text → Bool) → List Department → List Department
order_by_name name_le [] = []
order_by_name name_le (d ∷ ds) = add_by_name name_le d (order_by_name name_le ds)

unfoldable pub get_department_tree : (Text → Text → Bool) → Tables → Forest
unfolding build
get_department_tree name_le t =
    let all_depts = order_by_name name_le t.departments in
    build all_depts (record { roots = []; children = [] }) all_depts

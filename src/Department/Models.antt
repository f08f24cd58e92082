-- ===== src/Department/Models.antt =====
-- The tables of app/department/models.py, with the user roles of app/auth/models.py.
-- Ids (uuid) are numbers of which only equality is used.
use ops_knowledge.Prelude.{ℕ, Bool, Option, List, String}
use ops_knowledge.Prelude.Texts.{Text}

pub data UserRole : Type 0 where
  system_admin user : UserRole

pub data DepartmentRole : Type 0 where
  dept_admin editor viewer : DepartmentRole

pub record User : Type 0 where
  pub id : ℕ
  pub role : UserRole

pub record Department : Type 0 where
  pub id : ℕ
  pub name : Text
  pub description : Option Text
  pub parent_department_id : Option ℕ

pub record UserDepartment : Type 0 where
  pub user_id : ℕ
  pub department_id : ℕ
  pub role : DepartmentRole
  pub is_primary : Bool

pub record DepartmentResource : Type 0 where
  pub department_id : ℕ
  pub resource_type : String
  pub resource_id : ℕ
  pub access_level : String
  pub shared_by : Option ℕ

-- The tables that the service reads and writes.
pub record Tables : Type 0 where
  pub users : List User
  pub departments : List Department
  pub members : List UserDepartment
  pub resources : List DepartmentResource

abbrev pub is_system_admin : UserRole → Bool
is_system_admin system_admin = Bool.true
is_system_admin user = Bool.false

abbrev pub is_dept_admin : DepartmentRole → Bool
is_dept_admin dept_admin = Bool.true
is_dept_admin editor = Bool.false
is_dept_admin viewer = Bool.false

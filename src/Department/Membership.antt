-- ===== src/Department/Membership.antt =====
-- Memberships and shares of app/department/service.py, and sequences of calls of its methods.
use mathlib.Core.Option.{some-injective}
use ops_knowledge.Prelude.{
  ℕ, ◌≡◌, refl, sym, ap, subst, ◌∙◌, Bool, true, false, keep, some, Option, none, List, [], ◌∷◌,
  arith, String, mem, In, any, Bool-cases, Option-cases, inl, inr,
}
use ops_knowledge.Prelude.Results.{Result, ok, err}
use ops_knowledge.Prelude.Texts.{Text, text_eq}
use ops_knowledge.Department.Models.{DepartmentRole, viewer, Department, UserDepartment, Tables}
use ops_knowledge.Department.Service.{
  ServiceError, department_ids, is_member, is_share, create_department, update_department,
  DepartmentUpdate, delete_department, add_member, find_member, one_or_none, found_or_created,
  member_or_added, is_name, user_ids, ensure_user_membership, ensure_in, remove_member, set_role,
  update_member_role, share_resource, unshare_resource,
}
use ops_knowledge.Department.Integrity.{
  IsConsistent, Returns, Returns-bind, In-snoc, In-keep, create_department-IsConsistent,
  update_department-IsConsistent, delete_department-IsConsistent,
}

add_member-IsConsistent :
    (dept_id user_id : ℕ) (role : DepartmentRole) (is_primary : Bool) (t : Tables)
    → IsConsistent t
    → Returns (λ p. IsConsistent p.1) (add_member dept_id user_id role is_primary t)
unfolding add_member
add_member-IsConsistent dept_id user_id role is_primary t c =
    elim (Bool-cases (mem dept_id (department_ids t.departments))) [
      | inr f ↦ rw f tt
      | inl e ↦ elim (Bool-cases (mem user_id (user_ids t.users))) [
        | inr unknown ↦ rw (e, unknown) tt
        | inl user ↦ elim (Bool-cases (any (is_member dept_id user_id) t.members)) [
          | inl twice ↦ rw (e, user, twice) tt
          | inr fresh ↦
              rw (e, user, fresh)
                (record {
                  parents = c.parents;
                  member_departments = λ m i. elim (In-snoc m _ t.members i) [
                    | inl j ↦ c.member_departments m j
                    | inr q ↦ rw q e
                  ];
                  member_users = λ m i. elim (In-snoc m _ t.members i) [
                    | inl j ↦ c.member_users m j
                    | inr q ↦ rw q user
                  ];
                  share_departments = c.share_departments;
                  sharers = c.sharers;
                })
        ]
      ]
    ]

share_resource-IsConsistent :
    (dept_id : ℕ) (resource_type : String) (resource_id : ℕ) (access_level : String) (shared_by : ℕ)
    (t : Tables)
    → IsConsistent t
    → Returns
        (λ p. IsConsistent p.1)
        (share_resource dept_id resource_type resource_id access_level shared_by t)
unfolding share_resource
share_resource-IsConsistent dept_id resource_type resource_id access_level shared_by t c =
    elim (Bool-cases (mem dept_id (department_ids t.departments))) [
      | inr f ↦ rw f tt
      | inl e ↦ elim (Bool-cases (mem shared_by (user_ids t.users))) [
        | inr unknown ↦ rw (e, unknown) tt
        | inl user ↦
            elim (Bool-cases (any (is_share dept_id resource_type resource_id) t.resources)) [
              | inl twice ↦ rw (e, user, twice) tt
              | inr fresh ↦
                  rw (e, user, fresh)
                    (record {
                      parents = c.parents;
                      member_departments = c.member_departments;
                      member_users = c.member_users;
                      share_departments = λ r i. elim (In-snoc r _ t.resources i) [
                        | inl j ↦ c.share_departments r j
                        | inr q ↦ rw q e
                      ];
                      sharers = λ r k i by. elim (In-snoc r _ t.resources i) [
                        | inl j ↦ c.sharers r k j by
                        | inr q ↦
                            subst (λ j. mem j (user_ids t.users) ≡ true)
                              (some-injective shared_by k (sym (ap (λ s. s.shared_by) q) ∙ by)) user
                      ];
                    })
            ]
      ]
    ]

remove_member-IsConsistent :
    (dept_id user_id : ℕ) (t : Tables)
    → IsConsistent t
    → IsConsistent (remove_member dept_id user_id t)
unfolding remove_member
remove_member-IsConsistent dept_id user_id t c = record {
  parents = c.parents;
  member_departments = λ m i. c.member_departments m (In-keep _ m t.members i).0;
  member_users = λ m i. c.member_users m (In-keep _ m t.members i).0;
  share_departments = c.share_departments;
  sharers = c.sharers;
}

unshare_resource-IsConsistent :
    (dept_id : ℕ) (resource_type : String) (resource_id : ℕ) (t : Tables)
    → IsConsistent t
    → IsConsistent (unshare_resource dept_id resource_type resource_id t)
unfolding unshare_resource
unshare_resource-IsConsistent dept_id resource_type resource_id t c = record {
  parents = c.parents;
  member_departments = c.member_departments;
  member_users = c.member_users;
  share_departments = λ r i. c.share_departments r (In-keep _ r t.resources i).0;
  sharers = λ r k i. c.sharers r k (In-keep _ r t.resources i).0;
}

-- A role is set on rows that were there, of their users and in their departments.
In-set_role :
    (dept_id user_id : ℕ) (role : DepartmentRole) (m : UserDepartment) (ms : List UserDepartment)
    → In m (set_role dept_id user_id role ms)
    → (n : UserDepartment) × In n ms × (n.department_id ≡ m.department_id) × (n.user_id ≡ m.user_id)
In-set_role dept_id user_id role m [] i = absurd i
In-set_role dept_id user_id role m (n ∷ ns) (inl e) = (
  n,
  inl refl,
  elim (Bool-cases (is_member dept_id user_id n)) [ inl t ↦ ground arith | inr f ↦ ground arith ],
  elim (Bool-cases (is_member dept_id user_id n)) [ inl t ↦ ground arith | inr f ↦ ground arith ],
)
In-set_role dept_id user_id role m (n ∷ ns) (inr i) =
    let (k, j, e, u) = In-set_role dept_id user_id role m ns i in (k, inr j, e, u)

update_member_role-IsConsistent :
    (dept_id user_id : ℕ) (role : DepartmentRole) (t : Tables)
    → IsConsistent t
    → Returns (λ p. IsConsistent p.1) (update_member_role dept_id user_id role t)
unfolding update_member_role
update_member_role-IsConsistent dept_id user_id role t c =
    elim (Option-cases (find_member dept_id user_id t.members)) [
      | inl e ↦ rw (e, Returns) tt
      | inr (m, e) ↦
          rw (e, Returns)
            (record {
              parents = c.parents;
              member_departments = λ x i.
                  let (n, j, same, by) = In-set_role dept_id user_id role x t.members i in
                  rw same at (c.member_departments n j);
              member_users = λ x i.
                  let (n, j, same, by) = In-set_role dept_id user_id role x t.members i in
                  rw by at (c.member_users n j);
              share_departments = c.share_departments;
              sharers = c.sharers;
            })
    ]

member_or_added-IsConsistent :
    (user_id : ℕ) (p : Department × Tables) (existing : Option UserDepartment)
    → IsConsistent p.1
    → Returns (λ q. IsConsistent q.1) (member_or_added user_id p existing)
member_or_added-IsConsistent user_id (dept, t) (some m) c = c
member_or_added-IsConsistent user_id (dept, t) none c =
    add_member-IsConsistent dept.id user_id viewer false t c

ensure_in-IsConsistent :
    (user_id : ℕ) (p : Department × Tables)
    → IsConsistent p.1
    → Returns (λ q. IsConsistent q.1) (ensure_in user_id p)
ensure_in-IsConsistent user_id (dept, t) c =
    Returns-bind (λ q. IsConsistent q.1) (one_or_none (keep (is_member dept.id user_id) t.members))
      _ λ existing e. member_or_added-IsConsistent user_id (dept, t) existing c

found_or_created-IsConsistent :
    (fresh : ℕ) (dept_name : Text) (t : Tables) (dept : Option Department)
    → IsConsistent t
    → Returns (λ p. IsConsistent p.1) (found_or_created fresh dept_name t dept)
found_or_created-IsConsistent fresh dept_name t (some d) c = c
found_or_created-IsConsistent fresh dept_name t none c = elim (Bool-cases (is_name dept_name)) [
  | inl valid ↦ rw valid (create_department-IsConsistent fresh dept_name none none t c)
  | inr invalid ↦ rw invalid tt
]

ensure_user_membership-IsConsistent :
    (fresh user_id : ℕ) (dept_name : Text) (t : Tables)
    → IsConsistent t
    → Returns (λ p. IsConsistent p.1) (ensure_user_membership fresh user_id dept_name t)
unfolding ensure_user_membership
ensure_user_membership-IsConsistent fresh user_id dept_name t c =
    Returns-bind (λ p. IsConsistent p.1)
      (one_or_none (keep (λ d. text_eq d.name dept_name) t.departments)) _
      λ dept e.
        Returns-bind (λ p. IsConsistent p.1) (found_or_created fresh dept_name t dept) _
          λ p made. ensure_in-IsConsistent user_id p (
            subst (Returns (λ q. IsConsistent q.1)) made
              (found_or_created-IsConsistent fresh dept_name t dept c))

-- The calls that change the tables.
pub data Call : Type 0 where
  create : ℕ → Text → Option Text → Option ℕ → Call
  update : ℕ → DepartmentUpdate → Call
  delete : ℕ → Call
  add : ℕ → ℕ → DepartmentRole → Bool → Call
  ensure : ℕ → ℕ → Text → Call
  remove : ℕ → ℕ → Call
  set_member_role : ℕ → ℕ → DepartmentRole → Call
  share : ℕ → String → ℕ → String → ℕ → Call
  unshare : ℕ → String → ℕ → Call

abbrev kept_on_error : {A : Type 0} → Tables → (A → Tables) → Result ServiceError A → Tables
kept_on_error t f (ok a) = f a
kept_on_error t f (err e) = t

-- A call that raises leaves the tables as they were.
unfoldable pub apply : Call → Tables → Tables
apply (create k name description parent) t =
    kept_on_error t (λ p. p.1) (create_department k name description parent t)
apply (update k u) t = kept_on_error t (λ p. p.1) (update_department k u t)
apply (delete k) t = kept_on_error t (λ t'. t') (delete_department k t)
apply (add d u role primary) t = kept_on_error t (λ p. p.1) (add_member d u role primary t)
apply (ensure k u name) t = kept_on_error t (λ p. p.1) (ensure_user_membership k u name t)
apply (remove d u) t = remove_member d u t
apply (set_member_role d u role) t = kept_on_error t (λ p. p.1) (update_member_role d u role t)
apply (share d type k level by) t = kept_on_error t (λ p. p.1) (share_resource d type k level by t)
apply (unshare d type k) t = unshare_resource d type k t

unfoldable pub apply_all : List Call → Tables → Tables
unfolding apply
apply_all [] t = t
apply_all (c ∷ cs) t = apply_all cs (apply c t)

kept :
    {A : Type 0} (f : A → Tables) (t : Tables) (r : Result ServiceError A)
    → IsConsistent t
    → Returns (λ a. IsConsistent (f a)) r
    → IsConsistent (kept_on_error t f r)
kept f t (ok a) c h = h
kept f t (err e) c h = c

deleted :
    (k : ℕ) (t : Tables) (r : Result ServiceError Tables)
    → Returns (λ t'. IsConsistent t' × (mem k (department_ids t'.departments) ≡ false)) r
    → Returns IsConsistent r
deleted k t (ok t') h = h.0
deleted k t (err e) h = tt

apply-IsConsistent : (call : Call) (t : Tables) → IsConsistent t → IsConsistent (apply call t)
unfolding apply
apply-IsConsistent (create k name description parent) t c =
    kept _ t _ c (create_department-IsConsistent k name description parent t c)
apply-IsConsistent (update k u) t c = kept _ t _ c (update_department-IsConsistent k u t c)
apply-IsConsistent (delete k) t c =
    kept _ t _ c (deleted k t _ (delete_department-IsConsistent k t c))
apply-IsConsistent (add d u role primary) t c =
    kept _ t _ c (add_member-IsConsistent d u role primary t c)
apply-IsConsistent (ensure k u name) t c =
    kept _ t _ c (ensure_user_membership-IsConsistent k u name t c)
apply-IsConsistent (remove d u) t c = remove_member-IsConsistent d u t c
apply-IsConsistent (set_member_role d u role) t c =
    kept _ t _ c (update_member_role-IsConsistent d u role t c)
apply-IsConsistent (share d type k level by) t c =
    kept _ t _ c (share_resource-IsConsistent d type k level by t c)
apply-IsConsistent (unshare d type k) t c = unshare_resource-IsConsistent d type k t c

-- Whatever methods are called, in whatever order and with whatever outcome, on tables whose
-- references are whole, every parent, member and share still refers to a department of the table, and
-- every member and every sharer to a user.
pub apply_all-IsConsistent :
    (calls : List Call) (t : Tables) → IsConsistent t → IsConsistent (apply_all calls t)
unfolding apply_all
apply_all-IsConsistent [] t c = c
apply_all-IsConsistent (call ∷ calls) t c =
    apply_all-IsConsistent calls (apply call t) (apply-IsConsistent call t c)

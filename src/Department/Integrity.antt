-- ===== src/Department/Integrity.antt =====
-- The references between the tables of app/department/service.py, and the methods that write
-- departments.
use mathlib.Core.Option.{none-ne-some, some-injective}
use ops_knowledge.Prelude.{
  ℕ, ◌≡◌, refl, sym, ap, subst, Bool, true, false, not, ◌&&◌, ◌==◌, if◌then◌else◌, Option, none,
  some, List, [], ◌∷◌, ◌++◌, arith, mem, In, any, keep, Bool-cases, inl, inr, ◌⊎◌,
}
use ops_knowledge.Prelude.Queries.{any_of}
use ops_knowledge.Prelude.Results.{Result, ok, err, ◌>>=◌, err-ne-ok, ok-injective}
use ops_knowledge.Prelude.Texts.{Text}
use ops_knowledge.Department.Models.{Department, UserDepartment, DepartmentResource, Tables}
use ops_knowledge.Department.Service.{
  ServiceError, department_not_found, find_department, department_ids, user_ids, updated, new_name,
  found_or_error, parent_exists, is_child_of, replace, create_department, update_department,
  DepartmentUpdate, delete_department,
}

-- Every reference of a row is to a row: a parent, the user and the department of a member, the
-- department of a share and the user who shared.
pub record IsConsistent (t : Tables) : Type 0 where
  pub parents :
      (d : Department)
      → In d t.departments
      → parent_exists d.parent_department_id t.departments ≡ true
  pub member_departments :
      (m : UserDepartment)
      → In m t.members
      → mem m.department_id (department_ids t.departments) ≡ true
  pub member_users : (m : UserDepartment) → In m t.members → mem m.user_id (user_ids t.users) ≡ true
  pub share_departments :
      (r : DepartmentResource)
      → In r t.resources
      → mem r.department_id (department_ids t.departments) ≡ true
  pub sharers :
      (r : DepartmentResource) (k : ℕ)
      → In r t.resources
      → r.shared_by ≡ some k
      → mem k (user_ids t.users) ≡ true

In-append : {A : Type 0} (x : A) (xs ys : List A) → In x (xs ++ ys) → In x xs ⊎ In x ys
In-append x [] ys i = inr i
In-append x (y ∷ xs) ys (inl e) = inl (inl e)
In-append x (y ∷ xs) ys (inr i) = elim (In-append x xs ys i) [ inl j ↦ inl (inr j) | inr j ↦ inr j ]

pub In-snoc : {A : Type 0} (x y : A) (xs : List A) → In x (xs ++ y ∷ []) → In x xs ⊎ (x ≡ y)
In-snoc x y xs i = elim (In-append x xs (y ∷ []) i) [ inl j ↦ inl j | inr j ↦ inr (last j) ]
  where
    last : In x (y ∷ []) → x ≡ y
    last (inl e) = e
    last (inr f) = absurd f

pub In-keep :
    {A : Type 0} (p : A → Bool) (x : A) (xs : List A) → In x (keep p xs) → In x xs × (p x ≡ true)
In-keep p x [] i = absurd i
In-keep p x (y ∷ ys) i = elim (Bool-cases (p y)) [
  | inr f ↦ let (j, t) = In-keep p x ys (rw f at i) in (inr j, t)
  | inl t ↦ first t (In-keep p x ys) (rw t at i)
]
  where
    first :
        p y ≡ true
        → (In x (keep p ys) → In x ys × (p x ≡ true))
        → In x (y ∷ keep p ys)
        → In x (y ∷ ys) × (p x ≡ true)
    first t rec (inl e) = (inl e, rw e t)
    first t rec (inr j) = let (k, q) = rec j in (inr k, q)

ids-snoc :
    (k : ℕ) (ds : List Department) (d : Department)
    → mem k (department_ids ds) ≡ true
    → mem k (department_ids (ds ++ d ∷ [])) ≡ true
ids-snoc k [] d h = absurd (ground arith)
ids-snoc k (e ∷ es) d h = ground (arith, ids-snoc k es d)

ids-snoc_self :
    (ds : List Department) (d : Department) → mem d.id (department_ids (ds ++ d ∷ [])) ≡ true
ids-snoc_self [] d = ground arith
ids-snoc_self (e ∷ es) d = ground (arith, ids-snoc_self es d)

ids-keep :
    (k j : ℕ) (ds : List Department)
    → mem k (department_ids (keep (λ e. not (e.id == j)) ds))
      ≡ (mem k (department_ids ds) && not (k == j))
ids-keep k j [] = refl
ids-keep k j (e ∷ es) = ground (arith, ids-keep k j es)

ids-replace :
    (d : Department) (ds : List Department) → department_ids (replace d ds) ≡ department_ids ds
ids-replace d [] = refl
ids-replace d (e ∷ es) = elim (Bool-cases (e.id == d.id)) [
  | inl t ↦ rw (t, ids-replace d es) (ap (λ k. k ∷ department_ids es) (ground arith))
  | inr f ↦ rw (f, ids-replace d es)
]

In-replace : (x d : Department) (ds : List Department) → In x (replace d ds) → In x ds ⊎ (x ≡ d)
In-replace x d [] i = absurd i
In-replace x d (e ∷ es) (inr i) = elim (In-replace x d es i) [ inl j ↦ inl (inr j) | inr q ↦ inr q ]
In-replace x d (e ∷ es) (inl q) = elim (Bool-cases (e.id == d.id)) [
  | inl t ↦ inr (rw t at q)
  | inr f ↦ inl (inl (rw f at q))
]

parent_exists-of-ids :
    (o : Option ℕ) (ds es : List Department)
    → ((k : ℕ) → mem k (department_ids ds) ≡ true → mem k (department_ids es) ≡ true)
    → parent_exists o ds ≡ true
    → parent_exists o es ≡ true
parent_exists-of-ids none ds es f h = refl
parent_exists-of-ids (some p) ds es f h = f p h

-- What holds of the tables after a call that returns.
abbrev pub Returns : {A : Type 0} → (A → Type 0) → Result ServiceError A → Type 0
Returns P (ok a) = P a
Returns P (err e) = Unit {0}

-- A new department leaves the references whole.
pub create_department-IsConsistent :
    (fresh : ℕ) (name : Text) (description : Option Text) (parent : Option ℕ) (t : Tables)
    → IsConsistent t
    → Returns (λ p. IsConsistent p.1) (create_department fresh name description parent t)
unfolding create_department
create_department-IsConsistent fresh name description parent t c = elim (Bool-cases exists) [
  | inr f ↦ rw f tt
  | inl e ↦ rw e (record {
    parents = λ d i. elim (In-snoc d dept ds i) [
      | inl j ↦ parent_exists-of-ids _ ds _ grows (c.parents d j)
      | inr q ↦ rw q (parent_exists-of-ids parent (dept ∷ ds) _ moves e)
    ];
    member_departments = λ m i. grows _ (c.member_departments m i);
    member_users = c.member_users;
    share_departments = λ r i. grows _ (c.share_departments r i);
    sharers = c.sharers;
  })
]
  where
    ds : List Department
    ds = t.departments

    dept : Department
    dept = record {
      id = fresh;
      name = name;
      description = description;
      parent_department_id = parent;
    }

    exists : Bool
    exists = parent_exists parent (dept ∷ ds)

    grows :
        (k : ℕ) → mem k (department_ids ds) ≡ true → mem k (department_ids (ds ++ dept ∷ [])) ≡ true
    grows k h = ids-snoc k ds dept h

    moves :
        (k : ℕ)
        → mem k (department_ids (dept ∷ ds)) ≡ true
        → mem k (department_ids (ds ++ dept ∷ [])) ≡ true
    moves k h = ground (arith, ids-snoc k ds dept, ids-snoc_self ds dept)

In-find_department :
    (k : ℕ) (d : Department) (ds : List Department) → find_department k ds ≡ some d → In d ds
unfolding find_department
In-find_department k d [] h = absurd (none-ne-some d h)
In-find_department k d (e ∷ es) h = elim (Bool-cases (e.id == k)) [
  | inl here ↦ inl (sym (some-injective e d (simp here at h)))
  | inr there ↦ inr (In-find_department k d es (simp there at h))
]

pub Returns-bind :
    {A B : Type 0} (P : B → Type 0) (m : Result ServiceError A) (f : A → Result ServiceError B)
    → ((a : A) → m ≡ ok a → Returns P (f a))
    → Returns P (m >>= f)
Returns-bind P (ok a) f h = h a refl
Returns-bind P (err e) f h = tt

found_or_error-ok :
    {A : Type 0} (e : ServiceError) (o : Option A) (a : A) → found_or_error e o ≡ ok a → o ≡ some a
found_or_error-ok e none a h = absurd (err-ne-ok h)
found_or_error-ok e (some b) a h = ap some (ok-injective h)

-- An update leaves the references whole: the department keeps its parent.
pub update_department-IsConsistent :
    (dept_id : ℕ) (u : DepartmentUpdate) (t : Tables)
    → IsConsistent t
    → Returns (λ p. IsConsistent p.1) (update_department dept_id u t)
unfolding update_department
update_department-IsConsistent dept_id u t c =
    let found = find_department dept_id t.departments in
    Returns-bind (λ p. IsConsistent p.1) (found_or_error department_not_found found) _
      λ d at.
        let there =
          In-find_department dept_id d t.departments
            (found_or_error-ok department_not_found found d at) in
        Returns-bind (λ p. IsConsistent p.1) (new_name u.name d.name) _
          λ name named. replaced (updated u name d) (c.parents d there)
  where
    replaced :
        (dept : Department)
        → parent_exists dept.parent_department_id t.departments ≡ true
        → IsConsistent (record t { departments = replace dept t.departments })
    replaced dept e =
        let kept = λ (k : ℕ) (h : mem k (department_ids t.departments) ≡ true).
          subst (λ ids. mem k ids ≡ true) (sym (ids-replace dept t.departments)) h in
        record {
          parents = λ x i. elim (In-replace x dept t.departments i) [
            | inl j ↦ parent_exists-of-ids _ t.departments _ kept (c.parents x j)
            | inr q ↦ rw q (parent_exists-of-ids _ t.departments _ kept e)
          ];
          member_departments = λ m i. kept _ (c.member_departments m i);
          member_users = c.member_users;
          share_departments = λ r i. kept _ (c.share_departments r i);
          sharers = c.sharers;
        }

-- A deleted department had no child, and its members and shares go with it, so nothing refers to
-- it afterwards.
pub delete_department-IsConsistent :
    (dept_id : ℕ) (t : Tables)
    → IsConsistent t
    → Returns
        (λ t'. IsConsistent t' × (mem dept_id (department_ids t'.departments) ≡ false))
        (delete_department dept_id t)
unfolding delete_department
delete_department-IsConsistent dept_id t c = go (find_department dept_id t.departments)
  where
    Left : List Department
    Left = keep (λ e. not (e.id == dept_id)) t.departments

    stays :
        (k : ℕ)
        → (k == dept_id) ≡ false
        → mem k (department_ids t.departments) ≡ true
        → mem k (department_ids Left) ≡ true
    stays k n h = ground (arith, ids-keep k dept_id t.departments)

    parent_stays :
        any (is_child_of dept_id) t.departments ≡ false
        → (d : Department) → In d t.departments
        → (o : Option ℕ) → d.parent_department_id ≡ o
        → parent_exists o t.departments ≡ true
        → parent_exists o Left ≡ true
    parent_stays leaf d i none e h = refl
    parent_stays leaf d i (some p) e h = elim (Bool-cases (p == dept_id)) [
      | inr n ↦ stays p n h
      | inl q ↦ ground (arith, any_of (is_child_of dept_id) d t.departments i (rw e q))
    ]

    go :
        (found : Option Department)
        → Returns
            (λ (t' : Tables).
              IsConsistent t' × (mem dept_id (department_ids t'.departments) ≡ false))
            (elim found [
              | none ↦ err ServiceError.department_not_found
              | some d ↦
                  if any (is_child_of dept_id) t.departments
                  then err ServiceError.has_children
                  else ok (record {
                    users = t.users;
                    departments = keep (λ e. not (e.id == dept_id)) t.departments;
                    members = keep (λ m. not (m.department_id == dept_id)) t.members;
                    resources = keep (λ r. not (r.department_id == dept_id)) t.resources;
                  })
            ])
    go none = tt
    go (some found) = elim (Bool-cases (any (is_child_of dept_id) t.departments)) [
      | inl e ↦ rw e tt
      | inr leaf ↦ rw leaf (
        record {
          parents = λ d i.
              let (j, q) = In-keep (λ e. not (e.id == dept_id)) d t.departments i in
              parent_stays leaf d j d.parent_department_id refl (c.parents d j);
          member_departments = λ m i.
              let (j, q) = In-keep (λ e. not (e.department_id == dept_id)) m t.members i in
              stays m.department_id (ground arith) (c.member_departments m j);
          member_users = λ m i.
              c.member_users m (In-keep (λ e. not (e.department_id == dept_id)) m t.members i).0;
          share_departments = λ r i.
              let (j, q) = In-keep (λ e. not (e.department_id == dept_id)) r t.resources i in
              stays r.department_id (ground arith) (c.share_departments r j);
          sharers = λ r k i.
              c.sharers r k (In-keep (λ e. not (e.department_id == dept_id)) r t.resources i).0;
        },
        ground (arith, ids-keep dept_id dept_id t.departments),
      )
    ]

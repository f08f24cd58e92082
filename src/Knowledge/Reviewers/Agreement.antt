-- ===== src/Knowledge/Reviewers/Agreement.antt =====
-- The candidates of app/knowledge/review/reviewers.py, and its two permission checks, by knowledge
-- base and by user.
use text.Mathlib.Text.{◌==◌ as str_eq}
use mathlib.Core.Bool.{false≢true}
use mathlib.Core.Option.{some-injective}
use ops_knowledge.Prelude.{
  ℕ, ◌≡◌, refl, sym, ◌∙◌, subst, ◌↔◌, ◌⊎◌, inl, inr, Bool, true, false, not, ◌&&◌, ◌==◌, some, List,
  [], ◌∷◌, ◌++◌, arith, mem, In, keep, dedup, mem-append, mem-dedup, Bool-cases,
}
use ops_knowledge.Prelude.Queries.{select, mem-select, select_row}
use ops_knowledge.Department.Models.{
  is_system_admin, is_dept_admin, User, UserDepartment, DepartmentResource,
}
use ops_knowledge.Knowledge.Reviewers.{
  KnowledgeBase, Directory, shares_kb, shared_dept_ids, administers, get_candidate_reviewers,
  is_user_reviewer_for_kb, administered_by, reviewable, kb_ids_user_can_review,
}

mem-keep : (k : ℕ) (p : ℕ → Bool) (xs : List ℕ) → mem k (keep p xs) ≡ (mem k xs && p k)
mem-keep k p [] = refl
mem-keep k p (x ∷ xs) = elim (Bool-cases (k == x)) [
  | inl e ↦
      let same : k ≡ x = ground arith in
      rw same
        (ground (arith, subst (λ j. mem j (keep p xs) ≡ (mem j xs && p j)) same (mem-keep k p xs)))
  | inr f ↦ ground (arith, mem-keep k p xs)
]

mem-or : (k : ℕ) (xs ys : List ℕ) → mem k (xs ++ ys) ≡ true → (mem k xs ≡ true) ⊎ (mem k ys ≡ true)
mem-or k xs ys h = elim (Bool-cases (mem k xs)) [
  | inl e ↦ inl e
  | inr f ↦ inr (ground (arith, mem-append k xs ys))
]

or_mem : (k : ℕ) (xs ys : List ℕ) → (mem k xs ≡ true) ⊎ (mem k ys ≡ true) → mem k (xs ++ ys) ≡ true
or_mem k xs ys (inl h) = ground (arith, mem-append k xs ys)
or_mem k xs ys (inr h) = ground (arith, mem-append k xs ys)

-- The department is one that the knowledge base is shared with, or one of its owner's.
pub data ServesKb (dir : Directory) (kb : KnowledgeBase) (dept : ℕ) : Type 0 where
  shared :
      (r : DepartmentResource)
      → In r dir.resources
      → shares_kb kb.id r ≡ true
      → r.department_id ≡ dept
      → ServesKb dir kb dept
  owned :
      (m : UserDepartment)
      → In m dir.members
      → m.user_id ≡ kb.created_by
      → m.department_id ≡ dept
      → ServesKb dir kb dept

-- The user is an administrator of a department that serves the knowledge base, or of the system.
pub data MayReview (dir : Directory) (kb : KnowledgeBase) (uid : ℕ) : Type 0 where
  by_department :
      (m : UserDepartment)
      → In m dir.members
      → is_dept_admin m.role ≡ true
      → ServesKb dir kb m.department_id
      → m.user_id ≡ uid
      → MayReview dir kb uid
  by_system :
      (u : User)
      → In u dir.users
      → is_system_admin u.role ≡ true
      → u.id ≡ uid
      → MayReview dir kb uid

module _ (dir : Directory) (kb : KnowledgeBase) where
  serves_of_mem : (dept : ℕ) → mem dept (shared_dept_ids dir kb) ≡ true → ServesKb dir kb dept
  serves_of_mem dept h = elim (mem-or dept _ _ h) [
    | inl s ↦
        let (r, i, t, e) =
          select_row (λ r. r.department_id) (shares_kb kb.id) dept dir.resources s in
        shared r i t e
    | inr o ↦
        let (m, i, t, e) =
          select_row (λ m. m.department_id) (λ m. m.user_id == kb.created_by) dept dir.members o in
        owned m i (ground arith) e
  ]

  mem_of_serves : (dept : ℕ) → ServesKb dir kb dept → mem dept (shared_dept_ids dir kb) ≡ true
  mem_of_serves dept (shared r i t e) = or_mem dept _ _ (
      inl (
        subst (λ k. mem k (select (λ r. r.department_id) (shares_kb kb.id) dir.resources) ≡ true) e
          (mem-select (λ r. r.department_id) (shares_kb kb.id) r dir.resources i t)))
  mem_of_serves dept (owned m i t e) = or_mem dept _ _ (
      inr (
        subst
          (λ k.
            mem k (select (λ m. m.department_id) (λ m. m.user_id == kb.created_by) dir.members)
            ≡ true)
          e
          (mem-select (λ m. m.department_id) (λ m. m.user_id == kb.created_by) m dir.members i
            (ground arith))))

  abbrev admins : List ℕ
  admins = select (λ m. m.user_id) (administers (shared_dept_ids dir kb)) dir.members

  abbrev system_admins : List ℕ
  system_admins = select (λ u. u.id) (λ u. is_system_admin u.role) dir.users

  may_of_mem : (uid : ℕ) → mem uid (admins ++ system_admins) ≡ true → MayReview dir kb uid
  may_of_mem uid h = elim (mem-or uid admins system_admins h) [
    | inl a ↦
        let (m, i, t, e) =
          select_row (λ m. m.user_id) (administers (shared_dept_ids dir kb)) uid dir.members a in
        by_department m i (ground arith) (serves_of_mem m.department_id (ground arith)) e
    | inr s ↦
        let (u, i, t, e) = select_row (λ u. u.id) (λ u. is_system_admin u.role) uid dir.users s in
        by_system u i t e
  ]

  mem_of_may : (uid : ℕ) → MayReview dir kb uid → mem uid (admins ++ system_admins) ≡ true
  mem_of_may uid (by_department m i a s e) = or_mem uid admins system_admins (
      inl (
        subst (λ k. mem k admins ≡ true) e
          (mem-select (λ m. m.user_id) (administers (shared_dept_ids dir kb)) m dir.members i
            (ground (arith, mem_of_serves m.department_id s)))))
  mem_of_may uid (by_system u i a e) = or_mem uid admins system_admins (
      inr (
        subst (λ k. mem k system_admins ≡ true) e
          (mem-select (λ u. u.id) (λ u. is_system_admin u.role) u dir.users i a)))

-- A user is a candidate reviewer exactly if the user is not excluded and is an administrator of
-- the system, of a department that the knowledge base is shared with, or of one of its owner's.
pub candidates_exact :
    (dir : Directory) (kb : KnowledgeBase) (exclude : List ℕ) (uid : ℕ)
    → (mem uid (get_candidate_reviewers dir kb exclude) ≡ true)
      ↔ ((mem uid exclude ≡ false) × MayReview dir kb uid)
unfolding get_candidate_reviewers
candidates_exact dir kb exclude uid =
    let all = admins dir kb ++ system_admins dir kb in
    let kept = mem-keep uid (λ k. not (mem k exclude)) (dedup all) in
    let set = mem-dedup uid all in
    (
      λ h. (ground arith, may_of_mem dir kb uid (ground arith)),
      λ (out, may). let m = mem_of_may dir kb uid may in ground arith,
    )

abbrev dept_ids : Directory → ℕ → List ℕ
dept_ids dir uid = select (λ m. m.department_id) (administered_by uid) dir.members

-- The tables know the knowledge base by its id, and no administrator of the system by the user's.
pub record IsKnown (dir : Directory) (u : User) (kb : KnowledgeBase) : Type 0 where
  pub listed : In kb dir.knowledge_bases
  pub same_owner :
      (k : KnowledgeBase) → In k dir.knowledge_bases → k.id ≡ kb.id → k.created_by ≡ kb.created_by
  pub same_role : (v : User) → In v dir.users → v.id ≡ u.id → is_system_admin v.role ≡ false

module _ (dir : Directory) (u : User) (kb : KnowledgeBase) (known : IsKnown dir u kb) where
  abbrev shared_kbs : List ℕ
  shared_kbs =
      select (λ r. r.resource_id)
        (λ r. str_eq r.resource_type "knowledge_base" && mem r.department_id (dept_ids dir u.id))
        dir.resources

  abbrev colleagues : List ℕ
  colleagues = select (λ m. m.user_id) (λ m. mem m.department_id (dept_ids dir u.id)) dir.members

  abbrev owned_kbs : List ℕ
  owned_kbs = select (λ k. k.id) (λ k. mem k.created_by colleagues) dir.knowledge_bases

  -- A department that the user administers and that serves the knowledge base makes it
  -- reviewable.
  served_reviewable :
      (dept : ℕ)
      → mem dept (dept_ids dir u.id) ≡ true
      → ServesKb dir kb dept
      → mem kb.id (shared_kbs ++ owned_kbs) ≡ true
  served_reviewable dept mine (shared r i t e) = or_mem kb.id shared_kbs owned_kbs (
      inl (
        subst (λ k. mem k shared_kbs ≡ true) (ground arith)
          (mem-select (λ r. r.resource_id)
            (λ r.
              str_eq r.resource_type "knowledge_base" && mem r.department_id (dept_ids dir u.id))
            r dir.resources i (rw e (ground arith)))))
  served_reviewable dept mine (owned m i o e) =
      let colleague : mem m.user_id colleagues ≡ true =
        mem-select (λ m. m.user_id) (λ m. mem m.department_id (dept_ids dir u.id)) m dir.members i
          (rw e mine) in
      or_mem kb.id shared_kbs owned_kbs (
        inr (
          mem-select (λ k. k.id) (λ k. mem k.created_by colleagues) kb dir.knowledge_bases
            known.listed (rw (← o) colleague)))

  mine_admin :
      (dept : ℕ)
      → mem dept (dept_ids dir u.id) ≡ true
      → ServesKb dir kb dept
      → MayReview dir kb u.id
  mine_admin dept h s =
      let (m, i, t, e) =
        select_row (λ m. m.department_id) (administered_by u.id) dept dir.members h in
      by_department m i (ground arith) (rw e s) (ground arith)

  reviewable_may : mem kb.id (shared_kbs ++ owned_kbs) ≡ true → MayReview dir kb u.id
  reviewable_may h = elim (mem-or kb.id shared_kbs owned_kbs h) [
    | inl s ↦
        let (r, i, t, e) =
          select_row (λ r. r.resource_id)
            (λ r.
              str_eq r.resource_type "knowledge_base" && mem r.department_id (dept_ids dir u.id))
            kb.id dir.resources s in
        mine_admin r.department_id (ground arith) (shared r i (ground arith) refl)
    | inr o ↦
        let (k, i, t, e) =
          select_row (λ k. k.id) (λ k. mem k.created_by colleagues) kb.id dir.knowledge_bases o in
        let (m, j, in_dept, who) =
          select_row (λ m. m.user_id) (λ m. mem m.department_id (dept_ids dir u.id)) k.created_by
            dir.members t in
        mine_admin m.department_id in_dept (owned m j (who ∙ known.same_owner k i e) refl)
  ]

  may_reviewable : MayReview dir kb u.id → mem kb.id (shared_kbs ++ owned_kbs) ≡ true
  may_reviewable (by_system v i a e) = absurd (ground (arith, known.same_role v i e))
  may_reviewable (by_department m i a s e) =
      served_reviewable m.department_id
        (mem-select (λ m. m.department_id) (administered_by u.id) m dir.members i (ground arith)) s

  -- Nothing is reviewable through no department.
  some_dept :
      mem kb.id (shared_kbs ++ owned_kbs) ≡ true
      → (dept : ℕ) × (mem dept (dept_ids dir u.id) ≡ true)
  some_dept h = elim (mem-or kb.id shared_kbs owned_kbs h) [
    | inl s ↦
        let (r, i, t, e) =
          select_row (λ r. r.resource_id)
            (λ r.
              str_eq r.resource_type "knowledge_base" && mem r.department_id (dept_ids dir u.id))
            kb.id dir.resources s in
        (r.department_id, ground arith)
    | inr o ↦
        let (k, i, t, e) =
          select_row (λ k. k.id) (λ k. mem k.created_by colleagues) kb.id dir.knowledge_bases o in
        let (m, j, in_dept, who) =
          select_row (λ m. m.user_id) (λ m. mem m.department_id (dept_ids dir u.id)) k.created_by
            dir.members t in
        (m.department_id, in_dept)
  ]

  -- The list that the second check answers with.
  answer_cases :
      (ids depts : List ℕ)
      → dept_ids dir u.id ≡ depts
      → (elim depts [ [] ↦ some [] | d ∷ ds ↦ some (reviewable dir (d ∷ ds)) ]) ≡ some ids
      → (mem kb.id ids ≡ true) ↔ (mem kb.id (shared_kbs ++ owned_kbs) ≡ true)
  answer_cases ids [] e h =
      let empty : ids ≡ [] = ground arith in
      (
        λ m. absurd (ground arith),
        λ m. let (dept, q) = some_dept m in absurd (false≢true (rw e at q)),
      )
  answer_cases ids (d ∷ ds) e h =
      let filled : reviewable dir (dept_ids dir u.id) ≡ ids = rw e (some-injective _ _ h) in
      let set = mem-dedup kb.id (shared_kbs ++ owned_kbs) in
      (λ m. sym set ∙ rw (← filled) at m, λ m. rw (← filled) (set ∙ m))

-- For a user who is no administrator of the system, the check by knowledge base says yes exactly
-- if the knowledge base is in the list of those that the user can review.
pub reviewer_checks_agree :
    (dir : Directory) (u : User) (kb : KnowledgeBase) (ids : List ℕ)
    → IsKnown dir u kb
    → kb_ids_user_can_review dir u ≡ some ids
    → (is_user_reviewer_for_kb dir u kb ≡ true) ↔ (mem kb.id ids ≡ true)
unfolding kb_ids_user_can_review is_user_reviewer_for_kb
reviewer_checks_agree dir u kb ids known h = elim (Bool-cases (is_system_admin u.role)) [
  | inl admin ↦ absurd (ground arith)
  | inr plain ↦
      let answers = answer_cases dir u kb known ids (dept_ids dir u.id) refl (rw plain at h) in
      let candidates = candidates_exact dir kb [] u.id in
      rw plain (
        λ yes_kb. answers.1 (may_reviewable dir u kb known (candidates.0 yes_kb).1),
        λ m. candidates.1 (refl, reviewable_may dir u kb known (answers.0 m)),
      )
]

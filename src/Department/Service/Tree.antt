-- ===== src/Department/Service/Tree.antt =====
-- The tree of `get_department_tree` (app/department/service.py).
use mathlib.Core.List.{append_assoc, append-nil, Perm}
use mathlib.Core.List.Perm
use ops_knowledge.Prelude.{
  ℕ, ◌≡◌, refl, sym, ap, ◌∙◌, ◌⊎◌, Bool, true, false, In, not, if◌then◌else◌, none, some, List, [],
  ◌∷◌, ◌++◌, mem, arith, Bool-cases, Option-cases, inl, inr,
}
use ops_knowledge.Prelude.Dict.{lookup-insert}
use ops_knowledge.Prelude.Queries.{select}
use ops_knowledge.Prelude.Texts.{Text}
use ops_knowledge.Department.Models.{Department, Tables}
use ops_knowledge.Department.Service.{
  department_ids, add_by_name, order_by_name, is_child_of, Forest, children_of, add_node, build,
  get_department_tree,
}

-- A department without a parent in the table.
abbrev pub is_root : List Department → Department → Bool
is_root depts d = elim d.parent_department_id [
  | none ↦ true
  | some p ↦ not (mem p (department_ids depts))
]

-- The ids that the tree lists under `p`.
abbrev pub listed_under : List Department → ℕ → List Department → List ℕ
listed_under depts p ds =
    let found = select (λ d. d.id) (is_child_of p) ds in
    if mem p (department_ids depts) then found else []

module _ (depts : List Department) where
  add_node-roots :
      (f : Forest) (d : Department)
      → (add_node depts f d).roots ≡ f.roots ++ select (λ e. e.id) (is_root depts) (d ∷ [])
  add_node-roots f d = elim (Option-cases d.parent_department_id) [
    | inl top ↦ rw (top, add_node) refl
    | inr (p, under) ↦ elim (Bool-cases (mem p (department_ids depts))) [
      | inl known ↦ rw (under, known, add_node) (sym (append-nil f.roots))
      | inr unknown ↦ rw (under, unknown, add_node) refl
    ]
  ]

  add_node-children :
      (f : Forest) (d : Department) (p : ℕ)
      → children_of (add_node depts f d).children p
        ≡ children_of f.children p ++ listed_under depts p (d ∷ [])
  add_node-children f d p =
      let none_added = append-nil (children_of f.children p) in
      elim (Option-cases d.parent_department_id) [
        | inl top ↦ ground (arith, none_added)
        | inr (q, under) ↦
            let at = lookup-insert q p (children_of f.children q ++ d.id ∷ []) f.children in
            ground (arith, none_added, at)
      ]

  append_listed :
      (xs : List ℕ) (p : ℕ) (d : Department) (ds : List Department)
      → (xs ++ listed_under depts p (d ∷ [])) ++ listed_under depts p ds
        ≡ xs ++ listed_under depts p (d ∷ ds)
  append_listed xs p d ds =
      append_assoc xs (listed_under depts p (d ∷ [])) (listed_under depts p ds)
      ∙ ap (λ ys. xs ++ ys) joined
    where
      joined :
          listed_under depts p (d ∷ []) ++ listed_under depts p ds ≡ listed_under depts p (d ∷ ds)
      joined = ground arith

  append_roots :
      (xs : List ℕ) (d : Department) (ds : List Department)
      → (xs ++ select (λ e. e.id) (is_root depts) (d ∷ [])) ++ select (λ e. e.id) (is_root depts) ds
        ≡ xs ++ select (λ e. e.id) (is_root depts) (d ∷ ds)
  append_roots xs d ds =
      append_assoc xs (select (λ e. e.id) (is_root depts) (d ∷ []))
        (select (λ e. e.id) (is_root depts) ds)
      ∙ ap (λ ys. xs ++ ys) joined
    where
      joined :
          select (λ e. e.id) (is_root depts) (d ∷ []) ++ select (λ e. e.id) (is_root depts) ds
          ≡ select (λ e. e.id) (is_root depts) (d ∷ ds)
      joined = ground arith

  build-roots :
      (f : Forest) (ds : List Department)
      → (build depts f ds).roots ≡ f.roots ++ select (λ e. e.id) (is_root depts) ds
  unfolding build
  build-roots f [] = sym (append-nil f.roots)
  build-roots f (d ∷ ds) =
      build-roots (add_node depts f d) ds
      ∙ ap (λ xs. xs ++ select (λ e. e.id) (is_root depts) ds) (add_node-roots f d)
      ∙ append_roots f.roots d ds

  build-children :
      (f : Forest) (ds : List Department) (p : ℕ)
      → children_of (build depts f ds).children p
        ≡ children_of f.children p ++ listed_under depts p ds
  unfolding build
  build-children f [] p = ground (arith, append-nil (children_of f.children p))
  build-children f (d ∷ ds) p =
      build-children (add_node depts f d) ds p
      ∙ ap (λ xs. xs ++ listed_under depts p ds) (add_node-children f d p)
      ∙ append_listed (children_of f.children p) p d ds

-- Every department comes after those that the collation puts before it.
abbrev pub IsOrdered : (Text → Text → Bool) → List Department → Type 0
IsOrdered name_le [] = Unit
IsOrdered name_le (d ∷ ds) =
    ((e : Department) → In e ds → name_le d.name e.name ≡ true) × IsOrdered name_le ds

module _ (name_le : Text → Text → Bool) where
  add_by_name-Perm :
      (d : Department) (ds : List Department) → Perm (add_by_name name_le d ds) (d ∷ ds)
  add_by_name-Perm d [] = Perm.refl (d ∷ [])
  add_by_name-Perm d (e ∷ es) = elim (Bool-cases (name_le d.name e.name)) [
    | inl before ↦ rw before (Perm.refl (d ∷ e ∷ es))
    | inr after ↦ rw after (Perm.trans (Perm.cons e (add_by_name-Perm d es)) (Perm.swap d e es))
  ]

  order_by_name-Perm : (ds : List Department) → Perm (order_by_name name_le ds) ds
  order_by_name-Perm [] = Perm.refl []
  order_by_name-Perm (d ∷ ds) =
      Perm.trans (add_by_name-Perm d (order_by_name name_le ds))
        (Perm.cons d (order_by_name-Perm ds))

  In-add_by_name :
      (x d : Department) (ds : List Department)
      → In x (add_by_name name_le d ds)
      → (x ≡ d) ⊎ In x ds
  In-add_by_name x d [] (inl e) = inl e
  In-add_by_name x d [] (inr i) = absurd i
  In-add_by_name x d (e ∷ es) i = elim (Bool-cases (name_le d.name e.name)) [
    | inl before ↦ rw before at i
    | inr after ↦
        let j : In x (e ∷ add_by_name name_le d es) = rw after at i in
        elim j [
          | inl same ↦ inr (inl same)
          | inr k ↦ elim (In-add_by_name x d es k) [ inl q ↦ inl q | inr k' ↦ inr (inr k') ]
        ]
  ]

  module _ (total : (a b : Text) → name_le a b ≡ false → name_le b a ≡ true)
      (transitive : (a b c : Text)
        → name_le a b ≡ true
        → name_le b c ≡ true
        → name_le a c ≡ true) where
    add_by_name-IsOrdered :
        (d : Department) (ds : List Department)
        → IsOrdered name_le ds
        → IsOrdered name_le (add_by_name name_le d ds)
    add_by_name-IsOrdered d [] h = ((λ x i. absurd i), tt)
    add_by_name-IsOrdered d (e ∷ es) h = elim (Bool-cases (name_le d.name e.name)) [
      | inl before ↦ rw before (
        λ x i. elim i [
          | inl same ↦ rw same before
          | inr j ↦ transitive d.name e.name x.name before (h.0 x j)
        ],
        h,
      )
      | inr after ↦ rw after (
        λ x i. elim (In-add_by_name x d es i) [
          | inl same ↦ rw same (total d.name e.name after)
          | inr j ↦ h.0 x j
        ],
        add_by_name-IsOrdered d es h.1,
      )
    ]

    order_by_name-IsOrdered : (ds : List Department) → IsOrdered name_le (order_by_name name_le ds)
    order_by_name-IsOrdered [] = tt
    order_by_name-IsOrdered (d ∷ ds) =
        add_by_name-IsOrdered d (order_by_name name_le ds) (order_by_name-IsOrdered ds)

    -- Where the collation of the names is a total order: the tree is made of the departments of the
    -- table in the order of their names. Its roots are those without a parent in the table, and under
    -- each department it lists its sub-departments, both in that order; under an id that is not in
    -- the table it has nothing.
    pub get_department_tree_exact :
        (t : Tables)
        → (ds : List Department) × Perm ds t.departments
          × IsOrdered name_le ds
          × ((get_department_tree name_le t).roots ≡ select (λ d. d.id) (is_root ds) ds)
          × ((p : ℕ)
              → children_of (get_department_tree name_le t).children p ≡ listed_under ds p ds)
    unfolding get_department_tree
    get_department_tree_exact t =
        let empty : Forest = record { roots = []; children = [] } in
        let ds = order_by_name name_le t.departments in
        (
          ds,
          order_by_name-Perm t.departments,
          order_by_name-IsOrdered t.departments,
          build-roots ds empty ds,
          λ p. build-children ds empty ds p,
        )

-- ===== src/Workflow/State/Merge.antt =====
-- The buckets of a workflow's state, and the order in which parallel nodes finish
-- (app/workflow/langgraph/state.py).
use ops_knowledge.Prelude.{
  ℕ, ◌≡◌, refl, sym, ◌∙◌, ap, false, ◌&&◌, ◌==◌, if◌then◌else◌, Option, none, some, [], ◌∷◌, arith,
  IsUnique, Bool-cases, inl, inr,
}
use ops_knowledge.Prelude.Dict.{Dict, lookup, insert, keys, has_key, lookup-insert, has_key-lookup}
use ops_knowledge.Workflow.State.{or_empty, write_all, merge_by_node}

module _ {V : Type 0} where
  -- The bucket of the right side, if it has one, and of the left side otherwise.
  abbrev pub right_first : Option V → Option V → Option V
  right_first none o = o
  right_first (some v) o = some v

  lookup-write_all :
      (k : ℕ) (out right : Dict V)
      → IsUnique (keys right)
      → lookup k (write_all out right) ≡ right_first (lookup k right) (lookup k out)
  unfolding write_all
  lookup-write_all k out [] u = refl
  lookup-write_all k out ((j, v) ∷ right) u =
      lookup-write_all k (insert j v out) right u.1
      ∙ ap (right_first (lookup k right)) (lookup-insert j k v out)
      ∙ first
    where
      first :
          right_first (lookup k right) (if k == j then some v else lookup k out)
          ≡ right_first (if k == j then some v else lookup k right) (lookup k out)
      first = elim (Bool-cases (k == j)) [
        | inl same ↦
            let at : k ≡ j = ground arith in
            let absent : lookup k right ≡ none = has_key-lookup k right (rw at u.0) in
            rw (same, absent) refl
        | inr other ↦ rw other refl
      ]

  -- After a merge every node has the bucket that the right side gives it, and keeps the one of the
  -- left side if the right side gives it none; a key stands once in the dictionary on the right.
  pub merge_by_node_exact :
      (left right : Option (Dict V)) (k : ℕ)
      → IsUnique (keys (or_empty right))
      → lookup k (merge_by_node left right)
        ≡ right_first (lookup k (or_empty right)) (lookup k (or_empty left))
  unfolding merge_by_node
  merge_by_node_exact left right k u = lookup-write_all k (or_empty left) (or_empty right) u

  -- Two updates that write to different nodes can be merged in either order: every node has the
  -- same bucket afterwards.
  pub merge_by_node_comm :
      (s a b : Dict V) (k : ℕ)
      → IsUnique (keys a)
      → IsUnique (keys b)
      → ((j : ℕ) → (has_key j a && has_key j b) ≡ false)
      → lookup k (merge_by_node (some (merge_by_node (some s) (some a))) (some b))
        ≡ lookup k (merge_by_node (some (merge_by_node (some s) (some b))) (some a))
  merge_by_node_comm s a b k ua ub apart =
      merge_by_node_exact (some (merge_by_node (some s) (some a))) (some b) k ub
      ∙ ap (right_first (lookup k b)) (merge_by_node_exact (some s) (some a) k ua)
      ∙ swapped
      ∙ sym (ap (right_first (lookup k a)) (merge_by_node_exact (some s) (some b) k ub))
      ∙ sym (merge_by_node_exact (some (merge_by_node (some s) (some b))) (some a) k ua)
    where
      swapped :
          right_first (lookup k b) (right_first (lookup k a) (lookup k s))
          ≡ right_first (lookup k a) (right_first (lookup k b) (lookup k s))
      swapped = elim (Bool-cases (has_key k a)) [
        | inr absent ↦
            let none_there = has_key-lookup k a absent in rw (none_there, right_first) refl
        | inl present ↦
            let absent : has_key k b ≡ false = rw present at (apart k) in
            let none_there = has_key-lookup k b absent in rw (none_there, right_first) refl
      ]

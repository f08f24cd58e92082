-- ===== src/Workflow/Service/Versions.antt =====
-- What the service keeps of published graphs and versions (app/workflow/service.py).
use mathlib.Core.Option.{some-injective}
use mathlib.Core.List.{append-nil}
use ops_knowledge.Prelude.{
  ℕ, ◌+◌, ◌≤◌, ◌<◌, ◌≡◌, refl, sym, ◌∙◌, subst, true, false, not, ◌&&◌, ◌==◌, ltb, if◌then◌else◌,
  none, some, List, [], ◌∷◌, ◌++◌, arith, inl, inr, Bool-cases, Option-cases, any, keep, length,
  length-keep-le, All,
}
use ops_knowledge.Prelude.Dict.{lookup, insert, lookup-insert, lookup-remove}
use ops_knowledge.Workflow.Service.{
  GraphJson, Workflow, WorkflowVersion, Db, Publication, parse_strict, get, is_of, delete,
  prune_old_versions, kept_versions, promoted, version_row, publish, Call, created, updated,
  deleted, published_by, reverted_to_draft, removed, apply, apply_all,
}
use ops_knowledge.Workflow.Service.Pruning.{
  keep-append, In-keep, keep_holds, In-snoc, All-In, keep-keep, IsIncreasing, IsIncreasing-keep,
  IsIncreasing-snoc, length-keep-newer, own-prune, others-prune,
}
use ops_knowledge.Workflow.Service.Soundness.{
  IsRunnable, parsed-IsRunnable, IsSound, live-insert, placed-insert, get_found, Written,
  Written-bind, create-IsSound, update-IsSound, revert-IsSound,
}

module _ {J : Type 0} (json : GraphJson J) where
  delete-IsSound : (k : ℕ) (db : Db J) → IsSound json db → IsSound json (removed db (delete k db))
  unfolding delete get
  delete-IsSound k db sound = elim (Option-cases (lookup k db.workflows)) [
    | inl missing ↦ simp (missing, get) sound
    | inr (wf, found) ↦
        simp (found, get)
          (record {
            live = λ j w raw at.
                let at' : (if j == k then none else lookup j db.workflows) ≡ some w =
                  sym (lookup-remove k j db.workflows) ∙ at in
                elim (Bool-cases (j == k)) [
                  | inl same ↦ absurd (ground arith)
                  | inr differ ↦ sound.live j w raw (rw differ at at')
                ];
            placed = λ r i.
                let stays : not (is_of k r) ≡ true = keep_holds _ r db.versions i in
                let (runs, w, at, below) = sound.placed r (In-keep _ r db.versions i) in
                let differ : (r.workflow_id == k) ≡ false = ground arith in
                (runs, w, lookup-remove k r.workflow_id db.workflows ∙ rw differ at, below);
            rising = λ j.
                subst IsIncreasing (sym (keep-keep (is_of j) (λ r. not (is_of k r)) db.versions))
                  (IsIncreasing-keep _ (keep (is_of j) db.versions) (sound.rising j));
            few = λ j.
                subst (λ l. length l ≤ kept_versions)
                  (sym (keep-keep (is_of j) (λ r. not (is_of k r)) db.versions))
                  (omega (
                    arith,
                    sound.few j,
                    length-keep-le (λ r. not (is_of k r)) (keep (is_of j) db.versions),
                  ));
          })
  ]

  -- The versions of a workflow are below its next number.
  versions_below :
      (k : ℕ) (wf : Workflow J) (db : Db J)
      → lookup k db.workflows ≡ some wf
      → IsSound json db
      → All (λ s. s.version < wf.version + 1) (keep (is_of k) db.versions)
  versions_below k wf db found sound =
      All-In (λ s. s.version < wf.version + 1) (keep (is_of k) db.versions)
        λ r i.
          let own : is_of k r ≡ true = keep_holds (is_of k) r db.versions i in
          let here : r.workflow_id ≡ k = ground arith in
          let (runs, w, at, below) = sound.placed r (In-keep (is_of k) r db.versions i) in
          let one : w ≡ wf = some-injective w wf (sym at ∙ rw here found) in
          let below' : r.version ≤ wf.version = subst (λ x. r.version ≤ x.version) one below in
          omega arith

  own-snoc :
      (k : ℕ) (p : Publication) (wf : Workflow J) (rows : List (WorkflowVersion J))
      → keep (is_of k) (rows ++ version_row p k wf ∷ [])
        ≡ keep (is_of k) rows ++ version_row p k wf ∷ []
  own-snoc k p wf rows =
      let own : is_of k (version_row p k wf) ≡ true = ground arith in
      keep-append (is_of k) rows (version_row p k wf ∷ []) ∙ simp own refl

  others-snoc :
      (j k : ℕ) (p : Publication) (wf : Workflow J) (rows : List (WorkflowVersion J))
      → (j == k) ≡ false
      → keep (is_of j) (rows ++ version_row p k wf ∷ []) ≡ keep (is_of j) rows
  others-snoc j k p wf rows differ =
      let other : is_of j (version_row p k wf) ≡ false = ground arith in
      keep-append (is_of j) rows (version_row p k wf ∷ []) ∙ simp other (append-nil _)

  -- The table of versions after a publication, by workflow.
  pruned-rising :
      (k j : ℕ) (p : Publication) (wf : Workflow J) (db : Db J)
      → lookup k db.workflows ≡ some wf
      → IsSound json db
      → (let after = prune_old_versions k kept_versions (db.versions ++ version_row p k wf ∷ []) in
          IsIncreasing (keep (is_of j) after) × (length (keep (is_of j) after) ≤ kept_versions))
  pruned-rising k j p wf db found sound = elim (Bool-cases (j == k)) [
    | inr differ ↦
        let same =
          others-prune j k kept_versions (db.versions ++ version_row p k wf ∷ []) differ
          ∙ others-snoc j k p wf db.versions differ in
        (
          subst IsIncreasing (sym same) (sound.rising j),
          subst (λ l. length l ≤ kept_versions) (sym same) (sound.few j),
        )
    | inl same ↦
        let here : j ≡ k = ground arith in
        let own = own-prune k kept_versions (db.versions ++ version_row p k wf ∷ []) in
        let all_own = own-snoc k p wf db.versions in
        let up : IsIncreasing (keep (is_of k) (db.versions ++ version_row p k wf ∷ [])) =
          subst IsIncreasing (sym all_own) (
            IsIncreasing-snoc (keep (is_of k) db.versions) (version_row p k wf)
              (versions_below k wf db found sound) (sound.rising k)) in
        subst
          (λ i.
            IsIncreasing (
              keep (is_of i)
                (prune_old_versions k kept_versions (db.versions ++ version_row p k wf ∷ [])))
            × (length (
                  keep (is_of i)
                    (prune_old_versions k kept_versions (db.versions ++ version_row p k wf ∷ [])))
                ≤ kept_versions))
          (sym here)
          (
            subst IsIncreasing (sym own) (IsIncreasing-keep _ _ up),
            subst (λ l. length l ≤ kept_versions) (sym own) (length-keep-newer kept_versions _ up),
          )
  ]

  published-IsSound :
      (p : Publication) (k : ℕ) (wf : Workflow J) (db : Db J)
      → lookup k db.workflows ≡ some wf
      → IsRunnable json wf.graph_data
      → IsSound json db
      → IsSound json (record {
        workflows = insert k (promoted wf) db.workflows;
        versions = prune_old_versions k kept_versions (db.versions ++ version_row p k wf ∷ []);
      })
  unfolding prune_old_versions
  published-IsSound p k wf db found runs sound = record {
    live = live-insert json k (promoted wf) db (λ raw h. subst (IsRunnable json) h runs) sound;
    placed = λ r i. elim (In-snoc r (version_row p k wf) db.versions (In-keep _ r _ i)) [
      | inr old ↦
          placed-insert json k (promoted wf) db
            (λ o at.
              let one : o ≡ wf = some-injective o wf (sym at ∙ found) in rw one (omega arith))
            sound r old
      | inl new ↦ rw new (
        runs,
        promoted wf,
        lookup-insert k k (promoted wf) db.workflows ∙ ground arith,
        omega arith,
      )
    ];
    rising = λ j. (pruned-rising k j p wf db found sound).0;
    few = λ j. (pruned-rising k j p wf db found sound).1;
  }

  publish-IsSound :
      (p : Publication) (k : ℕ) (db : Db J)
      → IsSound json db
      → Written json db (publish json p k db)
  unfolding publish
  publish-IsSound p k db sound = Written-bind json db (get k db) _ sound λ wf got.
      Written-bind json db (parse_strict json wf.graph_data) _ sound λ g parses.
        elim (Bool-cases (ltb (length g.nodes) 2)) [
          | inl small ↦ simp small sound
          | inr big ↦
              elim (Bool-cases
                (any (λ r. is_of k r && (r.version == wf.version + 1)) db.versions)) [
                  | inl taken ↦ simp (big, taken) sound
                  | inr fresh ↦
                      simp (big, fresh)
                        (published-IsSound p k wf db (get_found json k db wf got)
                          (parsed-IsRunnable json wf.graph_data g parses (ground arith)) sound)
                ]
        ]

  apply-IsSound : (c : Call J) (db : Db J) → IsSound json db → IsSound json (apply json c db)
  unfolding apply
  apply-IsSound (created k body user agent) db sound =
      create-IsSound json k body user agent db sound
  apply-IsSound (updated k body) db sound = update-IsSound json k body db sound
  apply-IsSound (deleted k) db sound = delete-IsSound k db sound
  apply-IsSound (published_by p k) db sound = publish-IsSound p k db sound
  apply-IsSound (reverted_to_draft k) db sound = revert-IsSound json k db sound

  -- Whatever calls are made of the service, in a database that is sound at first (an empty one is):
  -- the published graph of every workflow and the graph of every version have a valid structure
  -- (acyclic, one start, edges between nodes) and at least two nodes; a version belongs to a workflow
  -- and is not above its number; and the versions of a workflow have different numbers, in the order
  -- of their publication, and are at most fifty.
  pub apply_all-IsSound :
      (cs : List (Call J)) (db : Db J) → IsSound json db → IsSound json (apply_all json cs db)
  unfolding apply_all
  apply_all-IsSound [] db sound = sound
  apply_all-IsSound (c ∷ cs) db sound =
      apply_all-IsSound cs (apply json c db) (apply-IsSound c db sound)

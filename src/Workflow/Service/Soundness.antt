-- ===== src/Workflow/Service/Soundness.antt =====
-- Sound tables of workflows, and the calls that write one workflow (app/workflow/service.py).
use mathlib.Core.Option.{some-injective, none-ne-some}
use ops_knowledge.Prelude.{
  ℕ, ◌≤◌, ◌≡◌, refl, sym, ap, ◌∙◌, subst, ◌==◌, if◌then◌else◌, Option, none, some, List, [], ◌∷◌,
  arith, inl, inr, Bool-cases, In, keep, length,
}
use ops_knowledge.Prelude.Dict.{lookup, insert, has_key, lookup-insert, has_key-lookup}
use ops_knowledge.Prelude.Results.{Result, ok, err, ◌>>=◌, ◌>>◌, bind_ok}
use ops_knowledge.Workflow.Dsl.{GraphDef, NodeDef, DslError, parse_dsl, validate_structure}
use ops_knowledge.Workflow.Dsl.Valid.{IsValid, validate_structure_exact}
use ops_knowledge.Workflow.Service.{
  GraphJson, ServiceError, Workflow, WorkflowVersion, Db, WorkflowCreate, WorkflowUpdate,
  parse_dsl_loose, structure_error, parse_strict, get, new_workflow, create, patched, update, is_of,
  kept_versions, reverted, revert_to_draft, written,
}
use ops_knowledge.Workflow.Service.Pruning.{IsIncreasing}

-- A graph that can be run: it is read, its structure is valid, and it is more than its start.
pub record IsRunnable {J : Type 0} (json : GraphJson J) (raw : Option J) : Type 0 where
  pub graph : GraphDef
  pub parses : parse_strict json raw ≡ ok graph
  pub valid : IsValid graph
  pub nodes : 2 ≤ length graph.nodes

-- What the strict parser returns is the graph it was given, and a graph with nodes is valid.
parse-IsValid :
    (shape : Option GraphDef) (g : GraphDef)
    → parse_dsl shape ≡ ok g
    → 2 ≤ length g.nodes
    → IsValid g
unfolding parse_dsl
parse-IsValid none g h two = absurd (ground arith)
parse-IsValid (some g') g h two = go g'.nodes refl
  where
    go : (ns : List NodeDef) → g'.nodes ≡ ns → IsValid g
    go [] e = let same : ok g' ≡ ok g = rw e at h in absurd (ground arith)
    go (n ∷ ns) e =
        let checked : (validate_structure g' >> ok g') ≡ ok g = rw e at h in
        let (u, passes, same) = bind_ok (validate_structure g') (λ _. ok g') g checked in
        let one : g' ≡ g = ground arith in
        (validate_structure_exact g).0 (subst (λ x. validate_structure x ≡ ok tt) one passes)

module _ {J : Type 0} (json : GraphJson J) where
  pub parsed-IsRunnable :
      (raw : Option J) (g : GraphDef)
      → parse_strict json raw ≡ ok g
      → 2 ≤ length g.nodes
      → IsRunnable json raw
  unfolding parse_strict
  parsed-IsRunnable raw g h two =
      let (shape, read, strict) = bind_ok (parse_dsl_loose json raw) _ g h in
      record {
        graph = g;
        parses = h;
        valid = parse-IsValid shape g (lifted (parse_dsl shape) strict) two;
        nodes = two;
      }
    where
      lifted : (r : Result DslError GraphDef) → structure_error r ≡ ok g → r ≡ ok g
      lifted (ok x) e = ground arith
      lifted (err x) e = absurd (ground arith)

-- The published graph of every workflow can be run, and so can the graph of every version; a version
-- belongs to a workflow and is not above its number; the versions of a workflow rise, and are at most
-- fifty.
pub record IsSound {J : Type 0} (json : GraphJson J) (db : Db J) : Type 0 where
  pub live :
      (k : ℕ) (wf : Workflow J) (raw : J)
      → lookup k db.workflows ≡ some wf
      → wf.published_graph_data ≡ some raw
      → IsRunnable json (some raw)
  pub placed :
      (r : WorkflowVersion J)
      → In r db.versions
      → IsRunnable json r.graph_data
        × (wf : Workflow J) × (lookup r.workflow_id db.workflows ≡ some wf)
        × (r.version ≤ wf.version)
  pub rising : (k : ℕ) → IsIncreasing (keep (is_of k) db.versions)
  pub few : (k : ℕ) → length (keep (is_of k) db.versions) ≤ kept_versions

module _ {J : Type 0} (json : GraphJson J) where
  pub live-insert :
      (k : ℕ) (wf : Workflow J) (db : Db J)
      → ((raw : J) → wf.published_graph_data ≡ some raw → IsRunnable json (some raw))
      → IsSound json db
      → (j : ℕ) (w : Workflow J) (raw : J) → lookup j (insert k wf db.workflows) ≡ some w
      → w.published_graph_data ≡ some raw
      → IsRunnable json (some raw)
  live-insert k wf db own sound j w raw found at =
      let found' : (if j == k then some wf else lookup j db.workflows) ≡ some w =
        sym (lookup-insert k j wf db.workflows) ∙ found in
      elim (Bool-cases (j == k)) [
        | inr differ ↦ sound.live j w raw (rw differ at found') at
        | inl same ↦
            let one : wf ≡ w = some-injective wf w (rw same at found') in
            own raw (ap (λ x. x.published_graph_data) one ∙ at)
      ]

  pub placed-insert :
      (k : ℕ) (wf : Workflow J) (db : Db J)
      → ((old : Workflow J) → lookup k db.workflows ≡ some old → old.version ≤ wf.version)
      → IsSound json db
      → (r : WorkflowVersion J) → In r db.versions
      → IsRunnable json r.graph_data
        × (w : Workflow J) × (lookup r.workflow_id (insert k wf db.workflows) ≡ some w)
        × (r.version ≤ w.version)
  placed-insert k wf db grows sound r i =
      let (runs, w, found, below) = sound.placed r i in
      let now = lookup-insert k r.workflow_id wf db.workflows in
      elim (Bool-cases (r.workflow_id == k)) [
        | inr differ ↦ (runs, w, now ∙ rw differ found, below)
        | inl same ↦
            let here : r.workflow_id ≡ k = ground arith in
            let grown : w.version ≤ wf.version = grows w (rw here at found) in
            (runs, wf, now ∙ rw same refl, omega arith)
      ]

  -- Another row for a workflow, with no lower version and the graph it had published, or a new one.
  insert-IsSound :
      (k : ℕ) (wf : Workflow J) (db : Db J)
      → ((raw : J) → wf.published_graph_data ≡ some raw → IsRunnable json (some raw))
      → ((old : Workflow J) → lookup k db.workflows ≡ some old → old.version ≤ wf.version)
      → IsSound json db
      → IsSound json (record db { workflows = insert k wf db.workflows })
  insert-IsSound k wf db own grows sound = record {
    live = live-insert k wf db own sound;
    placed = placed-insert k wf db grows sound;
    rising = sound.rising;
    few = sound.few;
  }

  pub get_found :
      (k : ℕ) (db : Db J) (wf : Workflow J) → get k db ≡ ok wf → lookup k db.workflows ≡ some wf
  unfolding get
  get_found k db wf h = ground arith

  abbrev pub Written : Db J → Result ServiceError (Workflow J × Db J) → Type 0
  Written db r = IsSound json (written db r)

  pub Written-bind {ℓ} :
      {A : Type ℓ} (db : Db J) (m : Result ServiceError A)
      (f : A → Result ServiceError (Workflow J × Db J))
      → IsSound json db
      → ((a : A) → m ≡ ok a → Written db (f a))
      → Written db (m >>= f)
  Written-bind db (ok a) f sound h = h a refl
  Written-bind db (err e) f sound h = sound

  pub create-IsSound :
      (k : ℕ) (body : WorkflowCreate J) (user agent : Option ℕ) (db : Db J)
      → IsSound json db
      → Written db (create json k body user agent db)
  unfolding create
  create-IsSound k body user agent db sound =
      Written-bind db (parse_dsl_loose json body.graph_data) _ sound λ shape e.
        elim (Bool-cases (has_key k db.workflows)) [
          | inl taken ↦ simp taken sound
          | inr fresh ↦ simp fresh (
              insert-IsSound k (new_workflow json body user agent) db
                (λ raw h. absurd (none-ne-some raw h))
                (λ old found. absurd (ground (arith, has_key-lookup k db.workflows fresh))) sound)
        ]

  pub update-IsSound :
      (k : ℕ) (body : WorkflowUpdate J) (db : Db J)
      → IsSound json db
      → Written db (update json k body db)
  unfolding update
  update-IsSound k body db sound = Written-bind db (get k db) _ sound λ wf got.
      Written-bind db (parse_dsl_loose json body.graph_data) _ sound λ shape e.
        insert-IsSound k (patched body wf) db
          (λ raw h. sound.live k wf raw (get_found k db wf got) h)
          (λ old found.
            let one : old ≡ wf = some-injective old wf (sym found ∙ get_found k db wf got) in
            rw one (omega arith))
          sound

  pub revert-IsSound : (k : ℕ) (db : Db J) → IsSound json db → Written db (revert_to_draft k db)
  unfolding revert_to_draft
  revert-IsSound k db sound = Written-bind db (get k db) _ sound λ wf got.
      insert-IsSound k (reverted wf) db (λ raw h. sound.live k wf raw (get_found k db wf got) h)
        (λ old found.
          let one : old ≡ wf = some-injective old wf (sym found ∙ get_found k db wf got) in
          rw one (omega arith))
        sound

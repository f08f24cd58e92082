-- ===== src/Workflow/Service.antt =====
-- Drafts, publication and versions of workflows: `WorkflowService` of app/workflow/service.py, over
-- the tables of app/workflow/models.py. `J` is the JSON of a graph. Raised errors leave the tables as
-- they were, since the session is not committed.
pub mod Pruning
pub mod Soundness
pub mod Versions
use ops_knowledge.Prelude.{
  ℕ, ◌+◌, Bool, true, false, not, ◌&&◌, ◌||◌, ◌==◌, ltb, if◌then◌else◌, Option, none, some, List,
  [], ◌∷◌, ◌++◌, String, any, keep, length,
}
use ops_knowledge.Prelude.Dict.{Dict, lookup, insert, remove, has_key}
use ops_knowledge.Prelude.Results.{Result, ok, err, ◌>>=◌}
use ops_knowledge.Prelude.Texts.{Text}
use ops_knowledge.Workflow.Dsl.{GraphDef, DslError, parse_dsl}

-- What the code reads of a graph's JSON: whether it is falsy, how many nodes its list of nodes has,
-- the reading by the schema of dsl.py; and the graph that is the seed of new workflows.
pub record GraphJson (J : Type 0) : Type 0 where
  pub is_blank : J → Bool
  pub node_count : J → Option ℕ
  pub model_validate : J → Option GraphDef
  pub default_seed_graph : J

pub data ServiceError : Type 0 where
  workflow_not_found : ℕ → ServiceError
  invalid_shape too_few_nodes version_taken id_taken : ServiceError
  invalid_structure : DslError → ServiceError

pub data WorkflowStatus : Type 0 where
  draft published : WorkflowStatus

pub record Workflow (J : Type 0) : Type 0 where
  pub name : Text
  pub description : Option Text
  pub version : ℕ
  pub status : WorkflowStatus
  pub trigger_type : String
  pub graph_data : Option J
  pub published_graph_data : Option J
  pub owner_agent_id : Option ℕ
  pub created_by : Option ℕ

pub record WorkflowVersion (J : Type 0) : Type 0 where
  pub workflow_id : ℕ
  pub version : ℕ
  pub graph_data : Option J
  pub published_by : Option ℕ
  pub published_at : ℕ
  pub change_note : Option Text

pub record Db (J : Type 0) : Type 0 where
  pub workflows : Dict (Workflow J)
  pub versions : List (WorkflowVersion J)

pub record WorkflowCreate (J : Type 0) : Type 0 where
  pub name : Text
  pub description : Option Text
  pub trigger_type : String
  pub graph_data : Option J

pub record WorkflowUpdate (J : Type 0) : Type 0 where
  pub name : Option Text
  pub description : Option Text
  pub graph_data : Option J

-- The user, the time and the note of a publication.
pub record Publication : Type 0 where
  pub user_id : Option ℕ
  pub published_at : ℕ
  pub change_note : Option Text

abbrev pub structure_error : Result DslError GraphDef → Result ServiceError GraphDef
structure_error (ok g) = ok g
structure_error (err e) = err (invalid_structure e)

abbrev pub or_kept {ℓ} : {A : Type ℓ} → A → Option A → A
or_kept a none = a
or_kept a (some b) = b

abbrev pub kept_versions : ℕ
kept_versions = 50

module _ {J : Type 0} where
  unfoldable pub get : ℕ → Db J → Result ServiceError (Workflow J)
  get wf_id db = elim (lookup wf_id db.workflows) [
    | none ↦ err (workflow_not_found wf_id)
    | some wf ↦ ok wf
  ]

  abbrev pub patched : WorkflowUpdate J → Workflow J → Workflow J
  patched body wf = record wf {
    graph_data = elim body.graph_data [ none ↦ wf.graph_data | some g ↦ some g ];
    name = or_kept wf.name body.name;
    description = elim body.description [ none ↦ wf.description | some d ↦ some d ];
  }

  abbrev pub is_of : ℕ → WorkflowVersion J → Bool
  is_of wf_id r = r.workflow_id == wf_id

  -- The foreign key of the versions cascades.
  unfoldable pub delete : ℕ → Db J → Result ServiceError (Db J)
  delete wf_id db = do
    _ ← get wf_id db
    ok (record {
      workflows = remove wf_id db.workflows;
      versions = keep (λ r. not (is_of wf_id r)) db.versions;
    })

  -- How many rows come before a row in the order of descending versions.
  abbrev pub newer : WorkflowVersion J → List (WorkflowVersion J) → ℕ
  newer r rows = length (keep (λ s. ltb r.version s.version) rows)

  -- The rows after the first `kept` ones of a workflow are deleted.
  unfoldable pub prune_old_versions : ℕ → ℕ → List (WorkflowVersion J) → List (WorkflowVersion J)
  prune_old_versions wf_id kept rows =
      keep (λ r. not (is_of wf_id r) || ltb (newer r (keep (is_of wf_id) rows)) kept) rows

  abbrev pub promoted : Workflow J → Workflow J
  promoted wf = record wf {
    version = wf.version + 1;
    status = published;
    published_graph_data = wf.graph_data;
  }

  abbrev pub version_row : Publication → ℕ → Workflow J → WorkflowVersion J
  version_row p wf_id wf = record {
    workflow_id = wf_id;
    version = wf.version + 1;
    graph_data = wf.graph_data;
    published_by = p.user_id;
    published_at = p.published_at;
    change_note = p.change_note;
  }

  abbrev pub reverted : Workflow J → Workflow J
  reverted wf = record wf { status = draft }

  unfoldable pub revert_to_draft : ℕ → Db J → Result ServiceError (Workflow J × Db J)
  revert_to_draft wf_id db = do
    wf ← get wf_id db
    ok (reverted wf, record db { workflows = insert wf_id (reverted wf) db.workflows })

module _ {J : Type 0} (json : GraphJson J) where
  -- `model_validate`, and an empty graph for what is falsy.
  unfoldable pub parse_dsl_loose : Option J → Result ServiceError (Option GraphDef)
  parse_dsl_loose none = ok none
  parse_dsl_loose (some raw) =
      if json.is_blank raw
      then ok none
      else elim (json.model_validate raw) [ none ↦ err invalid_shape | some g ↦ ok (some g) ]

  unfoldable pub parse_strict : Option J → Result ServiceError GraphDef
  parse_strict raw = do shape ← parse_dsl_loose raw; structure_error (parse_dsl shape)

  unfoldable pub has_any_node : Option J → Bool
  has_any_node none = false
  has_any_node (some raw) =
      not (json.is_blank raw) && elim (json.node_count raw) [ none ↦ false | some n ↦ ltb 0 n ]

  abbrev pub seeded : Option J → Option J
  seeded raw = if has_any_node raw then raw else some json.default_seed_graph

  abbrev pub new_workflow : WorkflowCreate J → Option ℕ → Option ℕ → Workflow J
  new_workflow body user_id owner_agent_id = record {
    name = body.name;
    description = body.description;
    version = 0;
    status = draft;
    trigger_type = body.trigger_type;
    graph_data = seeded body.graph_data;
    published_graph_data = none;
    owner_agent_id = owner_agent_id;
    created_by = user_id;
  }

  -- `fresh_id` is the UUID that the row gets.
  unfoldable pub create :
      ℕ → WorkflowCreate J → Option ℕ → Option ℕ → Db J → Result ServiceError (Workflow J × Db J)
  create fresh_id body user_id owner_agent_id db = do
    _ ← parse_dsl_loose body.graph_data
    let wf = new_workflow body user_id owner_agent_id
    if has_key fresh_id db.workflows
        then err id_taken
        else ok (wf, record db { workflows = insert fresh_id wf db.workflows })

  -- A graph that is not given has nothing to parse.
  unfoldable pub update : ℕ → WorkflowUpdate J → Db J → Result ServiceError (Workflow J × Db J)
  update wf_id body db = do
    wf ← get wf_id db
    _ ← parse_dsl_loose body.graph_data
    ok (patched body wf, record db { workflows = insert wf_id (patched body wf) db.workflows })

  -- The flush checks that a workflow has no two rows with the same version.
  unfoldable pub publish : Publication → ℕ → Db J → Result ServiceError (Workflow J × Db J)
  publish p wf_id db = do
    wf ← get wf_id db
    dsl ← parse_strict wf.graph_data
    if ltb (length dsl.nodes) 2
        then err too_few_nodes
        else if any (λ r. is_of wf_id r && (r.version == wf.version + 1)) db.versions
        then err version_taken
        else ok (
          promoted wf,
          record {
            workflows = insert wf_id (promoted wf) db.workflows;
            versions =
                prune_old_versions wf_id kept_versions (db.versions ++ version_row p wf_id wf ∷ []);
          },
        )

-- The calls of the service; one that raises changes nothing.
pub data Call (J : Type 0) : Type 0 where
  created : ℕ → WorkflowCreate J → Option ℕ → Option ℕ → Call J
  updated : ℕ → WorkflowUpdate J → Call J
  deleted : ℕ → Call J
  published_by : Publication → ℕ → Call J
  reverted_to_draft : ℕ → Call J

module _ {J : Type 0} where
  abbrev pub written : Db J → Result ServiceError (Workflow J × Db J) → Db J
  written db (ok (wf, db')) = db'
  written db (err e) = db

  abbrev pub removed : Db J → Result ServiceError (Db J) → Db J
  removed db (ok db') = db'
  removed db (err e) = db

module _ {J : Type 0} (json : GraphJson J) where
  unfoldable pub apply : Call J → Db J → Db J
  apply (created k body user agent) db = written db (create json k body user agent db)
  apply (updated k body) db = written db (update json k body db)
  apply (deleted k) db = removed db (delete k db)
  apply (published_by p k) db = written db (publish json p k db)
  apply (reverted_to_draft k) db = written db (revert_to_draft k db)

  unfoldable pub apply_all : List (Call J) → Db J → Db J
  apply_all [] db = db
  apply_all (c ∷ cs) db = apply_all cs (apply c db)

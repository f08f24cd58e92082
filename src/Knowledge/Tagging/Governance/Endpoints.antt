-- ===== src/Knowledge/Tagging/Governance/Endpoints.antt =====
-- The handlers that change a tag dictionary: app/knowledge/tagging/router.py. `kbs` are the bases
-- there are, and `can_edit` says on which of them `check_resource_access` lets the caller edit. A
-- request that raises is rolled back.
use ops_knowledge.Prelude.{ℕ, Bool, not, ◌==◌, if◌then◌else◌, Option, List, [], ◌∷◌, mem}
use ops_knowledge.Prelude.Results.{Result, ok, err, ◌>>=◌}
use ops_knowledge.Prelude.Texts.{Text, text_eq}
use ops_knowledge.Knowledge.Tagging.{TagDictionary}
use ops_knowledge.Knowledge.Tagging.Governance.{
  Db, GovernanceError, duplicate_canonical, entry_not_found, target_not_found, across_bases,
  source_is_target, create, set_aliases, rename, merge, soft_delete,
}

pub data HttpError : Type 0 where
  kb_not_found forbidden : HttpError
  not_found bad_request : GovernanceError → HttpError
  target_in_sources not_of_base : HttpError
  -- The handlers catch ValueError only.
  integrity_error : Text → HttpError

-- The tasks that rewrite the tags of entries and chunks.
pub data Task : Type 0 where
  backfill_tag_rename : (kb_id : ℕ) → (old new : Text) → Task
  backfill_tag_merge : (kb_id : ℕ) → (sources : List Text) → (target : Text) → Task

pub record Reply : Type 0 where
  pub item : TagDictionary
  pub tasks : List Task
  pub db : Db

unfoldable pub raised : (GovernanceError → HttpError) → GovernanceError → HttpError
raised code entry_not_found = code entry_not_found
raised code target_not_found = code target_not_found
raised code across_bases = code across_bases
raised code source_is_target = code source_is_target
raised code (duplicate_canonical canonical) = integrity_error canonical

abbrev pub catching {ℓ} :
    {A : Type ℓ} → (GovernanceError → HttpError) → Result GovernanceError A → Result HttpError A
catching code (ok a) = ok a
catching code (err e) = err (raised code e)

-- The row has to be of the base of the address.
abbrev pub require_own {ℓ} : {A : Type ℓ} → ℕ → TagDictionary → A → Result HttpError A
require_own kb_id row reply = if row.kb_id == kb_id then ok reply else err not_of_base

module _ (kbs : List ℕ) (can_edit : ℕ → Bool) where
  unfoldable pub require_kb_access : ℕ → Result HttpError ℕ
  require_kb_access kb_id =
      if not (mem kb_id kbs)
      then err kb_not_found
      else (if can_edit kb_id then ok kb_id else err forbidden)

  unfoldable pub create_tag :
      ℕ → ℕ → Text → Option (List Text) → Option ℕ → Db → Result HttpError Reply
  create_tag fresh_id kb_id canonical aliases user db = do
    _ ← require_kb_access kb_id
    out ← catching bad_request (create fresh_id kb_id canonical aliases user db)
    ok (record { item = out.0; tasks = []; db = out.1 })

  unfoldable pub set_tag_aliases : ℕ → ℕ → List Text → Option ℕ → Db → Result HttpError Reply
  set_tag_aliases kb_id dict_id aliases user db = do
    _ ← require_kb_access kb_id
    out ← catching not_found (set_aliases dict_id aliases user db)
    require_own kb_id out.0 (record { item = out.0; tasks = []; db = out.1 })

  unfoldable pub rename_tag : ℕ → ℕ → Text → Option ℕ → Db → Result HttpError Reply
  rename_tag kb_id dict_id canonical user db = do
    _ ← require_kb_access kb_id
    out ← catching not_found (rename dict_id canonical user db)
    require_own kb_id out.0.0 (record {
      item = out.0.0;
      tasks =
          if text_eq out.0.1 out.0.0.canonical
          then []
          else backfill_tag_rename kb_id out.0.1 out.0.0.canonical ∷ [];
      db = out.1;
    })

  unfoldable pub merge_tags : ℕ → List ℕ → ℕ → Option ℕ → Db → Result HttpError Reply
  merge_tags kb_id source_ids target_id user db = do
    _ ← require_kb_access kb_id
    _ ← if mem target_id source_ids then err target_in_sources else ok kb_id
    out ← catching bad_request (merge source_ids target_id user db)
    require_own kb_id out.0.0 (record {
      item = out.0.0;
      tasks = elim out.0.1 [
        | [] ↦ []
        | c ∷ cs ↦ backfill_tag_merge kb_id (c ∷ cs) out.0.0.canonical ∷ []
      ];
      db = out.1;
    })

  unfoldable pub soft_delete_tag : ℕ → ℕ → Option ℕ → Db → Result HttpError Reply
  soft_delete_tag kb_id dict_id user db = do
    _ ← require_kb_access kb_id
    out ← catching not_found (soft_delete dict_id user db)
    require_own kb_id out.0 (record { item = out.0; tasks = []; db = out.1 })

-- The routes, by what the request names.
pub data Request : Type 0 where
  create_request : (fresh_id : ℕ) → (canonical : Text) → Option (List Text) → Request
  aliases_request : (dict_id : ℕ) → (aliases : List Text) → Request
  rename_request : (dict_id : ℕ) → (canonical : Text) → Request
  merge_request : (source_ids : List ℕ) → (target_id : ℕ) → Request
  delete_request : (dict_id : ℕ) → Request

module _ (kbs : List ℕ) (can_edit : ℕ → Bool) where
  unfoldable pub handle : ℕ → Option ℕ → Request → Db → Result HttpError Reply
  handle kb_id user (create_request fresh_id canonical aliases) db =
      create_tag kbs can_edit fresh_id kb_id canonical aliases user db
  handle kb_id user (aliases_request dict_id aliases) db =
      set_tag_aliases kbs can_edit kb_id dict_id aliases user db
  handle kb_id user (rename_request dict_id canonical) db =
      rename_tag kbs can_edit kb_id dict_id canonical user db
  handle kb_id user (merge_request source_ids target_id) db =
      merge_tags kbs can_edit kb_id source_ids target_id user db
  handle kb_id user (delete_request dict_id) db = soft_delete_tag kbs can_edit kb_id dict_id user db

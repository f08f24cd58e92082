-- ===== src/Knowledge/Lifecycle.antt =====
-- The daily sweep over documents and entries: `_run_lifecycle` and its helpers of
-- app/knowledge/lifecycle/tasks.py, and `mark_stale_units` of app/knowledge/sources/entry.py. Times
-- are seconds. A row that changes gets the time of the transaction as `updated_at`, as the mixin of
-- app/core/models.py has it.
pub mod Documents
pub mod Archiving
use ops_knowledge.Prelude.{
  ℕ, ◌+◌, ◌*◌, Bool, true, false, not, ◌&&◌, ◌||◌, ◌==◌, ltb, leb, if◌then◌else◌, Option, none,
  some, List, [], ◌∷◌, ◌++◌, map, length, keep, mem, dedup,
}
use ops_knowledge.Prelude.Dict.{Dict, lookup}
use ops_knowledge.Prelude.Queries.{select}
use ops_knowledge.Prelude.Texts.{Text}
use ops_knowledge.Department.Models.{UserDepartment, is_dept_admin}

pub data SourceType : Type 0 where
  file entry unregistered : SourceType

-- The two settings are those of `governance_config`.
pub record KnowledgeBase : Type 0 where
  pub id : ℕ
  pub name : Text
  pub is_active : Bool
  pub source_type : SourceType
  pub expiration_threshold_days : Option ℕ
  pub auto_archive_idle_days : Option ℕ

pub record Document : Type 0 where
  pub id : ℕ
  pub knowledge_base_id : ℕ
  pub title : Text
  pub created_by : ℕ
  pub is_archived : Bool
  pub is_stale : Bool
  pub stale_since : Option ℕ
  pub updated_at : ℕ

pub record KnowledgeEntry : Type 0 where
  pub id : ℕ
  pub knowledge_base_id : ℕ
  pub is_archived : Bool
  pub is_stale : Bool
  pub stale_since : Option ℕ
  pub updated_at : ℕ

pub record Chunk : Type 0 where
  pub knowledge_base_id : ℕ
  pub of_document : Bool
  pub unit_id : ℕ
  pub review_excluded : Bool

pub record ChunkUsageEvent : Type 0 where
  pub chunk_id : ℕ
  pub is_hit : Bool
  pub created_at : ℕ

pub data NoticeType : Type 0 where
  document_stale : (updated_stale heat_cliff : Bool) → NoticeType
  document_archived : NoticeType

pub record Notification : Type 0 where
  pub user_id : ℕ
  pub type : NoticeType
  pub resource_id : ℕ

pub record Stats : Type 0 where
  pub kbs : ℕ
  pub new_stale : ℕ
  pub cleared_stale : ℕ
  pub archived : ℕ
  pub notifications : ℕ

-- The tables that are only read.
pub record Tables : Type 0 where
  pub knowledge_bases : List KnowledgeBase
  pub chunks : Dict Chunk
  pub events : List ChunkUsageEvent
  pub members : List UserDepartment

pub record Db : Type 0 where
  pub tables : Tables
  pub documents : List Document
  pub entries : List KnowledgeEntry
  pub notifications : List Notification

-- The task's `now`, and `now()` of its transaction, which starts later.
pub record Clock : Type 0 where
  pub now : ℕ
  pub transaction : ℕ

abbrev pub days : ℕ → ℕ
days n = n * 86400

abbrev pub default_expiration_days : ℕ
default_expiration_days = 90

abbrev pub default_auto_archive_idle_days : ℕ
default_auto_archive_idle_days = 30

abbrev pub or_default : ℕ → Option ℕ → ℕ
or_default d none = d
or_default d (some n) = n

abbrev pub expiration_days : KnowledgeBase → ℕ
expiration_days kb = or_default default_expiration_days kb.expiration_threshold_days

abbrev pub idle_days : KnowledgeBase → ℕ
idle_days kb = or_default default_auto_archive_idle_days kb.auto_archive_idle_days

-- `t < now - n days`
abbrev pub is_before : ℕ → Clock → ℕ → Bool
is_before t clock n = ltb (t + days n) clock.now

-- The join with the chunk of an event, and the conditions on it.
abbrev pub is_hit_of : Dict Chunk → ℕ → ℕ → ChunkUsageEvent → Bool
is_hit_of chunks kb_id doc_id e = e.is_hit && elim (lookup e.chunk_id chunks) [
  | none ↦ false
  | some c ↦
      (c.knowledge_base_id == kb_id)
      && c.of_document
      && not c.review_excluded
      && (c.unit_id == doc_id)
]

-- The row of a document in the sums, (0, 0) if it has none.
unfoldable pub compute_doc_hit_windows : Tables → Clock → ℕ → ℕ → ℕ × ℕ
compute_doc_hit_windows tables clock kb_id doc_id =
    let hits = keep (is_hit_of tables.chunks kb_id doc_id) tables.events in
    (
      length (keep (λ e. leb clock.now (e.created_at + days 7)) hits),
      length (
          keep
            (λ e. leb clock.now (e.created_at + days 14) && ltb (e.created_at + days 7) clock.now)
            hits),
    )

unfoldable pub dept_admin_ids : List UserDepartment → ℕ → List ℕ
dept_admin_ids members user_id =
    let dept_ids = select (λ m. m.department_id) (λ m. m.user_id == user_id) members in
    let admin_rows = dedup (
      select (λ m. m.user_id) (λ m. mem m.department_id dept_ids && is_dept_admin m.role)
        members) in
    keep (λ u. not (u == user_id)) admin_rows

-- `_notify_stale` and `_notify_archived`, which differ in the text.
unfoldable pub notify : List UserDepartment → NoticeType → Document → List Notification
notify members type doc =
    map (λ uid. record { user_id = uid; type = type; resource_id = doc.id })
      (doc.created_by ∷ dept_admin_ids members doc.created_by)

-- What the loop has counted and added so far.
pub record Progress : Type 0 where
  pub stats : Stats
  pub notifications : List Notification

abbrev pub count_new_stale : ℕ → Stats → Stats
count_new_stale n s = record s { new_stale = s.new_stale + n }

abbrev pub count_notified : ℕ → Stats → Stats
count_notified n s = record s { notifications = s.notifications + n }

-- `hits7 < hits_prev7 * 0.3` on whole numbers
abbrev pub is_heat_cliff : ℕ × ℕ → Bool
is_heat_cliff (hits7, hits_prev7) = ltb 0 hits_prev7 && ltb (10 * hits7) (3 * hits_prev7)

abbrev pub is_idle : Document → Clock → ℕ → Bool
is_idle doc clock n = elim doc.stale_since [ none ↦ false | some t ↦ is_before t clock n ]

-- The body of the loop over the documents of a knowledge base.
unfoldable pub sweep_doc :
    Tables → KnowledgeBase → Clock → Document → Progress → Document × Progress
sweep_doc tables kb clock doc p =
    let updated_stale = is_before doc.updated_at clock (expiration_days kb) in
    let heat_cliff = is_heat_cliff (compute_doc_hit_windows tables clock kb.id doc.id) in
    let should_be_stale = updated_stale || heat_cliff in
    if should_be_stale && not doc.is_stale
    then (let sent = notify tables.members (document_stale updated_stale heat_cliff) doc in
        (
          record doc {
            is_stale = true;
            stale_since = some clock.now;
            updated_at = clock.transaction;
          },
          record {
            stats = count_notified (length sent) (count_new_stale 1 p.stats);
            notifications = p.notifications ++ sent;
          },
        ))
    else (if not should_be_stale && doc.is_stale
        then (
          record doc { is_stale = false; stale_since = none; updated_at = clock.transaction },
          record p { stats = record p.stats { cleared_stale = p.stats.cleared_stale + 1 } },
        )
        else (if doc.is_stale && is_idle doc clock (idle_days kb)
            then (let sent = notify tables.members document_archived doc in
                (
                  record doc { is_archived = true; updated_at = clock.transaction },
                  record {
                    stats =
                        count_notified (length sent)
                          (record p.stats { archived = p.stats.archived + 1 });
                    notifications = p.notifications ++ sent;
                  },
                ))
            else (doc, p)))

abbrev pub is_swept : KnowledgeBase → Document → Bool
is_swept kb doc = (doc.knowledge_base_id == kb.id) && not doc.is_archived

unfoldable pub sweep_docs :
    Tables → KnowledgeBase → Clock → List Document → Progress → List Document × Progress
sweep_docs tables kb clock [] p = ([], p)
sweep_docs tables kb clock (doc ∷ docs) p =
    let (doc', p') = if is_swept kb doc then sweep_doc tables kb clock doc p else (doc, p) in
    let (docs', p'') = sweep_docs tables kb clock docs p' in (doc' ∷ docs', p'')

-- The rows that the UPDATE matches: those with `updated_at < cutoff`. The time it sets is taken to be
-- the `now` of the task.
abbrev pub is_expired : ℕ → Clock → ℕ → KnowledgeEntry → Bool
is_expired kb_id clock n e =
    (e.knowledge_base_id == kb_id)
    && not e.is_archived
    && not e.is_stale
    && is_before e.updated_at clock n

unfoldable pub mark_stale_units : ℕ → Clock → ℕ → List KnowledgeEntry → List KnowledgeEntry × ℕ
mark_stale_units kb_id clock n entries = (
  map
      (λ e.
        if is_expired kb_id clock n e
        then record e {
          is_stale = true;
          stale_since = some clock.now;
          updated_at = clock.transaction;
        }
        else e)
      entries,
  length (keep (is_expired kb_id clock n) entries),
)

abbrev pub Sweep : Type 0
Sweep = List Document × List KnowledgeEntry × Progress

-- By the source type; one without a plugin raises, which is logged.
abbrev pub sweep_source : SourceType → Tables → Clock → KnowledgeBase → Sweep → Sweep
sweep_source unregistered tables clock kb state = state
sweep_source entry tables clock kb (docs, entries, p) =
    let (entries', marked) = mark_stale_units kb.id clock (expiration_days kb) entries in
    (docs, entries', record p { stats = count_new_stale marked p.stats })
sweep_source file tables clock kb (docs, entries, p) =
    let (docs', p') = sweep_docs tables kb clock docs p in (docs', entries, p')

unfoldable pub sweep_kb : Tables → Clock → KnowledgeBase → Sweep → Sweep
sweep_kb tables clock kb (docs, entries, p) =
    sweep_source kb.source_type tables clock kb
      (docs, entries, record p { stats = record p.stats { kbs = p.stats.kbs + 1 } })

unfoldable pub sweep_kbs : Tables → Clock → List KnowledgeBase → Sweep → Sweep
sweep_kbs tables clock [] state = state
sweep_kbs tables clock (kb ∷ kbs) state =
    sweep_kbs tables clock kbs (if kb.is_active then sweep_kb tables clock kb state else state)

abbrev pub no_stats : Stats
no_stats = record { kbs = 0; new_stale = 0; cleared_stale = 0; archived = 0; notifications = 0 }

unfoldable pub run_lifecycle : Clock → Db → Db × Stats
run_lifecycle clock db =
    let (docs, entries, p) =
      sweep_kbs db.tables clock db.tables.knowledge_bases
        (db.documents, db.entries, record { stats = no_stats; notifications = db.notifications }) in
    (record db { documents = docs; entries = entries; notifications = p.notifications }, p.stats)

-- The task on one day after another.
unfoldable pub run_daily : List Clock → Db → Db
run_daily [] db = db
run_daily (clock ∷ clocks) db = run_daily clocks (run_lifecycle clock db).0

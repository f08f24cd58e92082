-- ===== src/Examples/Lifecycles.antt =====
-- Tests and instances for app/knowledge/lifecycle/tasks.py.
use ops_knowledge.Prelude.{
  ℕ, ◌+◌, ◌≡◌, refl, true, false, none, some, [], ◌∷◌, map, get_elem?, arith,
}
use ops_knowledge.Prelude.Texts.{codes}
use ops_knowledge.Department.Models.{UserDepartment, dept_admin}
use ops_knowledge.Knowledge.Lifecycle.{
  SourceType, file, entry, KnowledgeBase, Document, Db, Clock, days, document_stale,
  compute_doc_hit_windows, dept_admin_ids, notify, sweep_doc, sweep_docs, mark_stale_units,
  sweep_kb, sweep_kbs, run_lifecycle, run_daily,
}
use ops_knowledge.Knowledge.Lifecycle.Documents.{after_run, run_lifecycle_exact}
use ops_knowledge.Knowledge.Lifecycle.Archiving.{never_archived}

abbrev kb_of : ℕ → SourceType → KnowledgeBase
kb_of id source_type = record {
  id = id;
  name = codes "b";
  is_active = true;
  source_type = source_type;
  expiration_threshold_days = some 90;
  auto_archive_idle_days = none;
}

abbrev old_doc : Document
old_doc = record {
  id = 1;
  knowledge_base_id = 7;
  title = codes "t";
  created_by = 5;
  is_archived = false;
  is_stale = false;
  stale_since = none;
  updated_at = 1000;
}

abbrev belongs : ℕ → ℕ → UserDepartment
belongs user dept = record {
  user_id = user;
  department_id = dept;
  role = dept_admin;
  is_primary = true;
}

abbrev db : Db
db = record {
  tables = record {
    knowledge_bases = kb_of 7 file ∷ kb_of 8 entry ∷ [];
    chunks =
        (
          3,
          record {
            knowledge_base_id = 7;
            of_document = true;
            unit_id = 1;
            review_excluded = false;
          },
        )
        ∷ [];
    events = [];
    members = belongs 5 2 ∷ belongs 6 2 ∷ [];
  };
  documents = old_doc ∷ [];
  entries =
      record {
        id = 4;
        knowledge_base_id = 8;
        is_archived = false;
        is_stale = false;
        stale_since = none;
        updated_at = 1000;
      }
      ∷ [];
  notifications = [];
}

abbrev day : ℕ → Clock
day n = record { now = days n; transaction = days n + 1 }

-- The owner and the other administrator of the department are told.
first_run_marks : run_lifecycle (day 100) db ≡ (
  record db {
    documents =
        record old_doc { is_stale = true; stale_since = some (days 100); updated_at = 8640001 }
        ∷ [];
    entries =
        record {
          id = 4;
          knowledge_base_id = 8;
          is_archived = false;
          is_stale = true;
          stale_since = some (days 100);
          updated_at = 8640001;
        }
        ∷ [];
    notifications =
        record { user_id = 5; type = document_stale true false; resource_id = 1 }
        ∷ record { user_id = 6; type = document_stale true false; resource_id = 1 }
        ∷ [];
  },
  record { kbs = 2; new_stale = 2; cleared_stale = 0; archived = 0; notifications = 2 },
)
unfolding run_lifecycle sweep_kbs sweep_kb sweep_docs sweep_doc mark_stale_units notify
    dept_admin_ids compute_doc_hit_windows
first_run_marks = refl

-- Nobody touched the document.
second_run_clears :
    (run_daily (day 100 ∷ day 101 ∷ []) db).documents ≡ record old_doc { updated_at = 8726401 } ∷ []
unfolding run_daily run_lifecycle sweep_kbs sweep_kb sweep_docs sweep_doc mark_stale_units notify
    dept_admin_ids compute_doc_hit_windows
second_run_clears = refl

-- Ten hits in the week before last and two in the last one: the second is below three tenths.
hits_fall :
    compute_doc_hit_windows
      (record db.tables {
        events =
            record { chunk_id = 3; is_hit = true; created_at = days 90 }
            ∷ record { chunk_id = 3; is_hit = true; created_at = days 95 }
            ∷ record { chunk_id = 3; is_hit = false; created_at = days 95 }
            ∷ [];
      })
      (day 100)
      7
      1
    ≡ (1, 1)
unfolding compute_doc_hit_windows
hits_fall = refl

run_lifecycle_exact_example :
    (run_lifecycle (day 100) db).0.documents ≡ map (after_run db.tables (day 100)) db.documents
run_lifecycle_exact_example = run_lifecycle_exact (day 100) db (refl, (refl, tt))

never_archived_example :
    (doc' : Document) × (get_elem?
        (run_daily (day 50 ∷ day 100 ∷ day 150 ∷ day 200 ∷ []) db).documents
        0
      ≡ some doc')
    × (doc'.is_archived ≡ false)
never_archived_example =
    never_archived (day 50 ∷ day 100 ∷ day 150 ∷ day 200 ∷ []) db old_doc (kb_of 7 file) 0 0
      (refl, (refl, tt)) refl refl refl refl (λ h. omega arith)
      (
        omega arith,
        omega arith,
        (omega arith, omega arith, (omega arith, omega arith, (omega arith, omega arith, tt))),
      )

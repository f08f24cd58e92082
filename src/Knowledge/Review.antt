-- ===== src/Knowledge/Review.antt =====
-- The review of documents: `ReviewService` of app/knowledge/review/service.py, over the tables that
-- it reads and writes. Every method raises before it writes.
pub mod Chunks
pub mod Visibility
pub mod Notices
use ops_knowledge.Prelude.{
  ℕ, Bool, true, false, not, ◌&&◌, ◌||◌, ◌==◌, ltb, if◌then◌else◌, Option, none, some, List, [],
  ◌∷◌, ◌++◌, any, keep, take,
}
use ops_knowledge.Prelude.Dict.{Dict, lookup, insert}
use ops_knowledge.Prelude.Results.{Result, ok, err, ◌>>=◌}
use ops_knowledge.Prelude.Texts.{Text, codes}
use ops_knowledge.Knowledge.Reviewers.{KnowledgeBase, Directory, get_candidate_reviewers}

pub data ReviewStatus : Type 0 where
  pending approved rejected : ReviewStatus

pub data ReviewError : Type 0 where
  not_found : ℕ → ReviewError
  unsupported_decision : ReviewStatus → ReviewError
  not_subject_to_review : ReviewError

pub record Document : Type 0 where
  pub id : ℕ
  pub knowledge_base_id : ℕ
  pub title : Text
  pub is_archived : Bool
  pub review_status : Option ReviewStatus
  pub reviewer_id : Option ℕ
  pub reviewed_at : Option ℕ
  pub review_comment : Option Text
  pub last_pending_started_at : Option ℕ
  pub created_by : ℕ

pub data UnitType : Type 0 where
  document entry : UnitType

pub record Chunk : Type 0 where
  pub unit_type : UnitType
  pub unit_id : ℕ
  pub review_excluded : Bool

pub data NoticeType : Type 0 where
  review_pending review_comment : NoticeType
  review_decided : ReviewStatus → NoticeType

pub record Notification : Type 0 where
  pub user_id : ℕ
  pub type : NoticeType
  pub title : Text
  pub content : Text
  pub resource_id : ℕ
  pub created_at : ℕ

pub record Db : Type 0 where
  pub knowledge_bases : Dict KnowledgeBase
  pub documents : Dict Document
  pub chunks : List Chunk
  pub notifications : List Notification
  pub directory : Directory

-- What the database stamps on new rows (the start of the transaction), and datetime.now().
pub record Clock : Type 0 where
  pub started : ℕ
  pub now : ℕ

-- Raised errors leave the tables as they were.
abbrev pub Reply : Type 0
Reply = Result ReviewError (Document × Db)

unfoldable pub get_doc : ℕ → Db → Result ReviewError Document
get_doc doc_id db = elim (lookup doc_id db.documents) [
  | none ↦ err (not_found doc_id)
  | some doc ↦ ok doc
]

abbrev pub is_chunk_of : ℕ → Chunk → Bool
is_chunk_of doc_id c = elim c.unit_type [ document ↦ c.unit_id == doc_id | entry ↦ false ]

unfoldable pub set_chunks_excluded : ℕ → Bool → List Chunk → List Chunk
set_chunks_excluded doc_id excluded [] = []
set_chunks_excluded doc_id excluded (c ∷ cs) =
    (if is_chunk_of doc_id c then record c { review_excluded = excluded } else c)
    ∷ set_chunks_excluded doc_id excluded cs

-- A notice of the pending period that began at `started`.
abbrev pub is_pending_notice : ℕ → ℕ → Notification → Bool
is_pending_notice doc_id started n = elim n.type [
  | review_pending ↦ (n.resource_id == doc_id) && ltb started n.created_at
  | _ ↦ false
]

abbrev pub already_notified : Document → List Notification → Bool
already_notified doc ns = elim doc.last_pending_started_at [
  | none ↦ false
  | some started ↦ any (is_pending_notice doc.id started) ns
]

pub pending_notices : KnowledgeBase → Document → ℕ → List ℕ → List Notification
pending_notices kb doc stamp [] = []
pending_notices kb doc stamp (uid ∷ uids) =
    record {
      user_id = uid;
      type = review_pending;
      title = codes "待审批：「" ++ (doc.title ++ codes "」");
      content = codes "知识库「" ++ (kb.name ++ codes "」有新文档等待审批。");
      resource_id = doc.id;
      created_at = stamp;
    }
    ∷ pending_notices kb doc stamp uids

-- With no candidate but the author, the author is notified.
abbrev pub notice_targets : KnowledgeBase → Document → Directory → List ℕ
notice_targets kb doc dir = elim (get_candidate_reviewers dir kb (doc.created_by ∷ [])) [
  | [] ↦ doc.created_by ∷ []
  | uid ∷ uids ↦ uid ∷ uids
]

unfoldable pub notify_reviewers : KnowledgeBase → Document → Clock → Db → Db
notify_reviewers kb doc clock db = if already_notified doc db.notifications then db else record db {
  notifications =
      db.notifications ++ pending_notices kb doc clock.started (notice_targets kb doc db.directory);
}

decision_text : ReviewStatus → Option Text → Text
decision_text approved none = codes "文档已发布到知识库。"
decision_text _ none = codes "请按反馈调整后再次提交。"
decision_text approved (some []) = codes "文档已发布到知识库。"
decision_text _ (some []) = codes "请按反馈调整后再次提交。"
decision_text _ (some (c ∷ cs)) = c ∷ cs

verdict : ReviewStatus → Text
verdict approved = codes "已通过"
verdict _ = codes "已拒绝"

unfoldable pub notify_owner_decision : Document → ReviewStatus → Option Text → Clock → Db → Db
unfolding decision_text verdict
notify_owner_decision doc status comment clock db = record db {
  notifications =
      db.notifications
      ++ record {
        user_id = doc.created_by;
        type = review_decided status;
        title = codes "文档「" ++ (doc.title ++ (codes "」审批" ++ verdict status));
        content = decision_text status comment;
        resource_id = doc.id;
        created_at = clock.started;
      }
        ∷ [];
}

-- The part that `submit_for_review` and `request_re_review` share.
unfoldable pub enter_pending : ℕ → KnowledgeBase → Document → Clock → Db → Document × Db
enter_pending doc_id kb doc clock db =
    let doc' : Document = record doc {
      review_status = some pending;
      reviewer_id = none;
      reviewed_at = none;
      review_comment = none;
      last_pending_started_at = some clock.now;
    } in
    let db' : Db = record db {
      documents = insert doc_id doc' db.documents;
      chunks = set_chunks_excluded doc_id true db.chunks;
    } in
    (doc', notify_reviewers kb doc' clock db')

unfoldable pub submit_for_review : ℕ → Clock → Db → Reply
submit_for_review doc_id clock db = do
  doc ← get_doc doc_id db
  elim (lookup doc.knowledge_base_id db.knowledge_bases) [
    | none ↦ ok (doc, db)
    | some kb ↦
        if kb.review_required
        then (elim doc.review_status [
          | none ↦ ok (enter_pending doc_id kb doc clock db)
          | some s ↦ ok (doc, db)
        ])
        else ok (doc, db)
  ]

unfoldable pub request_re_review : ℕ → Clock → Db → Reply
request_re_review doc_id clock db = do
  doc ← get_doc doc_id db
  elim (lookup doc.knowledge_base_id db.knowledge_bases) [
    | none ↦ ok (doc, db)
    | some kb ↦
        if kb.review_required then ok (enter_pending doc_id kb doc clock db) else ok (doc, db)
  ]

abbrev pub is_decision : ReviewStatus → Bool
is_decision pending = false
is_decision approved = true
is_decision rejected = true

abbrev pub released : ReviewStatus → ℕ → List Chunk → List Chunk
released approved doc_id cs = set_chunks_excluded doc_id false cs
released pending doc_id cs = cs
released rejected doc_id cs = cs

unfoldable pub decide : ℕ → ℕ → ReviewStatus → Option Text → Clock → Db → Reply
decide doc_id reviewer_id new_status comment clock db =
    if not (is_decision new_status) then err (unsupported_decision new_status) else do
      doc ← get_doc doc_id db
      elim doc.review_status [
        | none ↦ err not_subject_to_review
        | some s ↦
            let doc' : Document = record doc {
              review_status = some new_status;
              reviewer_id = some reviewer_id;
              reviewed_at = some clock.now;
              review_comment = comment;
            } in
            let db' : Db = record db {
              documents = insert doc_id doc' db.documents;
              chunks = released new_status doc_id db.chunks;
            } in
            ok (doc', notify_owner_decision doc' new_status comment clock db')
      ]

unfoldable pub approve : ℕ → ℕ → Option Text → Clock → Db → Reply
approve doc_id reviewer_id comment = decide doc_id reviewer_id approved comment

unfoldable pub reject : ℕ → ℕ → Option Text → Clock → Db → Reply
reject doc_id reviewer_id comment = decide doc_id reviewer_id rejected comment

unfoldable pub add_comment : ℕ → ℕ → Text → Clock → Db → Reply
add_comment doc_id reviewer_id comment clock db = do
  doc ← get_doc doc_id db
  let doc' : Document = record doc { review_comment = some comment }
  ok (
    doc',
    record db {
      documents = insert doc_id doc' db.documents;
      notifications =
          db.notifications
          ++ record {
            user_id = doc.created_by;
            type = NoticeType.review_comment;
            title = codes "文档「" ++ (doc.title ++ codes "」收到审核反馈");
            content = comment;
            resource_id = doc.id;
            created_at = clock.started;
          }
            ∷ [];
    },
  )

abbrev is_listed : ℕ → Document → Bool
is_listed kb_id doc =
    (doc.knowledge_base_id == kb_id)
    && (elim doc.review_status [ some pending ↦ true | _ ↦ false ])
    && not doc.is_archived

documents_of : Dict Document → List Document
documents_of [] = []
documents_of ((k, doc) ∷ d) = doc ∷ documents_of d

-- The dictionary holds the documents by their creation, the oldest first.
unfoldable pub list_pending : ℕ → ℕ → Db → List Document
unfolding documents_of
list_pending kb_id limit db = take limit (keep (is_listed kb_id) (documents_of db.documents))

-- ===== src/Knowledge/Review/Visibility.antt =====
-- Which chunks retrieval may read after reviews (app/knowledge/review/service.py): the
-- flag `review_excluded` beside the status of the document.
use ops_knowledge.Prelude.{
  ℕ, ◌≡◌, ◌≢◌, refl, sym, ◌∙◌, subst, Bool, true, false, ◌==◌, if◌then◌else◌, Option, some, arith,
  inl, inr, Bool-cases, Option-cases,
}
use ops_knowledge.Prelude.Dict.{lookup, insert, lookup-insert}
use ops_knowledge.Prelude.Results.{Result, ok, err, ◌>>=◌}
use ops_knowledge.Prelude.Texts.{Text}
use ops_knowledge.Knowledge.Reviewers.{KnowledgeBase}
use ops_knowledge.Knowledge.Review.{
  ReviewError, ReviewStatus, pending, approved, rejected, Document, Db, Clock, Reply, get_doc,
  notify_reviewers, notify_owner_decision, enter_pending, submit_for_review, request_re_review,
  decide, approve, reject, add_comment,
}
use ops_knowledge.Knowledge.Review.Chunks.{
  ChunksAre, excluded_at, IsIsolated, set_chunks_excluded_self, set_chunks_excluded-other,
}

documents-notify :
    (kb : KnowledgeBase) (doc : Document) (clock : Clock) (db : Db)
    → (notify_reviewers kb doc clock db).documents ≡ db.documents
unfolding notify_reviewers
documents-notify kb doc clock db = ground arith

chunks-notify :
    (kb : KnowledgeBase) (doc : Document) (clock : Clock) (db : Db)
    → (notify_reviewers kb doc clock db).chunks ≡ db.chunks
unfolding notify_reviewers
chunks-notify kb doc clock db = ground arith

-- A document and its status, put in the place of `k` with flags to match, keep the isolation.
replaced :
    (k : ℕ) (doc : Document) (s : ReviewStatus) (db db' : Db)
    → doc.review_status ≡ some s
    → db'.documents ≡ insert k doc db.documents
    → ((j : ℕ) (b : Bool) → (j == k) ≡ false → ChunksAre j b db.chunks → ChunksAre j b db'.chunks)
    → ChunksAre k (excluded_at s) db'.chunks
    → IsIsolated db
    → IsIsolated db'
replaced k doc s db db' status docs others own iso = record {
  follows = λ j d s' found at_s'.
      let found' : (if j == k then some doc else lookup j db.documents) ≡ some d =
        sym (lookup-insert k j doc db.documents) ∙ subst (λ ds. lookup j ds ≡ some d) docs found in
      elim (Bool-cases (j == k)) [
        | inr n ↦ others j (excluded_at s') n (iso.follows j d s' (rw n at found') at_s')
        | inl y ↦
            let same : j ≡ k = ground arith in
            let here : doc ≡ d = ground arith in
            let one : s' ≡ s = ground arith in rw one (rw same own)
      ];
}

enter_pending-IsIsolated :
    (k : ℕ) (kb : KnowledgeBase) (doc : Document) (clock : Clock) (db : Db)
    → IsIsolated db
    → IsIsolated (enter_pending k kb doc clock db).1
unfolding enter_pending
enter_pending-IsIsolated k kb doc clock db iso =
    replaced k _ pending db _ refl (documents-notify kb _ clock _)
      (λ j b n h. rw chunks-notify (set_chunks_excluded-other k j true b db.chunks n h))
      (rw chunks-notify (set_chunks_excluded_self k true db.chunks)) iso

-- What holds of the tables after a call that returns.
abbrev Returns : (Db → Type 0) → Reply → Type 0
Returns P (ok p) = P p.1
Returns P (err e) = Unit {0}

Returns-bind :
    (P : Db → Type 0) (r : Result ReviewError Document) (f : Document → Reply)
    → ((doc : Document) → r ≡ ok doc → Returns P (f doc))
    → Returns P (r >>= f)
Returns-bind P (ok doc) f h = h doc refl
Returns-bind P (err e) f h = tt

submit-IsIsolated :
    (k : ℕ) (clock : Clock) (db : Db)
    → IsIsolated db
    → Returns IsIsolated (submit_for_review k clock db)
unfolding submit_for_review
submit-IsIsolated k clock db iso = Returns-bind IsIsolated (get_doc k db) _ λ doc got.
    elim (Option-cases (lookup doc.knowledge_base_id db.knowledge_bases)) [
      | inl e ↦ rw (e, Returns) iso
      | inr (kb, e) ↦ elim (Bool-cases kb.review_required) [
        | inr f ↦ rw (e, Returns) (simp f iso)
        | inl t ↦ elim (Option-cases doc.review_status) [
          | inl new ↦
              rw (e, Returns)
                (simp t (simp (new, Returns) (enter_pending-IsIsolated k kb doc clock db iso)))
          | inr (s, old) ↦ rw (e, Returns) (simp t (rw (old, Returns) iso))
        ]
      ]
    ]

re_review-IsIsolated :
    (k : ℕ) (clock : Clock) (db : Db)
    → IsIsolated db
    → Returns IsIsolated (request_re_review k clock db)
unfolding request_re_review
re_review-IsIsolated k clock db iso = Returns-bind IsIsolated (get_doc k db) _ λ doc got.
    elim (Option-cases (lookup doc.knowledge_base_id db.knowledge_bases)) [
      | inl e ↦ rw (e, Returns) iso
      | inr (kb, e) ↦ elim (Bool-cases kb.review_required) [
        | inr f ↦ rw (e, Returns) (simp f iso)
        | inl t ↦ rw (e, Returns) (simp t (enter_pending-IsIsolated k kb doc clock db iso))
      ]
    ]

pub lookup_of_get_doc :
    (k : ℕ) (db : Db) (doc : Document) → get_doc k db ≡ ok doc → lookup k db.documents ≡ some doc
unfolding get_doc
lookup_of_get_doc k db doc h = ground arith

-- A comment changes no status and no flag.
comment-IsIsolated :
    (k reviewer : ℕ) (comment : Text) (clock : Clock) (db : Db)
    → IsIsolated db
    → Returns IsIsolated (add_comment k reviewer comment clock db)
unfolding add_comment
comment-IsIsolated k reviewer comment clock db iso =
    Returns-bind IsIsolated (get_doc k db) _ λ doc got. record {
      follows = λ j d s found at_s.
          let doc' : Document = record doc { review_comment = some comment } in
          let found' : (if j == k then some doc' else lookup j db.documents) ≡ some d =
            sym (lookup-insert k j doc' db.documents) ∙ found in
          elim (Bool-cases (j == k)) [
            | inr n ↦ iso.follows j d s (rw n at found') at_s
            | inl y ↦
                let same : j ≡ k = ground arith in
                let here : doc' ≡ d = ground arith in
                let status : doc.review_status ≡ some s = rw (← here) at at_s in
                rw same (iso.follows k doc s (lookup_of_get_doc k db doc got) status)
          ];
    }

approve-IsIsolated :
    (k reviewer : ℕ) (comment : Option Text) (clock : Clock) (db : Db)
    → IsIsolated db
    → Returns IsIsolated (approve k reviewer comment clock db)
unfolding approve decide notify_owner_decision
approve-IsIsolated k reviewer comment clock db iso =
    Returns-bind IsIsolated (get_doc k db) _ λ doc got. elim (Option-cases doc.review_status) [
      | inl e ↦ rw (e, Returns) tt
      | inr (s, e) ↦
          rw (e, Returns)
            (replaced k _ approved db _ refl refl
              (λ j b n h. set_chunks_excluded-other k j false b db.chunks n h)
              (set_chunks_excluded_self k false db.chunks) iso)
    ]

-- A rejection of a document that is not approved.
reject-IsIsolated :
    (k reviewer : ℕ) (comment : Option Text) (clock : Clock) (db : Db)
    → ((doc : Document) → lookup k db.documents ≡ some doc → doc.review_status ≢ some approved)
    → IsIsolated db
    → Returns IsIsolated (reject k reviewer comment clock db)
unfolding reject decide notify_owner_decision
reject-IsIsolated k reviewer comment clock db closed iso =
    Returns-bind IsIsolated (get_doc k db) _ λ doc got. elim (Option-cases doc.review_status) [
      | inl e ↦ rw (e, Returns) tt
      | inr (s, e) ↦
          rw (e, Returns)
            (replaced k _ rejected db _ refl refl (λ j b n h. h)
              (hidden s doc (lookup_of_get_doc k db doc got) e) iso)
    ]
  where
    hidden :
        (s : ReviewStatus) (doc : Document)
        → lookup k db.documents ≡ some doc
        → doc.review_status ≡ some s
        → ChunksAre k true db.chunks
    hidden pending doc found e = iso.follows k doc pending found e
    hidden rejected doc found e = iso.follows k doc rejected found e
    hidden approved doc found e = absurd (closed doc found e)

-- The calls that return, with a rejection only of what is not approved.
pub data Step (db : Db) : Db → Type 0 where
  submitted :
      {db' : Db} (k : ℕ) (clock : Clock) (doc : Document)
      → submit_for_review k clock db ≡ ok (doc, db')
      → Step db db'
  re_reviewed :
      {db' : Db} (k : ℕ) (clock : Clock) (doc : Document)
      → request_re_review k clock db ≡ ok (doc, db')
      → Step db db'
  commented :
      {db' : Db} (k reviewer : ℕ) (comment : Text) (clock : Clock) (doc : Document)
      → add_comment k reviewer comment clock db ≡ ok (doc, db')
      → Step db db'
  approved_by :
      {db' : Db} (k reviewer : ℕ) (comment : Option Text) (clock : Clock) (doc : Document)
      → approve k reviewer comment clock db ≡ ok (doc, db')
      → Step db db'
  rejected_by :
      {db' : Db} (k reviewer : ℕ) (comment : Option Text) (clock : Clock) (doc : Document)
      → ((old : Document) → lookup k db.documents ≡ some old → old.review_status ≢ some approved)
      → reject k reviewer comment clock db ≡ ok (doc, db')
      → Step db db'

pub data Reach (db : Db) : Db → Type 0 where
  here : Reach db db
  next : {m n : Db} → Reach db m → Step m n → Reach db n

returned :
    (P : Db → Type 0) (r : Reply) (doc : Document) (db : Db) → r ≡ ok (doc, db) → Returns P r → P db
returned P r doc db e h = subst (Returns P) e h

Step-IsIsolated : {db db' : Db} → Step db db' → IsIsolated db → IsIsolated db'
Step-IsIsolated {db} (submitted k clock doc e) iso =
    returned IsIsolated _ doc _ e (submit-IsIsolated k clock db iso)
Step-IsIsolated {db} (re_reviewed k clock doc e) iso =
    returned IsIsolated _ doc _ e (re_review-IsIsolated k clock db iso)
Step-IsIsolated {db} (commented k reviewer comment clock doc e) iso =
    returned IsIsolated _ doc _ e (comment-IsIsolated k reviewer comment clock db iso)
Step-IsIsolated {db} (approved_by k reviewer comment clock doc e) iso =
    returned IsIsolated _ doc _ e (approve-IsIsolated k reviewer comment clock db iso)
Step-IsIsolated {db} (rejected_by k reviewer comment clock doc closed e) iso =
    returned IsIsolated _ doc _ e (reject-IsIsolated k reviewer comment clock db closed iso)

-- In any sequence of submissions, renewed reviews, comments and approvals, and of rejections of
-- documents that are not approved, the chunks of each document under review keep the flag of its
-- status: excluded while it is pending or rejected, and not excluded once it is approved.
pub Reach-IsIsolated : {db db' : Db} → IsIsolated db → Reach db db' → IsIsolated db'
Reach-IsIsolated iso here = iso
Reach-IsIsolated iso (next r st) = Step-IsIsolated st (Reach-IsIsolated iso r)

-- The rejection of an approved document whose chunks retrieval reads succeeds, and leaves them
-- readable: the document is rejected and none of its chunks is excluded.
pub reject_approved_readable :
    (k reviewer : ℕ) (comment : Option Text) (clock : Clock) (db : Db) (doc : Document)
    → lookup k db.documents ≡ some doc
    → doc.review_status ≡ some approved
    → ChunksAre k false db.chunks
    → (doc' : Document) × (db' : Db) × (reject k reviewer comment clock db ≡ ok (doc', db'))
      × (lookup k db'.documents ≡ some doc')
      × (doc'.review_status ≡ some rejected)
      × ChunksAre k false db'.chunks
unfolding reject decide get_doc notify_owner_decision
reject_approved_readable k reviewer comment clock db doc found status readable =
    let doc' : Document = record doc {
      review_status = some rejected;
      reviewer_id = some reviewer;
      reviewed_at = some clock.now;
      review_comment = comment;
    } in
    let db' : Db =
      notify_owner_decision doc' rejected comment clock
        (record db { documents = insert k doc' db.documents }) in
    (doc', db', ground arith, ground (arith, lookup-insert k k doc' db.documents), refl, readable)

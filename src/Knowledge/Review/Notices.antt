-- ===== src/Knowledge/Review/Notices.antt =====
-- Whom a pending document is announced to, and how often (app/knowledge/review/service.py).
use mathlib.Core.Bool.{false≢true}
use ops_knowledge.Prelude.{
  ℕ, ◌≤◌, ◌≡◌, refl, true, false, ◌==◌, some, List, [], ◌∷◌, ◌++◌, arith, mem, inl, inr, All, any,
  ◌⊎◌,
}
use ops_knowledge.Prelude.Dict.{lookup}
use ops_knowledge.Prelude.Results.{ok}
use ops_knowledge.Knowledge.Reviewers.{KnowledgeBase, Directory, get_candidate_reviewers}
use ops_knowledge.Knowledge.Reviewers.Agreement.{MayReview, candidates_exact}
use ops_knowledge.Knowledge.Review.{
  Document, Notification, Db, Clock, get_doc, is_pending_notice, pending_notices, notice_targets,
  notify_reviewers, enter_pending, request_re_review,
}

-- Every one notified is a reviewer other than the author, or the author is the only one notified
-- and there is no other reviewer.
pub notice_targets_exact :
    (kb : KnowledgeBase) (doc : Document) (dir : Directory)
    → ((uid : ℕ)
        → mem uid (notice_targets kb doc dir) ≡ true
        → MayReview dir kb uid × ((uid == doc.created_by) ≡ false))
      ⊎ ((notice_targets kb doc dir ≡ doc.created_by ∷ [])
          × ((uid : ℕ) → MayReview dir kb uid → uid ≡ doc.created_by))
notice_targets_exact kb doc dir = go (get_candidate_reviewers dir kb (doc.created_by ∷ [])) refl
  where
    targets_of : List ℕ → List ℕ
    targets_of cs = elim cs [ [] ↦ doc.created_by ∷ [] | uid ∷ uids ↦ uid ∷ uids ]

    go :
        (cs : List ℕ)
        → get_candidate_reviewers dir kb (doc.created_by ∷ []) ≡ cs
        → ((uid : ℕ)
            → mem uid (targets_of cs) ≡ true
            → MayReview dir kb uid × ((uid == doc.created_by) ≡ false))
          ⊎ ((targets_of cs ≡ doc.created_by ∷ [])
              × ((uid : ℕ) → MayReview dir kb uid → uid ≡ doc.created_by))
    go [] e = inr (
      refl,
      λ uid may. elim (author_or_other uid) [
        | inl same ↦ same
        | inr other ↦ absurd (
            false≢true (rw e at (candidates_exact dir kb (doc.created_by ∷ []) uid).1 (other, may)))
      ],
    )
      where
        author_or_other :
            (uid : ℕ) → (uid ≡ doc.created_by) ⊎ (mem uid (doc.created_by ∷ []) ≡ false)
        author_or_other uid = ground arith
    go (c ∷ cs) e = inl λ uid m.
        let (other, may) = (candidates_exact dir kb (doc.created_by ∷ []) uid).0 (rw e m) in
        (may, ground arith)

-- No notice is newer than a pending period that begins when the notice was already written.
none_newer :
    (doc_id now : ℕ) (ns : List Notification)
    → All (λ n. n.created_at ≤ now) ns
    → any (is_pending_notice doc_id now) ns ≡ false
none_newer doc_id now [] h = refl
none_newer doc_id now (n ∷ ns) h = ground (arith, none_newer doc_id now ns h.1)

-- A renewed review of a document whose knowledge base requires reviews always announces it again,
-- however short the time since the last announcement: if no notice is stamped later than the
-- present, the notices of all targets are added.
pub re_review_always_notifies :
    (k : ℕ) (clock : Clock) (db : Db) (doc : Document) (kb : KnowledgeBase)
    → lookup k db.documents ≡ some doc
    → lookup doc.knowledge_base_id db.knowledge_bases ≡ some kb
    → kb.review_required ≡ true
    → All (λ n. n.created_at ≤ clock.now) db.notifications
    → (doc' : Document) × (db' : Db) × (request_re_review k clock db ≡ ok (doc', db'))
      × (db'.notifications
          ≡ db.notifications
            ++ pending_notices kb doc' clock.started (notice_targets kb doc' db.directory))
unfolding request_re_review get_doc
re_review_always_notifies k clock db doc kb found of_kb required stamped =
    let entered = enter_pending k kb doc clock db in
    (
      entered.0,
      entered.1,
      ground arith,
      unfold enter_pending notify_reviewers in
          rw (none_newer doc.id clock.now db.notifications stamped),
    )

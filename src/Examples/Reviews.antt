-- ===== src/Examples/Reviews.antt =====
-- Tests and instances for app/knowledge/review/.
use ops_knowledge.Prelude.{
  ℕ, ◌≡◌, refl, ◌↔◌, inl, inr, false, true, Option, none, some, List, [], ◌∷◌, arith, mem, In,
}
use ops_knowledge.Prelude.Dict.{lookup}
use ops_knowledge.Prelude.Results.{ok}
use ops_knowledge.Department.Models.{is_system_admin, user, dept_admin, User}
use ops_knowledge.Knowledge.Reviewers.{
  KnowledgeBase, Directory, get_candidate_reviewers, is_user_reviewer_for_kb,
  kb_ids_user_can_review,
}
use ops_knowledge.Knowledge.Reviewers.Agreement.{
  MayReview, IsKnown, candidates_exact, reviewer_checks_agree,
}
use ops_knowledge.Knowledge.Review.{
  ReviewStatus, pending, approved, rejected, Document, document, Chunk, Db, Clock, approve, reject,
  decide, get_doc, notify_owner_decision, set_chunks_excluded,
}
use ops_knowledge.Knowledge.Review.Visibility.{
  approved_by, here, next, Reach-IsIsolated, reject_approved_readable,
}
use ops_knowledge.Knowledge.Review.Chunks.{ChunksAre, excluded_at, IsIsolated}

abbrev kb : KnowledgeBase
kb = record { id = 50; name = []; review_required = true; created_by = 1 }

-- User 1 owns the knowledge base; user 2 administers a department that it is shared with.
abbrev directory : Directory
directory = record {
  users = record { id = 1; role = user } ∷ record { id = 2; role = user } ∷ [];
  members = record { user_id = 2; department_id = 9; role = dept_admin; is_primary = false } ∷ [];
  resources =
      record {
        department_id = 9;
        resource_type = "knowledge_base";
        resource_id = 50;
        access_level = "view";
        shared_by = none;
      }
      ∷ [];
  knowledge_bases = kb ∷ [];
}

abbrev doc : Option ReviewStatus → Document
doc status = record {
  id = 4;
  knowledge_base_id = 50;
  title = [];
  is_archived = false;
  review_status = status;
  reviewer_id = none;
  reviewed_at = none;
  review_comment = none;
  last_pending_started_at = none;
  created_by = 1;
}

abbrev db : Option ReviewStatus → List Chunk → Db
db status chunks = record {
  knowledge_bases = (50, kb) ∷ [];
  documents = (4, doc status) ∷ [];
  chunks = chunks;
  notifications = [];
  directory = directory;
}

abbrev chunk : Chunk
chunk = record { unit_type = document; unit_id = 4; review_excluded = false }

abbrev clock : Clock
clock = record { started = 10; now = 11 }

candidates : get_candidate_reviewers directory kb (1 ∷ []) ≡ 2 ∷ []
unfolding get_candidate_reviewers
candidates = refl

candidates_exact_example :
    (mem 2 (get_candidate_reviewers directory kb (1 ∷ [])) ≡ true)
    ↔ ((mem 2 (1 ∷ []) ≡ false) × MayReview directory kb 2)
candidates_exact_example = candidates_exact directory kb (1 ∷ []) 2

abbrev reviewer : User
reviewer = record { id = 2; role = user }

reviewable_ids : kb_ids_user_can_review directory reviewer ≡ some (50 ∷ [])
unfolding kb_ids_user_can_review
reviewable_ids = refl

same_owner : (k : KnowledgeBase) → In k (kb ∷ []) → k.id ≡ kb.id → k.created_by ≡ kb.created_by
same_owner k (inl e) h = ground (arith, e)
same_owner k (inr f) h = absurd f

same_role : (v : User) → In v directory.users → v.id ≡ 2 → v.role ≡ user
same_role v (inl e) h = ground (arith, e)
same_role v (inr (inl e)) h = ground (arith, e)
same_role v (inr (inr f)) h = absurd f

is_plain_role : (v : User) → v.role ≡ user → is_system_admin v.role ≡ false
is_plain_role v e = ground (arith, e)

known : IsKnown directory reviewer kb
known = record {
  listed = inl refl;
  same_owner = same_owner;
  same_role = λ v i e. is_plain_role v (same_role v i e);
}

reviewer_checks_agree_example :
    (is_user_reviewer_for_kb directory reviewer kb ≡ true) ↔ (mem 50 (50 ∷ []) ≡ true)
reviewer_checks_agree_example =
    reviewer_checks_agree directory reviewer kb (50 ∷ []) known reviewable_ids

abbrev hidden : Db
hidden = db (some pending) (record chunk { review_excluded = true } ∷ [])

one_chunk : (k : ℕ) → ChunksAre k true hidden.chunks
one_chunk k c (inl e) h = ground (arith, e)
one_chunk k c (inr f) h = absurd f

hidden-IsIsolated : IsIsolated hidden
hidden-IsIsolated = record {
  follows = λ k d s found status. isolated k d s (stands k d found) status;
}
  where
    stands : (k : ℕ) (d : Document) → lookup k hidden.documents ≡ some d → d ≡ doc (some pending)
    stands k d found = ground arith

    isolated :
        (k : ℕ) (d : Document) (s : ReviewStatus)
        → d ≡ doc (some pending)
        → d.review_status ≡ some s
        → ChunksAre k (excluded_at s) hidden.chunks
    isolated k d pending e h = one_chunk k
    isolated k d rejected e h = one_chunk k
    isolated k d approved e h = absurd (ground (arith, e))

abbrev done : Document
done = record (doc (some approved)) { reviewer_id = some 2; reviewed_at = some 11 }

abbrev passed : Db
passed =
    notify_owner_decision done approved none clock
      (record hidden { documents = (4, done) ∷ []; chunks = chunk ∷ [] })

approval : approve 4 2 none clock hidden ≡ ok (done, passed)
unfolding approve decide get_doc set_chunks_excluded
approval = refl

Reach-IsIsolated_example : IsIsolated passed
Reach-IsIsolated_example =
    Reach-IsIsolated hidden-IsIsolated (next here (approved_by 4 2 none clock done approval))

open_chunk : ChunksAre 4 false (chunk ∷ [])
open_chunk c (inl e) h = ground (arith, e)
open_chunk c (inr f) h = absurd f

reject_approved_readable_example :
    (doc' : Document) × (db' : Db) × (reject 4 2 none clock (db (some approved) (chunk ∷ []))
      ≡ ok (doc', db'))
    × (lookup 4 db'.documents ≡ some doc')
    × (doc'.review_status ≡ some rejected)
    × ChunksAre 4 false db'.chunks
reject_approved_readable_example =
    reject_approved_readable 4 2 none clock (db (some approved) (chunk ∷ [])) (doc (some approved))
      refl refl open_chunk

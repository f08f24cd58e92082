-- ===== src/Knowledge/Review/Chunks.antt =====
-- The flags of the chunks of one document (app/knowledge/review/service.py).
use mathlib.Core.Bool.{false≢true}
use ops_knowledge.Prelude.{
  ℕ, ◌≡◌, sym, ◌∙◌, Bool, true, false, ◌==◌, some, List, [], ◌∷◌, arith, In, inl, inr, Bool-cases,
}
use ops_knowledge.Prelude.Dict.{lookup}
use ops_knowledge.Knowledge.Review.{
  ReviewStatus, pending, approved, rejected, Document, Chunk, Db, is_chunk_of, set_chunks_excluded,
}

-- The flag of every chunk of document `k` is `b`.
abbrev pub ChunksAre : ℕ → Bool → List Chunk → Type 0
ChunksAre k b cs = (c : Chunk) → In c cs → is_chunk_of k c ≡ true → c.review_excluded ≡ b

-- Pending and rejected documents are kept from retrieval.
abbrev pub excluded_at : ReviewStatus → Bool
excluded_at pending = true
excluded_at approved = false
excluded_at rejected = true

-- The chunks of every document that is subject to review have the flag of its status.
pub record IsIsolated (db : Db) : Type 0 where
  pub follows :
      (k : ℕ) (doc : Document) (s : ReviewStatus)
      → lookup k db.documents ≡ some doc
      → doc.review_status ≡ some s
      → ChunksAre k (excluded_at s) db.chunks

pub same_unit :
    (k j : ℕ) (c : Chunk) → is_chunk_of k c ≡ true → is_chunk_of j c ≡ true → (j == k) ≡ true
same_unit k j c p q = ground arith

pub set_chunks_excluded_self :
    (k : ℕ) (b : Bool) (cs : List Chunk) → ChunksAre k b (set_chunks_excluded k b cs)
unfolding set_chunks_excluded
set_chunks_excluded_self k b [] c i h = absurd i
set_chunks_excluded_self k b (d ∷ ds) c (inr i) h = set_chunks_excluded_self k b ds c i h
set_chunks_excluded_self k b (d ∷ ds) c (inl e) h = elim (Bool-cases (is_chunk_of k d)) [
  | inl t ↦ rw (rw t at e)
  | inr f ↦ absurd (ground arith)
]

pub set_chunks_excluded-other :
    (k j : ℕ) (b b' : Bool) (cs : List Chunk)
    → (j == k) ≡ false
    → ChunksAre j b' cs
    → ChunksAre j b' (set_chunks_excluded k b cs)
unfolding set_chunks_excluded
set_chunks_excluded-other k j b b' [] n h c i t = absurd i
set_chunks_excluded-other k j b b' (d ∷ ds) n h c (inr i) t =
    set_chunks_excluded-other k j b b' ds n (λ x m. h x (inr m)) c i t
set_chunks_excluded-other k j b b' (d ∷ ds) n h c (inl e) t = elim (Bool-cases (is_chunk_of k d)) [
  | inl q ↦
      let of_j : is_chunk_of j d ≡ true = rw (rw q at e) at t in
      absurd (false≢true (sym n ∙ same_unit k j d q of_j))
  | inr q ↦ h c (inl (rw q at e)) t
]

-- ===== src/Knowledge/Chunks/Endpoints.antt =====
-- The handlers that change chunks: app/knowledge/chunk_router.py. `kbs` are the bases there are, and
-- `can_edit` says on which of them `check_resource_access` lets the caller edit. A request that raises
-- is rolled back.
use mathlib.Core.List.{append-nil}
use mathlib.Core.Option.{none-ne-some}
use ops_knowledge.Prelude.{
  ℕ, ◌≡◌, ◌≢◌, refl, ap, ◌∙◌, Bool, true, false, not, if◌then◌else◌, Option, none, some, List, [],
  ◌∷◌, ◌++◌, ◌==◌, sym, arith, inl, inr, mem, Bool-cases,
}
use ops_knowledge.Prelude.Dict.{Dict, lookup, remove, lookup-remove}
use ops_knowledge.Prelude.Results.{
  Result, ok, err, ◌>>=◌, bind_ok, bind_step, bind_raises, err-ne-ok, ok-injective,
}
use ops_knowledge.Prelude.Texts.{Text}
use ops_knowledge.Knowledge.Chunks.{
  clear_parent, delete_row, Chunk, ChunkError, Edit, kb_not_found, forbidden, no_attribute, Db,
  Editor, get_chunk, sorted_set, are_invalid, add_all, split_edit, segments, pieces, edit_chunk,
  split_chunk, merge_chunks, delete_chunk, annotate_chunk,
}

module _ (kbs : List ℕ) (can_edit : ℕ → Bool) where
  -- `get_kb` and the check of access, at the top of every handler.
  unfoldable pub authorize : ℕ → Result ChunkError ℕ
  authorize kb_id =
      if not (mem kb_id kbs)
      then err (kb_not_found kb_id)
      else (if can_edit kb_id then ok kb_id else err (forbidden kb_id))

-- `.document_id` of a row, a column that the table of chunks has no more: read by the handlers of the
-- split and the merge, and by `ChunkResponse`, in which it is required, of every reply that is a chunk.
abbrev pub document_id_of : {S : Type 0} → Chunk S → Result ChunkError ℕ
document_id_of c = err (no_attribute "document_id")

abbrev pub first_document_id : {S : Type 0} → List (Chunk S) → Result ChunkError (Option ℕ)
first_document_id [] = ok none
first_document_id (c ∷ cs) = do id ← document_id_of c; ok (some id)

module _ {S : Type 0} (kbs : List ℕ) (can_edit : ℕ → Bool) (score_chunk : Text → S) where
  unfoldable pub edit_endpoint : ℕ → ℕ → Text → Editor → Db S → Result ChunkError (Chunk S × Db S)
  edit_endpoint kb_id chunk_id content by db = do
    _ ← authorize kbs can_edit kb_id
    reply ← edit_chunk score_chunk chunk_id content by db
    _ ← document_id_of reply.0
    ok reply

  -- The new rows are embedded by their document.
  unfoldable pub split_endpoint :
      List ℕ → ℕ → ℕ → List ℕ → Editor → Db S → Result ChunkError (List (Chunk S) × Db S)
  split_endpoint fresh kb_id chunk_id split_positions by db = do
    _ ← authorize kbs can_edit kb_id
    reply ← split_chunk score_chunk fresh chunk_id split_positions by db
    _ ← first_document_id reply.0
    ok reply

  unfoldable pub merge_endpoint :
      ℕ → ℕ → List ℕ → Editor → Db S → Result ChunkError (Chunk S × Db S)
  merge_endpoint fresh_id kb_id chunk_ids by db = do
    _ ← authorize kbs can_edit kb_id
    reply ← merge_chunks score_chunk fresh_id chunk_ids by db
    _ ← document_id_of reply.0
    ok reply

module _ {S : Type 0} (kbs : List ℕ) (can_edit : ℕ → Bool) where
  unfoldable pub delete_endpoint : ℕ → ℕ → Db S → Result ChunkError (Db S)
  delete_endpoint kb_id chunk_id db = do _ ← authorize kbs can_edit kb_id; delete_chunk chunk_id db

  unfoldable pub annotate_endpoint :
      ℕ → ℕ → Option (List Text) → Option Text → Db S → Result ChunkError (Chunk S × Db S)
  annotate_endpoint kb_id chunk_id tags notes db = do
    _ ← authorize kbs can_edit kb_id
    reply ← annotate_chunk chunk_id tags notes db
    _ ← document_id_of reply.0
    ok reply

authorized :
    (kbs : List ℕ) (can_edit : ℕ → Bool) (kb_id : ℕ)
    → mem kb_id kbs ≡ true
    → can_edit kb_id ≡ true
    → authorize kbs can_edit kb_id ≡ ok kb_id
unfolding authorize
authorized kbs can_edit kb_id there may = simp (there, may) refl

lookup-clear_parent :
    {S : Type 0} (j k : ℕ) (chunks : Dict (Chunk S))
    → lookup k chunks ≡ none
    → lookup k (clear_parent j chunks) ≡ none
lookup-clear_parent j k [] h = refl
lookup-clear_parent j k ((i, c) ∷ chunks) h = elim (Bool-cases (k == i)) [
  | inl here ↦ absurd (none-ne-some c (sym (simp here at h)))
  | inr there ↦ rw there (lookup-clear_parent j k chunks (simp there at h))
]

-- The vectors whose deletion is asked for with a chunk.
abbrev pub vectors_of : {S : Type 0} → Chunk S → List (ℕ × ℕ)
vectors_of c = elim c.vector_id [ none ↦ [] | some v ↦ (c.knowledge_base_id, v) ∷ [] ]

module _ {S : Type 0} (kbs : List ℕ) (can_edit : ℕ → Bool) where
  -- The handler checks the rights on the base in the address only: a caller who may edit some base
  -- deletes, through it, a chunk of a base that the caller may not edit, and has the deletion of its
  -- vector asked for.
  pub other_base_deleted :
      (kb_id chunk_id : ℕ) (db : Db S) (chunk : Chunk S)
      → mem kb_id kbs ≡ true
      → can_edit kb_id ≡ true
      → lookup chunk_id db.chunks ≡ some chunk
      → can_edit chunk.knowledge_base_id ≡ false
      → (db' : Db S) × (delete_endpoint kbs can_edit kb_id chunk_id db ≡ ok db')
        × (lookup chunk_id db'.chunks ≡ none)
        × (db'.deleted_vectors ≡ db.deleted_vectors ++ vectors_of chunk)
  unfolding delete_endpoint delete_chunk get_chunk
  other_base_deleted kb_id chunk_id db chunk there may at foreign = (
    record {
      chunks = delete_row chunk_id db.chunks;
      deleted_vectors = elim chunk.vector_id [
        | none ↦ db.deleted_vectors
        | some v ↦ db.deleted_vectors ++ (chunk.knowledge_base_id, v) ∷ []
      ];
    },
    bind_step (authorize kbs can_edit kb_id) _ kb_id (authorized kbs can_edit kb_id there may)
        ∙ bind_step (get_chunk chunk_id db) _ chunk (rw (at, get_chunk) refl),
    lookup-clear_parent chunk_id chunk_id (remove chunk_id db.chunks)
        (lookup-remove chunk_id chunk_id db.chunks ∙ ground arith),
    asked chunk.vector_id,
  )
    where
      asked :
          (vector : Option ℕ)
          → elim vector [
            | none ↦ db.deleted_vectors
            | some v ↦ db.deleted_vectors ++ (chunk.knowledge_base_id, v) ∷ []
          ]
            ≡ db.deleted_vectors
              ++ elim vector [ none ↦ [] | some v ↦ (chunk.knowledge_base_id, v) ∷ [] ]
      asked none = sym (append-nil db.deleted_vectors)
      asked (some v) = refl

module _ {S : Type 0} (kbs : List ℕ) (can_edit : ℕ → Bool) (score_chunk : Text → S) where
  -- No edit and no annotation comes through: the reply needs a field of the row that is gone, and the
  -- request is rolled back.
  pub edit_and_annotate_never_return :
      (kb_id chunk_id : ℕ) (content : Text) (by : Editor) (tags : Option (List Text))
      (notes : Option Text) (db : Db S)
      → ((e : ChunkError) × (edit_endpoint kbs can_edit score_chunk kb_id chunk_id content by db
            ≡ err e))
        × ((e : ChunkError) × (annotate_endpoint kbs can_edit kb_id chunk_id tags notes db ≡ err e))
  unfolding edit_endpoint annotate_endpoint
  edit_and_annotate_never_return kb_id chunk_id content by tags notes db = (
    bind_raises (authorize kbs can_edit kb_id) _ λ id may.
        bind_raises (edit_chunk score_chunk chunk_id content by db) _
          λ reply made. (no_attribute "document_id", refl),
    bind_raises (authorize kbs can_edit kb_id) _ λ id may.
        bind_raises (annotate_chunk chunk_id tags notes db) _
          λ reply made. (no_attribute "document_id", refl),
  )

  pieces_of_segments :
      (chunk : Chunk S) (edit : Edit) (content : Text) (start i : ℕ) (ps : List ℕ)
      → pieces score_chunk chunk edit i (segments content start ps) ≢ []
  unfolding pieces segments
  pieces_of_segments chunk edit content start i [] e = absurd (ground arith)
  pieces_of_segments chunk edit content start i (p ∷ ps) e = absurd (ground arith)

  split_has_rows :
      (fresh : List ℕ) (chunk_id : ℕ) (positions : List ℕ) (by : Editor) (db db' : Db S)
      (cs : List (Chunk S))
      → split_chunk score_chunk fresh chunk_id positions by db ≡ ok (cs, db')
      → cs ≢ []
  unfolding split_chunk
  split_has_rows fresh chunk_id positions by db db' cs e none_left =
      let (chunk, got, last) = bind_ok (get_chunk chunk_id db) _ (cs, db') e in
      let ps = sorted_set positions in
      let rows =
        pieces score_chunk chunk (split_edit chunk_id by) 0 (segments chunk.content 0 ps) in
      elim (Bool-cases (are_invalid chunk.content ps)) [
        | inl invalid ↦ absurd (err-ne-ok (simp invalid at last))
        | inr valid ↦
            let h : ok
                  (rows, record db { chunks = delete_row chunk_id (add_all fresh rows db.chunks) })
                ≡ ok (cs, db') =
              simp valid at last in
            let made : rows ≡ cs = ap (λ p. p.0) (ok-injective h) in
            pieces_of_segments chunk (split_edit chunk_id by) chunk.content 0 0 ps
              (made ∙ none_left)
      ]

  rows_raise :
      (cs : List (Chunk S)) (B : Type 0) (f : Option ℕ → Result ChunkError B)
      → cs ≢ []
      → (e : ChunkError) × ((first_document_id cs >>= f) ≡ err e)
  rows_raise [] B f h = absurd (h refl)
  rows_raise (c ∷ cs) B f h = (no_attribute "document_id", refl)

  -- No split and no merge comes through: the handler reads a column of the new row that is gone, and
  -- the request is rolled back.
  pub split_and_merge_never_return :
      (fresh : List ℕ) (fresh_id kb_id chunk_id : ℕ) (positions chunk_ids : List ℕ) (by : Editor)
      (db : Db S)
      → ((e : ChunkError) × (split_endpoint kbs can_edit score_chunk fresh kb_id chunk_id positions
              by db
            ≡ err e))
        × ((e : ChunkError) × (merge_endpoint kbs can_edit score_chunk fresh_id kb_id chunk_ids by
                db
              ≡ err e))
  unfolding split_endpoint merge_endpoint
  split_and_merge_never_return fresh fresh_id kb_id chunk_id positions chunk_ids by db = (
    bind_raises (authorize kbs can_edit kb_id) _ λ id may.
        bind_raises (split_chunk score_chunk fresh chunk_id positions by db) _ λ reply made.
          rows_raise reply.0 _ _
            (split_has_rows fresh chunk_id positions by db reply.1 reply.0 made),
    bind_raises (authorize kbs can_edit kb_id) _ λ id may.
        bind_raises (merge_chunks score_chunk fresh_id chunk_ids by db) _
          λ reply made. (no_attribute "document_id", refl),
  )

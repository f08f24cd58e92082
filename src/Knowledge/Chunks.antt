-- ===== src/Knowledge/Chunks.antt =====
-- The editing of chunks: `ChunkService` of app/knowledge/chunk_service.py. `S` is a quality score and
-- `score_chunk` the scorer; positions of a split are numbers, since a negative one is refused as 0 is.
-- A raised error leaves the tables as they were. What is loaded from a JSON column and changed in
-- place is not written: the session compares the column with itself.
pub mod Splitting
pub mod Merging
pub mod Endpoints
pub mod Creation
use ops_knowledge.Prelude.{
  ℕ, zero, suc, ◌+◌, ◌-◌, Bool, true, false, not, ◌&&◌, ◌||◌, ◌==◌, ltb, leb, if◌then◌else◌, Option,
  none, some, List, [], ◌∷◌, ◌++◌, String, map, any, keep, take, drop, length, mem, dedup,
}
use ops_knowledge.Prelude.Dict.{Dict, lookup, insert, remove}
use ops_knowledge.Prelude.Results.{Result, ok, err, ◌>>=◌}
use ops_knowledge.Prelude.Texts.{Text, text_eq, is_space}

pub data UnitType : Type 0 where
  document entry : UnitType

pub data Action : Type 0 where
  edited : (previous_content : Text) → Action
  split_from : (source_chunk_id : ℕ) → Action
  merged_from : (source_chunk_ids : List ℕ) → Action

pub record Edit : Type 0 where
  pub user_id : ℕ
  pub timestamp : ℕ
  pub action : Action

-- The keys of the JSON object that the code knows, and the others.
pub record Metadata : Type 0 where
  pub tags : Option (List Text)
  pub notes : Option Text
  pub others : List (Text × Text)

pub record Chunk (S : Type 0) : Type 0 where
  pub unit_type : UnitType
  pub unit_id : ℕ
  pub knowledge_base_id : ℕ
  pub folder_id : Option ℕ
  pub content : Text
  pub parent_chunk_id : Option ℕ
  pub level : ℕ
  pub position : ℕ
  pub token_count : ℕ
  pub quality_score : S
  pub vector_id : Option ℕ
  pub is_manually_edited : Bool
  pub edit_history : List Edit
  pub review_excluded : Bool
  pub metadata_ : Option Metadata
  pub chunk_tags : Option (List Text)

pub data ChunkError : Type 0 where
  chunk_not_found kb_not_found unit_not_found : ℕ → ChunkError
  invalid_positions too_few_chunks different_units : ChunkError
  forbidden : ℕ → ChunkError
  no_attribute : String → ChunkError

-- The rows, and the vectors whose deletion was asked for.
pub record Db (S : Type 0) : Type 0 where
  pub chunks : Dict (Chunk S)
  pub deleted_vectors : List (ℕ × ℕ)

-- The number of words of `text.split()`: `inside` holds within a word.
unfoldable pub count_words : Bool → Text → ℕ
count_words inside [] = 0
count_words inside (c ∷ s) =
    let later = count_words (not (is_space c)) s in
    if is_space c then later else (if inside then later else suc later)

abbrev pub token_count_of : Text → ℕ
token_count_of s = count_words false s

-- sorted(set(xs))
unfoldable pub add_sorted : ℕ → List ℕ → List ℕ
add_sorted p [] = p ∷ []
add_sorted p (q ∷ qs) =
    let rest = add_sorted p qs in
    if ltb p q then p ∷ q ∷ qs else (if p == q then q ∷ qs else q ∷ rest)

unfoldable pub sorted_set : List ℕ → List ℕ
sorted_set [] = []
sorted_set (p ∷ ps) = add_sorted p (sorted_set ps)

-- The segments of a text from `start` on, between the positions and up to the end.
unfoldable pub segments : Text → ℕ → List ℕ → List Text
segments content start [] = drop start content ∷ []
segments content start (p ∷ ps) = take (p - start) (drop start content) ∷ segments content p ps

abbrev pub are_invalid : Text → List ℕ → Bool
are_invalid content [] = true
are_invalid content (p ∷ ps) = any (λ q. (q == 0) || leb (length content) q) (p ∷ ps)

-- `metadata_ or {}`
abbrev pub metadata_or_empty : Option Metadata → Metadata
metadata_or_empty none = record { tags = none; notes = none; others = [] }
metadata_or_empty (some m) = m

abbrev pub or_old {ℓ} : {A : Type ℓ} → Option A → Option A → Option A
or_old none old = old
or_old (some a) old = some a

-- Notes and tags that are given replace those of the metadata.
abbrev pub with_notes : Option (List Text) → Option Text → Metadata → Metadata
with_notes tags notes m = record m { tags = or_old tags m.tags; notes = or_old notes m.notes }

abbrev pub has_keys : Metadata → Bool
has_keys m = elim m.tags [
  | some ts ↦ true
  | none ↦ elim m.notes [ some n ↦ true | none ↦ elim m.others [ [] ↦ false | o ∷ os ↦ true ] ]
]

-- An object that has keys is changed in place, and so not written.
abbrev pub saved_metadata : Option Metadata → Metadata → Metadata
saved_metadata none new = new
saved_metadata (some old) new = if has_keys old then old else new

-- A history that has edits is changed in place, and so not written.
abbrev pub saved_history : List Edit → List Edit → List Edit
saved_history [] new = new
saved_history (e ∷ old) new = e ∷ old

module _ {S : Type 0} where
  unfoldable pub get_chunk : ℕ → Db S → Result ChunkError (Chunk S)
  get_chunk chunk_id db = elim (lookup chunk_id db.chunks) [
    | none ↦ err (chunk_not_found chunk_id)
    | some c ↦ ok c
  ]

  unfoldable pub preview_split : ℕ → List ℕ → Db S → Result ChunkError (List (Text × ℕ))
  preview_split chunk_id split_positions db = do
    chunk ← get_chunk chunk_id db
    let positions = sorted_set split_positions
    if are_invalid chunk.content positions
        then err invalid_positions
        else ok (map (λ s. (s, token_count_of s)) (segments chunk.content 0 positions))

  -- New rows get the identifiers `fresh`, as many as there are.
  unfoldable pub add_all : List ℕ → List (Chunk S) → Dict (Chunk S) → Dict (Chunk S)
  add_all fresh [] chunks = chunks
  add_all [] cs chunks = chunks
  add_all (k ∷ fresh) (c ∷ cs) chunks = add_all fresh cs (insert k c chunks)

  -- The foreign key of `parent_chunk_id` is set to null when the parent is deleted.
  abbrev pub without_parent : ℕ → Chunk S → Chunk S
  without_parent k c = elim c.parent_chunk_id [
    | none ↦ c
    | some p ↦ if p == k then record c { parent_chunk_id = none } else c
  ]

  abbrev pub clear_parent : ℕ → Dict (Chunk S) → Dict (Chunk S)
  clear_parent k [] = []
  clear_parent k ((j, c) ∷ chunks) = (j, without_parent k c) ∷ clear_parent k chunks

  abbrev pub delete_row : ℕ → Dict (Chunk S) → Dict (Chunk S)
  delete_row k chunks = clear_parent k (remove k chunks)

  unfoldable pub remove_all : List ℕ → Dict (Chunk S) → Dict (Chunk S)
  remove_all [] chunks = chunks
  remove_all (k ∷ ks) chunks = remove_all ks (delete_row k chunks)

  unfoldable pub delete_chunk : ℕ → Db S → Result ChunkError (Db S)
  delete_chunk chunk_id db = do
    chunk ← get_chunk chunk_id db
    ok (record {
      chunks = delete_row chunk_id db.chunks;
      deleted_vectors = elim chunk.vector_id [
        | none ↦ db.deleted_vectors
        | some v ↦ db.deleted_vectors ++ (chunk.knowledge_base_id, v) ∷ []
      ];
    })

  -- The row as the method returns it, and what is written of it.
  unfoldable pub annotate_chunk :
      ℕ → Option (List Text) → Option Text → Db S → Result ChunkError (Chunk S × Db S)
  annotate_chunk chunk_id tags notes db = do
    chunk ← get_chunk chunk_id db
    let annotated = with_notes tags notes (metadata_or_empty chunk.metadata_)
    ok (
      record chunk { metadata_ = some annotated },
      record db {
        chunks =
            insert chunk_id
              (record chunk { metadata_ = some (saved_metadata chunk.metadata_ annotated) })
              db.chunks;
      },
    )

  abbrev pub ids_of_document : ℕ → Dict (Chunk S) → List ℕ
  ids_of_document document_id [] = []
  ids_of_document document_id ((k, c) ∷ chunks) =
      let rest = ids_of_document document_id chunks in
      elim c.unit_type [
        | document ↦ if c.unit_id == document_id then k ∷ rest else rest
        | entry ↦ rest
      ]

  unfoldable pub delete_chunks_by_document : ℕ → Db S → Db S × ℕ
  unfolding remove_all
  delete_chunks_by_document document_id db =
      let ids = ids_of_document document_id db.chunks in
      (record db { chunks = remove_all ids db.chunks }, length ids)

  -- `chunks.sort(key=position)`, which keeps the order of equal positions.
  unfoldable pub add_by_position : Chunk S → List (Chunk S) → List (Chunk S)
  add_by_position c [] = c ∷ []
  add_by_position c (d ∷ ds) =
      let rest = add_by_position c ds in if leb c.position d.position then c ∷ d ∷ ds else d ∷ rest

  unfoldable pub sort_by_position : List (Chunk S) → List (Chunk S)
  sort_by_position [] = []
  sort_by_position (c ∷ cs) = add_by_position c (sort_by_position cs)

  -- "\n\n".join
  unfoldable pub join_contents : List (Chunk S) → Text
  join_contents [] = []
  join_contents (c ∷ []) = c.content
  join_contents (c ∷ d ∷ ds) = c.content ++ 10 ∷ 10 ∷ join_contents (d ∷ ds)

  unfoldable pub get_all : List ℕ → Db S → Result ChunkError (List (Chunk S))
  get_all [] db = ok []
  get_all (k ∷ ks) db = let rest = get_all ks db in do c ← get_chunk k db; cs ← rest; ok (c ∷ cs)

  abbrev pub same_unit : Chunk S → Chunk S → Bool
  same_unit c d =
      elim c.unit_type [
        | document ↦ elim d.unit_type [ document ↦ true | entry ↦ false ]
        | entry ↦ elim d.unit_type [ document ↦ false | entry ↦ true ]
      ]
      && (c.unit_id == d.unit_id)

  abbrev pub differ_in_unit : List (Chunk S) → Bool
  differ_in_unit [] = false
  differ_in_unit (c ∷ cs) = any (λ d. not (same_unit c d)) cs

-- Who edits, and when.
pub record Editor : Type 0 where
  pub user_id : ℕ
  pub now : ℕ

abbrev pub split_edit : ℕ → Editor → Edit
split_edit chunk_id by = record {
  user_id = by.user_id;
  timestamp = by.now;
  action = split_from chunk_id;
}

module _ {S : Type 0} (score_chunk : Text → S) where
  -- The row in memory.
  abbrev pub rewritten : Editor → Text → Chunk S → Chunk S
  rewritten by new_content chunk = record chunk {
    content = new_content;
    is_manually_edited = true;
    edit_history =
        chunk.edit_history
        ++ record { user_id = by.user_id; timestamp = by.now; action = edited chunk.content } ∷ [];
    vector_id = none;
    token_count = token_count_of new_content;
    quality_score = score_chunk new_content;
  }

  -- The row as the method returns it, and what is written of it.
  unfoldable pub edit_chunk : ℕ → Text → Editor → Db S → Result ChunkError (Chunk S × Db S)
  edit_chunk chunk_id new_content by db = do
    chunk ← get_chunk chunk_id db
    let row = rewritten by new_content chunk
    let saved = (record row { edit_history = saved_history chunk.edit_history row.edit_history })
    ok (row, record db { chunks = insert chunk_id saved db.chunks })

  -- A row that the constructor makes: no vector, no metadata and no tags.
  abbrev pub piece : Chunk S → ℕ → Text → Bool → Edit → Chunk S
  piece c position content review_excluded edit = record {
    unit_type = c.unit_type;
    unit_id = c.unit_id;
    knowledge_base_id = c.knowledge_base_id;
    folder_id = c.folder_id;
    content = content;
    parent_chunk_id = c.parent_chunk_id;
    level = c.level;
    position = position;
    token_count = token_count_of content;
    quality_score = score_chunk content;
    vector_id = none;
    is_manually_edited = true;
    edit_history = edit ∷ [];
    review_excluded = review_excluded;
    metadata_ = none;
    chunk_tags = none;
  }

  -- The rows for the segments, the first one at number `i`.
  unfoldable pub pieces : Chunk S → Edit → ℕ → List Text → List (Chunk S)
  pieces c edit i [] = []
  pieces c edit i (s ∷ ss) =
      piece c (c.position + i) s c.review_excluded edit ∷ pieces c edit (i + 1) ss

  unfoldable pub split_chunk :
      List ℕ → ℕ → List ℕ → Editor → Db S → Result ChunkError (List (Chunk S) × Db S)
  split_chunk fresh chunk_id split_positions by db = do
    chunk ← get_chunk chunk_id db
    let positions = sorted_set split_positions
    let new_chunks = pieces chunk (split_edit chunk_id by) 0 (segments chunk.content 0 positions)
    if are_invalid chunk.content positions
        then err invalid_positions
        else ok (
          new_chunks,
          record db { chunks = delete_row chunk_id (add_all fresh new_chunks db.chunks) },
        )

  -- The row of a merge, from the sorted sources.
  abbrev pub merged_row : List (Chunk S) → Edit → Result ChunkError (Chunk S)
  merged_row [] edit = err too_few_chunks
  merged_row (c ∷ cs) edit =
      ok (piece c c.position (join_contents (c ∷ cs)) (any (λ d. d.review_excluded) (c ∷ cs)) edit)

  unfoldable pub merge_chunks : ℕ → List ℕ → Editor → Db S → Result ChunkError (Chunk S × Db S)
  merge_chunks fresh_id chunk_ids by db =
      if ltb (length chunk_ids) 2 then err too_few_chunks else do
        chunks ← get_all chunk_ids db
        _ ← (if differ_in_unit chunks then err different_units else ok chunks)
        merged ←
            merged_row (sort_by_position chunks)
              (record { user_id = by.user_id; timestamp = by.now; action = merged_from chunk_ids })
        ok (merged, record db { chunks = remove_all chunk_ids (insert fresh_id merged db.chunks) })

-- ===== src/Examples/Edits.antt =====
-- Tests and instances for app/knowledge/chunk_service.py and app/knowledge/chunk_router.py.
use ops_knowledge.Prelude.{
  ℕ, Option, length, ◌≡◌, ◌==◌, refl, Bool, true, false, none, some, List, [], ◌∷◌, ◌++◌, map, All,
  inl,
}
use ops_knowledge.Prelude.Dict.{lookup}
use ops_knowledge.Prelude.Results.{Result, ok, err}
use ops_knowledge.Prelude.Texts.{Text, codes, text_eq}
use ops_knowledge.Knowledge.Chunks.{
  document, Chunk, ChunkError, invalid_positions, split_edit, edited, edit_chunk, Db, Editor,
  merged_from, count_words, add_sorted, sorted_set, segments, get_chunk, preview_split, add_all,
  pieces, split_chunk, get_all, add_by_position, sort_by_position, join_contents, remove_all,
  merge_chunks, piece,
}
use ops_knowledge.Knowledge.Chunks.Splitting.{concat, IsNonempty, IsPieceOf, split_chunk_exact}
use ops_knowledge.Knowledge.Chunks.Merging.{merge_stays_excluded}
use ops_knowledge.Knowledge.Chunks.Endpoints.{
  split_endpoint, merge_endpoint, delete_endpoint, other_base_deleted, split_and_merge_never_return,
}
use ops_knowledge.Knowledge.Chunks.Creation.{merge_tags}

-- The score of a text stands for the scorer: 1.
abbrev score : Text → ℕ
score s = 1

abbrev row : ℕ → Text → Bool → Chunk ℕ
row position content hidden = record {
  unit_type = document;
  unit_id = 2;
  knowledge_base_id = 7;
  folder_id = none;
  content = content;
  parent_chunk_id = none;
  level = 0;
  position = position;
  token_count = 0;
  quality_score = 1;
  vector_id = some 30;
  is_manually_edited = false;
  edit_history = [];
  review_excluded = hidden;
  metadata_ = none;
  chunk_tags = some (codes "x" ∷ []);
}

abbrev db : Db ℕ
db = record {
  chunks = (1, row 0 (codes "ab cd") false) ∷ (2, row 1 (codes "ef") true) ∷ [];
  deleted_vectors = [];
}

abbrev by : Editor
by = record { user_id = 9; now = 100 }

positions_sorted : sorted_set (3 ∷ 1 ∷ 3 ∷ 2 ∷ []) ≡ 1 ∷ 2 ∷ 3 ∷ []
unfolding sorted_set add_sorted
positions_sorted = refl

words_counted : count_words false (codes " ab  cd e") ≡ 3
unfolding count_words
words_counted = refl

preview_refused : preview_split 1 (5 ∷ []) db ≡ err invalid_positions
unfolding preview_split get_chunk sorted_set add_sorted
preview_refused = refl

tags_merged :
    merge_tags [] (codes "a" ∷ [] ∷ codes "b" ∷ codes "a" ∷ []) ≡ codes "a" ∷ codes "b" ∷ []
unfolding merge_tags text_eq
tags_merged = refl

abbrev halves : List (Chunk ℕ)
halves =
    piece score (row 0 (codes "ab cd") false) 0 (codes "ab ") false (split_edit 1 by)
    ∷ piece score (row 0 (codes "ab cd") false) 1 (codes "cd") false (split_edit 1 by)
    ∷ []

abbrev split_db : Db ℕ
split_db = record db {
  chunks =
      (2, row 1 (codes "ef") true)
      ∷ (11, piece score (row 0 (codes "ab cd") false) 0 (codes "ab ") false (split_edit 1 by))
      ∷ (12, piece score (row 0 (codes "ab cd") false) 1 (codes "cd") false (split_edit 1 by))
      ∷ [];
}

-- The second half gets the position of the next chunk, and the tags are gone.
split_in_two : split_chunk score (11 ∷ 12 ∷ []) 1 (3 ∷ []) by db ≡ ok (halves, split_db)
unfolding split_chunk get_chunk sorted_set add_sorted segments pieces count_words add_all
split_in_two = refl

split_chunk_exact_example :
    (chunk : Chunk ℕ) × (lookup 1 db.chunks ≡ some chunk)
    × (concat (map (λ c. c.content) halves) ≡ chunk.content)
    × All IsNonempty (map (λ c. c.content) halves)
    × All (IsPieceOf chunk) halves
    × (preview_split 1 (3 ∷ []) db ≡ ok (map (λ c. (c.content, c.token_count)) halves))
split_chunk_exact_example =
    split_chunk_exact score (11 ∷ 12 ∷ []) 1 (3 ∷ []) by db split_db halves split_in_two

abbrev merged : Chunk ℕ
merged =
    piece score (row 0 (codes "ab cd") false) 0 (codes "ab cd" ++ 10 ∷ 10 ∷ codes "ef") true
      (record { user_id = 9; timestamp = 100; action = merged_from (2 ∷ 1 ∷ []) })

abbrev merged_db : Db ℕ
merged_db = record db { chunks = (13, merged) ∷ [] }

two_merged : merge_chunks score 13 (2 ∷ 1 ∷ []) by db ≡ ok (merged, merged_db)
unfolding merge_chunks get_all get_chunk sort_by_position add_by_position join_contents remove_all
    count_words
two_merged = refl

abbrev content_of : Result ChunkError (Chunk ℕ × Db ℕ) → Text
content_of (ok p) = p.0.content
content_of (err e) = []

-- A chunk that is named twice is merged with itself.
merged_with_itself :
    content_of (merge_chunks score 13 (2 ∷ 2 ∷ []) by db) ≡ codes "ef" ++ 10 ∷ 10 ∷ codes "ef"
unfolding merge_chunks get_all get_chunk sort_by_position add_by_position join_contents remove_all
merged_with_itself = refl

merge_stays_excluded_example : merged.review_excluded ≡ true
merge_stays_excluded_example =
    merge_stays_excluded score 13 2 (2 ∷ 1 ∷ []) by db merged_db (row 1 (codes "ef") true) merged
      two_merged (inl refl) refl refl

abbrev histories : Result ChunkError (Chunk ℕ × Db ℕ) → ℕ × Option ℕ
histories (ok p) = (
  length p.0.edit_history,
  elim (lookup 1 p.1.chunks) [ none ↦ none | some c ↦ some (length c.edit_history) ],
)
histories (err e) = (0, none)

abbrev edited_once : Db ℕ
edited_once = record {
  chunks =
      (
        1,
        record (row 0 (codes "ab") false) {
          edit_history = record { user_id = 9; timestamp = 90; action = edited (codes "a") } ∷ [];
        },
      )
      ∷ [];
  deleted_vectors = [];
}

-- The first edit is written, and the second is in the reply only.
first_edit_written : histories (edit_chunk score 1 (codes "x") by db) ≡ (1, some 1)
unfolding edit_chunk get_chunk
first_edit_written = refl

second_edit_lost : histories (edit_chunk score 1 (codes "x") by edited_once) ≡ (2, some 1)
unfolding edit_chunk get_chunk
second_edit_lost = refl

-- The caller may edit base 3, and the chunk is one of base 7.
other_base_deleted_example :
    (db' : Db ℕ) × (delete_endpoint (3 ∷ 7 ∷ []) (λ kb. kb == 3) 3 1 db ≡ ok db')
    × (lookup 1 db'.chunks ≡ none)
    × (db'.deleted_vectors ≡ (7, 30) ∷ [])
other_base_deleted_example =
    other_base_deleted (3 ∷ 7 ∷ []) (λ kb. kb == 3) 3 1 db (row 0 (codes "ab cd") false) refl refl
      refl refl

split_and_merge_never_return_example :
    ((e : ChunkError) × (split_endpoint
          (7 ∷ [])
          (λ kb. true)
          score
          (11 ∷ 12 ∷ [])
          7
          1
          (3 ∷ [])
          by
          db
        ≡ err e))
    × ((e : ChunkError) × (merge_endpoint (7 ∷ []) (λ kb. true) score 13 7 (1 ∷ 2 ∷ []) by db
          ≡ err e))
split_and_merge_never_return_example =
    split_and_merge_never_return (7 ∷ []) (λ kb. true) score (11 ∷ 12 ∷ []) 13 7 1 (3 ∷ [])
      (1 ∷ 2 ∷ []) by db

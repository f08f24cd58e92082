-- ===== src/Examples/Chunks.antt =====
-- Tests and instances for app/knowledge/chunking/.
use ops_knowledge.Prelude.{
  ℕ, ◌≤◌, ◌≡◌, refl, Bool, not, ◌&&◌, ◌==◌, none, some, List, [], ◌∷◌, length, All, arith,
}
use ops_knowledge.Prelude.Texts.{codes, starts_with}
use ops_knowledge.Knowledge.Chunking.{
  ChunkResult, Config, split_from, split, slices, force_split, merge, split_recursive, overlapped,
  apply_overlap, separators, chunk,
}
use ops_knowledge.Knowledge.Chunking.Sizes.{chunk-le}
use ops_knowledge.Knowledge.Chunking.Content.{Keeps, split_recursive-Keeps}

-- Words are packed up to the chunk size, and a word that is too long is cut.
words_packed :
    split_recursive separators 5 (codes "ab cd\nefghijk")
    ≡ some (codes "ab cd" ∷ codes "efghi" ∷ codes "jk" ∷ [])
unfolding split_recursive merge split split_from starts_with force_split slices
words_packed = refl

abbrev config : Config
config = record { chunk_size = some 5; chunk_overlap = some 2; delimiter = none }

overlap_added :
    apply_overlap (codes "ab cd" ∷ codes "efghi" ∷ codes "jk" ∷ []) 2
    ≡ codes "ab cd" ∷ codes "cdefghi" ∷ codes "hijk" ∷ []
unfolding apply_overlap overlapped
overlap_added = refl

chunk-le_example :
    (rs : List ChunkResult) × (chunk (codes "ab cd\nefghijk") config ≡ some rs)
    × All (λ r. length r.content ≤ 7) rs
chunk-le_example = chunk-le (codes "ab cd\nefghijk") config (omega arith)

abbrev is_letter : ℕ → Bool
is_letter c = not (c == 10) && (not (c == 32) && not (c == 46))

split_recursive-Keeps_example :
    Keeps is_letter (codes "abcdefghijk") (split_recursive separators 5 (codes "ab cd\nefghijk"))
split_recursive-Keeps_example =
    split_recursive-Keeps is_letter separators 5 (codes "ab cd\nefghijk")
      (refl, (refl, (refl, (refl, (refl, tt)))))

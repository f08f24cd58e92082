-- ===== src/Knowledge/Chunks/Creation.antt =====
-- The chunks of a unit: `create_chunks_for_unit` and `_compute_chunk_tags_from_unit` of
-- app/knowledge/chunk_service.py. The seeds are what the plugin of the base makes of the unit.
use ops_knowledge.Prelude.{
  ℕ, suc, subst, ◌≤◌, ◌≡◌, refl, ap, Bool, true, false, not, if◌then◌else◌, Option, none, some,
  List, [], ◌∷◌, ◌++◌, mem, map, any, take, length, length-take-le, All, arith, inl, inr,
  Bool-cases,
}
use ops_knowledge.Prelude.Results.{Result, ok, err, ◌>>=◌, err-ne-ok, ok-injective}
use ops_knowledge.Prelude.Texts.{Text, text_eq}
use ops_knowledge.Knowledge.Chunks.{
  UnitType, Metadata, Chunk, ChunkError, kb_not_found, unit_not_found, Db, add_all,
}

pub data ReviewStatus : Type 0 where
  pending approved rejected : ReviewStatus

-- What the code reads of an entry or of a document, which has no tags; an automatic tag is an object
-- whose `tag` may be missing.
pub record KnowledgeUnit : Type 0 where
  pub unit_type : UnitType
  pub review_status : Option ReviewStatus
  pub tags : Option (List Text)
  pub auto_tags : Option (List (Option Text))

pub record ChunkSeed : Type 0 where
  pub folder_id : Option ℕ
  pub content : Text
  pub parent_chunk_id : Option ℕ
  pub level : ℕ
  pub position : ℕ
  pub token_count : ℕ
  pub metadata : Option Metadata

abbrev pub or_none {ℓ} : {A : Type ℓ} → Option (List A) → List A
or_none none = []
or_none (some xs) = xs

abbrev pub present : List (Option Text) → List Text
present [] = []
present (none ∷ rest) = present rest
present (some t ∷ rest) = t ∷ present rest

-- The loop over the tags: `seen` has them whole, the result has at most 64 characters of each.
unfoldable pub merge_tags : List Text → List Text → List Text
merge_tags seen [] = []
merge_tags seen ([] ∷ ts) = merge_tags seen ts
merge_tags seen ((c ∷ t) ∷ ts) =
    let skipped = merge_tags seen ts in
    let added = take 64 (c ∷ t) ∷ merge_tags ((c ∷ t) ∷ seen) ts in
    if any (text_eq (c ∷ t)) seen then skipped else added

abbrev pub none_if_empty : List Text → Option (List Text)
none_if_empty [] = none
none_if_empty (t ∷ ts) = some (t ∷ ts)

unfoldable pub compute_chunk_tags_from_unit : KnowledgeUnit → Option (List Text)
compute_chunk_tags_from_unit unit =
    none_if_empty (merge_tags [] (or_none unit.tags ++ present (or_none unit.auto_tags)))

abbrev pub is_held_back : Option ReviewStatus → Bool
is_held_back (some pending) = true
is_held_back (some rejected) = true
is_held_back s = false

abbrev pub or_not_found : ℕ → Option KnowledgeUnit → Result ChunkError KnowledgeUnit
or_not_found unit_id none = err (unit_not_found unit_id)
or_not_found unit_id (some unit) = ok unit

module _ {S : Type 0} (score_chunk : Text → S) where
  abbrev pub chunk_of : ℕ → ℕ → KnowledgeUnit → ChunkSeed → Chunk S
  chunk_of kb_id unit_id unit seed = record {
    unit_type = unit.unit_type;
    unit_id = unit_id;
    knowledge_base_id = kb_id;
    folder_id = seed.folder_id;
    content = seed.content;
    parent_chunk_id = seed.parent_chunk_id;
    level = seed.level;
    position = seed.position;
    token_count = seed.token_count;
    quality_score = score_chunk seed.content;
    vector_id = none;
    is_manually_edited = false;
    edit_history = [];
    review_excluded = is_held_back unit.review_status;
    metadata_ = seed.metadata;
    chunk_tags = compute_chunk_tags_from_unit unit;
  }

  -- `kbs` are the bases there are, and `found` is the row of the unit, if there is one.
  unfoldable pub create_chunks_for_unit :
      List ℕ
      → List ℕ
      → ℕ
      → ℕ
      → Option KnowledgeUnit
      → List ChunkSeed
      → Db S
      → Result ChunkError (List (Chunk S) × Db S)
  create_chunks_for_unit fresh kbs kb_id unit_id found seeds db =
      if not (mem kb_id kbs) then err (kb_not_found kb_id) else do
        unit ← or_not_found unit_id found
        let rows = map (chunk_of kb_id unit_id unit) seeds
        ok (rows, record db { chunks = add_all fresh rows db.chunks })

length-map : {A B : Type 0} (f : A → B) (xs : List A) → length (map f xs) ≡ length xs
length-map f [] = refl
length-map f (x ∷ xs) = ap suc (length-map f xs)

abbrev pub IsTag : Text → Type 0
IsTag t = (1 ≤ length t) × (length t ≤ 64)

merge_tags-AllIsTag : (seen ts : List Text) → All IsTag (merge_tags seen ts)
unfolding merge_tags
merge_tags-AllIsTag seen [] = tt
merge_tags-AllIsTag seen ([] ∷ ts) = merge_tags-AllIsTag seen ts
merge_tags-AllIsTag seen ((c ∷ t) ∷ ts) = elim (Bool-cases (any (text_eq (c ∷ t)) seen)) [
  | inl known ↦ simp known (merge_tags-AllIsTag seen ts)
  | inr new ↦
      simp new
        ((omega arith, omega (arith, length-take-le 63 t)), merge_tags-AllIsTag ((c ∷ t) ∷ seen) ts)
]

-- The tags of a chunk, if it has any.
abbrev pub AreTags : Option (List Text) → Type 0
AreTags none = Unit
AreTags (some ts) = All IsTag ts

nonempty-AreTags : (ts : List Text) → All IsTag ts → AreTags (none_if_empty ts)
nonempty-AreTags [] h = tt
nonempty-AreTags (t ∷ ts) h = h

module _ {S : Type 0} (score_chunk : Text → S) where
  rows_fit :
      (kb_id unit_id : ℕ) (unit : KnowledgeUnit) (seeds : List ChunkSeed)
      → All
          (λ c. (c.review_excluded ≡ is_held_back unit.review_status) × AreTags c.chunk_tags)
          (map (chunk_of score_chunk kb_id unit_id unit) seeds)
  unfolding compute_chunk_tags_from_unit
  rows_fit kb_id unit_id unit [] = tt
  rows_fit kb_id unit_id unit (seed ∷ seeds) =
      ((refl, nonempty-AreTags _ (merge_tags-AllIsTag [] _)), rows_fit kb_id unit_id unit seeds)

  -- The chunks of a unit are kept from retrieval exactly if its review is pending or was refused, and
  -- each of their tags has between 1 and 64 characters.
  pub created_chunks_fit :
      (fresh kbs : List ℕ) (kb_id unit_id : ℕ) (unit : KnowledgeUnit) (seeds : List ChunkSeed)
      (db db' : Db S) (cs : List (Chunk S))
      → create_chunks_for_unit score_chunk fresh kbs kb_id unit_id (some unit) seeds db
        ≡ ok (cs, db')
      → (length cs ≡ length seeds)
        × All (λ c. (c.review_excluded ≡ is_held_back unit.review_status) × AreTags c.chunk_tags) cs
  unfolding create_chunks_for_unit
  created_chunks_fit fresh kbs kb_id unit_id unit seeds db db' cs e =
      elim (Bool-cases (not (mem kb_id kbs))) [
        | inl missing ↦ absurd (err-ne-ok (simp missing at e))
        | inr there ↦
            let rows = map (chunk_of score_chunk kb_id unit_id unit) seeds in
            let h : ok (rows, record db { chunks = add_all fresh rows db.chunks }) ≡ ok (cs, db') =
              simp there at e in
            let made : rows ≡ cs = ap (λ p. p.0) (ok-injective h) in
            subst
              (λ l.
                (length l ≡ length seeds)
                × All
                    (λ c.
                      (c.review_excluded ≡ is_held_back unit.review_status) × AreTags c.chunk_tags)
                    l)
              made (length-map _ seeds, rows_fit kb_id unit_id unit seeds)
      ]

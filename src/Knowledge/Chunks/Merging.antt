-- ===== src/Knowledge/Chunks/Merging.antt =====
-- What a merge keeps hidden (app/knowledge/chunk_service.py).
use ops_knowledge.Prelude.{
  ℕ, ◌≡◌, sym, ap, ◌∙◌, subst, true, ltb, leb, if◌then◌else◌, some, List, [], ◌∷◌, arith, inl, inr,
  ◌⊎◌, Bool-cases, length, In,
}
use ops_knowledge.Prelude.Queries.{any_of}
use ops_knowledge.Prelude.Dict.{lookup}
use ops_knowledge.Prelude.Results.{ok, err, ◌>>=◌, bind_ok, err-ne-ok, ok-injective}
use ops_knowledge.Prelude.Texts.{Text}
use ops_knowledge.Knowledge.Chunks.{
  Chunk, different_units, Db, Edit, Editor, get_chunk, get_all, add_by_position, sort_by_position,
  differ_in_unit, merged_row, merge_chunks,
}

module _ {S : Type 0} where
  In-add : (c d : Chunk S) (cs : List (Chunk S)) → (d ≡ c) ⊎ In d cs → In d (add_by_position c cs)
  unfolding add_by_position
  In-add c d [] i = i
  In-add c d (x ∷ xs) i = elim (Bool-cases (leb c.position x.position)) [
    | inl first ↦ simp first i
    | inr after ↦ simp after (elim i [
      | inl e ↦ inr (In-add c d xs (inl e))
      | inr j ↦ elim j [ inl e ↦ inl e | inr later ↦ inr (In-add c d xs (inr later)) ]
    ])
  ]

  In-sort : (c : Chunk S) (cs : List (Chunk S)) → In c cs → In c (sort_by_position cs)
  unfolding sort_by_position
  In-sort c [] i = i
  In-sort c (d ∷ ds) (inl e) = In-add d c (sort_by_position ds) (inl e)
  In-sort c (d ∷ ds) (inr i) = In-add d c (sort_by_position ds) (inr (In-sort c ds i))

  found_row :
      (j : ℕ) (c d : Chunk S) (db : Db S)
      → get_chunk j db ≡ ok d
      → lookup j db.chunks ≡ some c
      → c ≡ d
  unfolding get_chunk
  found_row j c d db got at = ground arith

  -- The rows of the given identifiers are all there.
  get_all-In :
      (k : ℕ) (c : Chunk S) (ks : List ℕ) (db : Db S) (cs : List (Chunk S))
      → get_all ks db ≡ ok cs
      → In k ks
      → lookup k db.chunks ≡ some c
      → In c cs
  unfolding get_all
  get_all-In k c [] db cs e i at = absurd i
  get_all-In k c (j ∷ js) db cs e i at =
      let (d, got, e1) = bind_ok (get_chunk j db) _ cs e in
      let (ds, rest, e2) = bind_ok (get_all js db) _ cs e1 in
      subst (In c) (ok-injective e2) (elim i [
        | inl same ↦ inl (found_row j c d db got (subst (λ x. lookup x db.chunks ≡ some c) same at))
        | inr later ↦ inr (get_all-In k c js db ds rest later at)
      ])

module _ {S : Type 0} (score_chunk : Text → S) where
  merged_row-excluded :
      (c m : Chunk S) (cs : List (Chunk S)) (edit : Edit)
      → In c cs
      → c.review_excluded ≡ true
      → merged_row score_chunk cs edit ≡ ok m
      → m.review_excluded ≡ true
  merged_row-excluded c m [] edit i hidden e = absurd i
  merged_row-excluded c m (d ∷ ds) edit i hidden e =
      ap (λ x. x.review_excluded) (sym (ok-injective e))
      ∙ any_of (λ x. x.review_excluded) c (d ∷ ds) i hidden

  -- A merge makes no hidden text readable: if one of its sources is kept from retrieval, so is the new
  -- chunk.
  pub merge_stays_excluded :
      (fresh_id k : ℕ) (chunk_ids : List ℕ) (by : Editor) (db db' : Db S) (c merged : Chunk S)
      → merge_chunks score_chunk fresh_id chunk_ids by db ≡ ok (merged, db')
      → In k chunk_ids
      → lookup k db.chunks ≡ some c
      → c.review_excluded ≡ true
      → merged.review_excluded ≡ true
  unfolding merge_chunks
  merge_stays_excluded fresh_id k chunk_ids by db db' c merged e i at hidden =
      elim (Bool-cases (ltb (length chunk_ids) 2)) [
        | inl few ↦ absurd (err-ne-ok (simp few at e))
        | inr enough ↦
            let e0 : (get_all chunk_ids db >>= _) ≡ ok (merged, db') = simp enough at e in
            let (chunks, all_there, e1) = bind_ok (get_all chunk_ids db) _ (merged, db') e0 in
            let (x, one_unit, e2) =
              bind_ok (if differ_in_unit chunks then err different_units else ok chunks) _
                (merged, db') e1 in
            let (m, row, e3) =
              bind_ok (merged_row score_chunk (sort_by_position chunks) _) _ (merged, db') e2 in
            let same : m ≡ merged = ap (λ p. p.0) (ok-injective e3) in
            subst (λ y. y.review_excluded ≡ true) same
              (merged_row-excluded c m (sort_by_position chunks) _
                (In-sort c chunks (get_all-In k c chunk_ids db chunks all_there i at)) hidden row)
      ]

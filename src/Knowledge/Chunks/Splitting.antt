-- ===== src/Knowledge/Chunks/Splitting.antt =====
-- What a split keeps (app/knowledge/chunk_service.py).
use ops_knowledge.Prelude.{
  ℕ, zero, suc, ◌+◌, ◌-◌, ◌≤◌, ◌<◌, ◌≡◌, refl, sym, ap, ◌∙◌, subst, false, ◌||◌, ◌==◌, ltb, leb,
  some, List, [], ◌∷◌, ◌++◌, map, arith, inl, inr, Bool-cases, any, take, drop, length, All,
  take-append-drop, length-drop,
}
use mathlib.Core.List.{append-nil}
use ops_knowledge.Prelude.Dict.{lookup}
use ops_knowledge.Prelude.Results.{ok, bind_ok, bind_step, err-ne-ok, ok-injective}
use ops_knowledge.Prelude.Texts.{Text}
use ops_knowledge.Knowledge.Chunks.{
  delete_row, Chunk, Db, Edit, Editor, split_edit, token_count_of, add_sorted, sorted_set, segments,
  are_invalid, get_chunk, preview_split, pieces, split_chunk, add_all,
}

-- The texts one after the other.
abbrev pub concat : List Text → Text
concat [] = []
concat (s ∷ ss) = s ++ concat ss

drop_nil : (n : ℕ) → drop {A = ℕ} n [] ≡ []
drop_nil zero = refl
drop_nil (suc n) = refl

take_nil : (n : ℕ) → take {A = ℕ} n [] ≡ []
take_nil zero = refl
take_nil (suc n) = refl

-- A segment and what comes after it.
cut : (start n : ℕ) (s : Text) → take n (drop start s) ++ drop (start + n) s ≡ drop start s
cut zero n s = ap (λ k. take n s ++ drop k s) (omega arith) ∙ take-append-drop n s
cut (suc start) n [] = rw (take_nil n, drop_nil (suc start + n)) refl
cut (suc start) n (c ∷ s) =
    ap (λ k. take n (drop start s) ++ drop k (c ∷ s)) {x = suc start + n} {y = suc (start + n)}
      (omega arith)
    ∙ cut start n s

-- Each position is above the one before, the first above `low`.
abbrev Ascends : ℕ → List ℕ → Type 0
Ascends low [] = Unit
Ascends low (p ∷ ps) = (low < p) × Ascends p ps

abbrev IsAscending : List ℕ → Type 0
IsAscending [] = Unit
IsAscending (p ∷ ps) = Ascends p ps

add_sorted-Ascends :
    (low p : ℕ) (qs : List ℕ) → low < p → Ascends low qs → Ascends low (add_sorted p qs)
unfolding add_sorted
add_sorted-Ascends low p [] h k = (h, tt)
add_sorted-Ascends low p (q ∷ qs) h k = elim (Bool-cases (ltb p q)) [
  | inl less ↦ simp less (h, (ground arith, k.1))
  | inr more ↦ elim (Bool-cases (p == q)) [
    | inl same ↦ simp (more, same) k
    | inr differ ↦ simp (more, differ) (k.0, add_sorted-Ascends q p qs (ground arith) k.1)
  ]
]

add_sorted-IsAscending : (p : ℕ) (qs : List ℕ) → IsAscending qs → IsAscending (add_sorted p qs)
unfolding add_sorted
add_sorted-IsAscending p [] k = tt
add_sorted-IsAscending p (q ∷ qs) k = elim (Bool-cases (ltb p q)) [
  | inl less ↦ simp less (ground arith, k)
  | inr more ↦ elim (Bool-cases (p == q)) [
    | inl same ↦ simp (more, same) k
    | inr differ ↦ simp (more, differ) (add_sorted-Ascends q p qs (ground arith) k)
  ]
]

sorted_set-IsAscending : (ps : List ℕ) → IsAscending (sorted_set ps)
unfolding sorted_set
sorted_set-IsAscending [] = tt
sorted_set-IsAscending (p ∷ ps) =
    add_sorted-IsAscending p (sorted_set ps) (sorted_set-IsAscending ps)

concat-segments :
    (content : Text) (start : ℕ) (ps : List ℕ)
    → Ascends start ps
    → concat (segments content start ps) ≡ drop start content
unfolding segments
concat-segments content start [] h = append-nil (drop start content)
concat-segments content start (p ∷ ps) h =
    ap (λ l. take (p - start) (drop start content) ++ l) (concat-segments content p ps h.1)
    ∙ ap (λ k. take (p - start) (drop start content) ++ drop k content) {x = p}
        {y = start + (p - start)} (omega (arith, h.0))
    ∙ cut start (p - start) content

length-take : (n : ℕ) (s : Text) → n ≤ length s → length (take n s) ≡ n
length-take zero s h = refl
length-take (suc n) [] h = absurd (omega arith)
length-take (suc n) (c ∷ s) h = ap suc (length-take n s (omega arith))

abbrev pub IsNonempty : Text → Type 0
IsNonempty s = 0 < length s

segments-AllIsNonempty :
    (content : Text) (start : ℕ) (ps : List ℕ)
    → start < length content
    → Ascends start ps
    → any (λ q. (q == 0) || leb (length content) q) ps ≡ false
    → All IsNonempty (segments content start ps)
unfolding segments
segments-AllIsNonempty content start [] low h valid = (omega (arith, length-drop start content), tt)
segments-AllIsNonempty content start (p ∷ ps) low h valid =
    let inside : p < length content = ground arith in
    let later : any (λ q. (q == 0) || leb (length content) q) ps ≡ false = ground arith in
    let room = length-drop start content in
    let size : length (take (p - start) (drop start content)) ≡ p - start =
      length-take (p - start) (drop start content) (omega (arith, h.0)) in
    (omega (arith, h.0), segments-AllIsNonempty content p ps inside h.1 later)

-- A new row continues the split chunk: the same unit, base, folder and level, and as much hidden from
-- retrieval.
pub record IsPieceOf {S : Type 0} (chunk c : Chunk S) : Type 0 where
  pub unit : (c.unit_type ≡ chunk.unit_type) × (c.unit_id ≡ chunk.unit_id)
  pub base : c.knowledge_base_id ≡ chunk.knowledge_base_id
  pub folder : c.folder_id ≡ chunk.folder_id
  pub level : c.level ≡ chunk.level
  pub excluded : c.review_excluded ≡ chunk.review_excluded

module _ {S : Type 0} (score_chunk : Text → S) where
  pieces-contents :
      (chunk : Chunk S) (edit : Edit) (i : ℕ) (ss : List Text)
      → map (λ c. c.content) (pieces score_chunk chunk edit i ss) ≡ ss
  unfolding pieces
  pieces-contents chunk edit i [] = refl
  pieces-contents chunk edit i (s ∷ ss) = ap (λ l. s ∷ l) (pieces-contents chunk edit (i + 1) ss)

  pieces-previewed :
      (chunk : Chunk S) (edit : Edit) (i : ℕ) (ss : List Text)
      → map {B = Text × ℕ} (λ c. (c.content, c.token_count)) (pieces score_chunk chunk edit i ss)
        ≡ map (λ s. (s, token_count_of s)) ss
  unfolding pieces
  pieces-previewed chunk edit i [] = refl
  pieces-previewed chunk edit i (s ∷ ss) =
      ap (λ l. (s, token_count_of s) ∷ l) (pieces-previewed chunk edit (i + 1) ss)

  pieces-AllIsPieceOf :
      (chunk : Chunk S) (edit : Edit) (i : ℕ) (ss : List Text)
      → All (IsPieceOf chunk) (pieces score_chunk chunk edit i ss)
  unfolding pieces
  pieces-AllIsPieceOf chunk edit i [] = tt
  pieces-AllIsPieceOf chunk edit i (s ∷ ss) = (
    record { unit = (refl, refl); base = refl; folder = refl; level = refl; excluded = refl },
    pieces-AllIsPieceOf chunk edit (i + 1) ss,
  )

  segments_whole :
      (content : Text) (ps : List ℕ)
      → IsAscending ps
      → are_invalid content ps ≡ false
      → (concat (segments content 0 ps) ≡ content) × All IsNonempty (segments content 0 ps)
  segments_whole content [] h valid = absurd (ground arith)
  segments_whole content (p ∷ ps) h valid =
      let first : 0 < p = ground arith in
      let some_text : 0 < length content = ground arith in
      (
        concat-segments content 0 (p ∷ ps) (first, h),
        segments-AllIsNonempty content 0 (p ∷ ps) some_text (first, h) valid,
      )

  get-found :
      (k : ℕ) (db : Db S) (c : Chunk S) → get_chunk k db ≡ ok c → lookup k db.chunks ≡ some c
  unfolding get_chunk
  get-found k db c h = ground arith

  -- A split that returns loses nothing: the contents of the new rows one after the other are the
  -- content of the chunk, none of them is empty, each row keeps the unit, the base, the folder, the
  -- level and the exclusion of the chunk, and the preview of the same positions shows these contents
  -- with these counts.
  pub split_chunk_exact :
      (fresh : List ℕ) (chunk_id : ℕ) (split_positions : List ℕ) (by : Editor) (db db' : Db S)
      (cs : List (Chunk S))
      → split_chunk score_chunk fresh chunk_id split_positions by db ≡ ok (cs, db')
      → (chunk : Chunk S) × (lookup chunk_id db.chunks ≡ some chunk)
        × (concat (map (λ c. c.content) cs) ≡ chunk.content)
        × All IsNonempty (map (λ c. c.content) cs)
        × All (IsPieceOf chunk) cs
        × (preview_split chunk_id split_positions db
            ≡ ok (map (λ c. (c.content, c.token_count)) cs))
  unfolding split_chunk preview_split
  split_chunk_exact fresh chunk_id split_positions by db db' cs e =
      let (chunk, got, last) = bind_ok (get_chunk chunk_id db) _ (cs, db') e in
      let positions = sorted_set split_positions in
      let ss = segments chunk.content 0 positions in
      let rows = pieces score_chunk chunk (split_edit chunk_id by) 0 ss in
      elim (Bool-cases (are_invalid chunk.content positions)) [
        | inl invalid ↦ absurd (err-ne-ok (simp invalid at last))
        | inr valid ↦
            let h : ok
                  (rows, record db { chunks = delete_row chunk_id (add_all fresh rows db.chunks) })
                ≡ ok (cs, db') =
              simp valid at last in
            let made : rows ≡ cs = ap (λ p. p.0) (ok-injective h) in
            let (whole, filled) =
              segments_whole chunk.content positions (sorted_set-IsAscending split_positions)
                valid in
            let contents = pieces-contents chunk (split_edit chunk_id by) 0 ss in
            let shown : preview_split chunk_id split_positions db
                ≡ ok (map (λ s. (s, token_count_of s)) ss) =
              bind_step (get_chunk chunk_id db) _ chunk got ∙ simp valid refl in
            subst
              (λ l.
                (x : Chunk S) × (lookup chunk_id db.chunks ≡ some x)
                × (concat (map (λ c. c.content) l) ≡ x.content)
                × All IsNonempty (map (λ c. c.content) l)
                × All (IsPieceOf x) l
                × (preview_split chunk_id split_positions db
                    ≡ ok (map (λ c. (c.content, c.token_count)) l)))
              made
              (
                chunk,
                get-found chunk_id db chunk got,
                ap concat contents ∙ whole,
                subst (All IsNonempty) (sym contents) filled,
                pieces-AllIsPieceOf chunk (split_edit chunk_id by) 0 ss,
                shown ∙ ap ok (sym (pieces-previewed chunk (split_edit chunk_id by) 0 ss)),
              )
      ]

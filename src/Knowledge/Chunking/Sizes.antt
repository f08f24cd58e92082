-- ===== src/Knowledge/Chunking/Sizes.antt =====
-- The lengths of the chunks of app/knowledge/chunking/recursive.py.
use ops_knowledge.Prelude.{
  ℕ, zero, suc, ◌+◌, ◌≤◌, ◌<◌, ◌≡◌, refl, ap, false, leb, ltb, if◌then◌else◌, Option, none, some,
  List, [], ◌∷◌, ◌++◌, length, drop, take_last, All, All-append, All-map, length-append,
  length-take-le, length-drop, length-take_last-le, take-append-drop, arith, Bool-cases, inl, inr,
}
use ops_knowledge.Prelude.Texts.{Text}
use ops_knowledge.Knowledge.Chunking.{
  ChunkResult, Config, slices, force_split, flush, extend, appended, both, merge, split_recursive,
  overlapped, apply_overlap, with_delimiter, is_blank, results, or_default, chunk, split,
}

-- The pieces are given, and none is longer than `size`.
abbrev pub Fits : ℕ → Option (List Text) → Type 0
Fits size none = ⊥
Fits size (some ps) = All (λ p. length p ≤ size) ps

slices-Fits : (fuel size : ℕ) (t : Text) → All (λ p. length p ≤ size) (slices fuel size t)
unfolding slices
slices-Fits fuel size [] = tt
slices-Fits zero size (c ∷ t) = tt
slices-Fits (suc fuel) size (c ∷ t) =
    (length-take-le size (c ∷ t), slices-Fits fuel size (drop size (c ∷ t)))

-- The slices of a text, one after another, are the text.
abbrev pub flat : List Text → Text
flat [] = []
flat (p ∷ ps) = p ++ flat ps

pub slices-flat : (fuel n : ℕ) (t : Text) → length t ≤ fuel → flat (slices fuel (suc n) t) ≡ t
unfolding slices
slices-flat fuel n [] h = refl
slices-flat zero n (c ∷ t) h = absurd (omega arith)
slices-flat (suc fuel) n (c ∷ t) h =
    rw (slices-flat fuel n (drop n t) (omega (arith, length-drop n t)))
      (ap (λ s. c ∷ s) (take-append-drop n t))

flush-Fits : (size : ℕ) (t : Text) → length t ≤ size → All (λ p. length p ≤ size) (flush t)
flush-Fits size [] h = tt
flush-Fits size (c ∷ t) h = (h, tt)

appended-Fits :
    (size : ℕ) (xs : List Text) (o : Option (List Text))
    → All (λ p. length p ≤ size) xs
    → Fits size o
    → Fits size (appended xs o)
appended-Fits size xs none h k = k
appended-Fits size xs (some ys) h k = All-append _ xs ys h k

both-Fits : (size : ℕ) (o r : Option (List Text)) → Fits size o → Fits size r → Fits size (both o r)
both-Fits size none r h k = absurd h
both-Fits size (some xs) r h k = appended-Fits size xs r h k

merge-Fits :
    (deeper : Text → Option (List Text)) (size : ℕ) (sep current : Text) (parts : List Text)
    → ((t : Text) → Fits size (deeper t))
    → length current ≤ size
    → Fits size (merge deeper size sep current parts)
unfolding merge
merge-Fits deeper size sep current [] fits h = flush-Fits size current h
merge-Fits deeper size sep current (part ∷ parts) fits h =
    elim (Bool-cases (leb (length (extend current sep part)) size)) [
      | inl small ↦
          rw small (merge-Fits deeper size sep (extend current sep part) parts fits (ground arith))
      | inr large ↦ elim (Bool-cases (ltb size (length part))) [
        | inl long ↦
            rw (large, long)
              (appended-Fits size (flush current) _ (flush-Fits size current h) (
                both-Fits size (deeper part) _ (fits part)
                  (merge-Fits deeper size sep [] parts fits (omega arith))))
        | inr short ↦
            rw (large, short)
              (appended-Fits size (flush current) _ (flush-Fits size current h)
                (merge-Fits deeper size sep part parts fits (ground arith)))
      ]
    ]

force_split-Fits : (n : ℕ) (t : Text) → Fits (suc n) (force_split (suc n) t)
unfolding force_split
force_split-Fits n t = slices-Fits (length t) (suc n) t

whole-Fits :
    (size : ℕ) (t : Text) (rest : Option (List Text))
    → Fits size rest
    → Fits size (if leb (length t) size then some (t ∷ []) else rest)
whole-Fits size t rest h = elim (Bool-cases (leb (length t) size)) [
  | inl small ↦ rw small (ground arith, tt)
  | inr large ↦ rw large h
]

-- For a chunk size that is not 0, the recursive split gives pieces, and none is longer than the
-- chunk size, whatever the separators are.
pub split_recursive-Fits :
    (seps : List Text) (n : ℕ) (t : Text) → Fits (suc n) (split_recursive seps (suc n) t)
unfolding split_recursive
split_recursive-Fits [] n t = whole-Fits (suc n) t _ (force_split-Fits n t)
split_recursive-Fits ([] ∷ seps) n t = whole-Fits (suc n) t _ (force_split-Fits n t)
split_recursive-Fits ((c ∷ sep) ∷ seps) n t = whole-Fits (suc n) t _ (
    merge-Fits (split_recursive seps (suc n)) (suc n) (c ∷ sep) [] (split t (c ∷ sep))
      (split_recursive-Fits seps n) (omega arith))

overlapped-le :
    (size overlap : ℕ) (previous : Text) (ps : List Text)
    → All (λ p. length p ≤ size) ps
    → All (λ p. length p ≤ size + overlap) (overlapped overlap previous ps)
unfolding overlapped
overlapped-le size overlap previous [] h = tt
overlapped-le size overlap previous (p ∷ ps) h = (
  omega (
    arith,
    length-append (take_last overlap previous) p,
    length-take_last-le overlap previous,
    h.0,
  ),
  overlapped-le size overlap p ps h.1,
)

apply_overlap-le :
    (size overlap : ℕ) (ps : List Text)
    → All (λ p. length p ≤ size) ps
    → All (λ p. length p ≤ size + overlap) (apply_overlap ps overlap)
unfolding apply_overlap
apply_overlap-le size overlap [] h = tt
apply_overlap-le size zero (p ∷ ps) h =
    All-map (λ q. length q ≤ size) (λ q. length q ≤ size + 0) (p ∷ ps) (λ q k. omega (arith, k)) h
apply_overlap-le size (suc n) (p ∷ ps) h = (omega (arith, h.0), overlapped-le size (suc n) p ps h.1)

results-le :
    (bound i : ℕ) (ps : List Text)
    → All (λ p. length p ≤ bound) ps
    → All (λ r. length r.content ≤ bound) (results i ps)
results-le bound i [] h = tt
results-le bound i (p ∷ ps) h = elim (Bool-cases (is_blank p)) [
  | inl blank ↦ rw (blank, results) (results-le bound (suc i) ps h.1)
  | inr kept ↦ rw (kept, results) (h.0, results-le bound (suc i) ps h.1)
]

-- For a chunk size that is not 0 (500 where none is configured), the strategy does not fail on any
-- text: it returns a list of chunks, which may be empty, and no chunk in it is longer than the chunk
-- size and the overlap together.
pub chunk-le :
    (text : Text) (config : Config)
    → 0 < or_default 500 config.chunk_size
    → (rs : List ChunkResult) × (chunk text config ≡ some rs)
      × All
          (λ r.
            length r.content
            ≤ or_default 500 config.chunk_size + or_default 50 config.chunk_overlap)
          rs
unfolding chunk
chunk-le text config positive = elim (Bool-cases (is_blank text)) [
  | inl blank ↦ ([], rw (blank, chunk) refl, tt)
  | inr full ↦ go (or_default 500 config.chunk_size) refl positive full
]
  where
    seps : List Text
    seps = with_delimiter config.delimiter

    overlap : ℕ
    overlap = or_default 50 config.chunk_overlap

    go :
        (size : ℕ)
        → or_default 500 config.chunk_size ≡ size
        → 0 < size
        → is_blank text ≡ false
        → (rs : List ChunkResult) × (chunk text config ≡ some rs)
          × All (λ r. length r.content ≤ size + overlap) rs
    go zero e pos full = absurd (omega (arith, pos))
    go (suc n) e pos full =
        found (split_recursive seps (suc n) text) refl (split_recursive-Fits seps n text)
      where
        found :
            (o : Option (List Text))
            → split_recursive seps (suc n) text ≡ o
            → Fits (suc n) o
            → (rs : List ChunkResult) × (chunk text config ≡ some rs)
              × All (λ r. length r.content ≤ suc n + overlap) rs
        found none s fits = absurd fits
        found (some ps) s fits = (
          results 0 (apply_overlap ps overlap),
          rw (full, e, s, chunk) refl,
          results-le (suc n + overlap) 0 (apply_overlap ps overlap)
              (apply_overlap-le (suc n) overlap ps fits),
        )

-- ===== src/Knowledge/Chunking/Content.antt =====
-- What the pieces hold of a text that app/knowledge/chunking/recursive.py splits.
use mathlib.Core.List.{append_assoc, append-nil}
use ops_knowledge.Prelude.{
  ℕ, zero, suc, ◌-◌, ◌≡◌, refl, sym, ap, subst, ◌∙◌, Bool, true, false, leb, ltb, if◌then◌else◌,
  Option, none, some, List, [], ◌∷◌, ◌++◌, length, drop, keep, All, arith, Bool-cases, inl, inr,
}
use ops_knowledge.Prelude.Texts.{Text, starts_with}
use ops_knowledge.Knowledge.Chunking.{
  force_split, flush, extend, appended, both, merge, split_recursive, split, split_from,
}
use ops_knowledge.Knowledge.Chunking.Sizes.{flat, slices-flat}

module _ (p : ℕ → Bool) where
  keep-append : (s t : Text) → keep p (s ++ t) ≡ keep p s ++ keep p t
  keep-append [] t = refl
  keep-append (c ∷ s) t = ground (arith, keep-append s t)

  flat-append :
      (xs ys : List Text) → keep p (flat (xs ++ ys)) ≡ keep p (flat xs) ++ keep p (flat ys)
  flat-append [] ys = refl
  flat-append (x ∷ xs) ys =
      rw
        (
          keep-append x (flat (xs ++ ys)),
          flat-append xs ys,
          keep-append x (flat xs),
          append_assoc (keep p x) (keep p (flat xs)) (keep p (flat ys)),
        )
        refl

  drop-nil : (n : ℕ) → drop {A = ℕ} n [] ≡ []
  drop-nil zero = refl
  drop-nil (suc n) = refl

  -- Past a separator that stands at the head, only the rest is left of what `p` keeps.
  past_separator :
      (sep t : Text)
      → starts_with t sep ≡ true
      → keep p sep ≡ []
      → keep p (drop (length sep) t) ≡ keep p t
  unfolding starts_with
  past_separator [] t h k = refl
  past_separator (b ∷ sep) [] h k = refl
  past_separator (b ∷ sep) (c ∷ t) h k =
      let deeper : starts_with t sep ≡ true = ground arith in
      let same : c ≡ b = ground arith in
      let dropped : p b ≡ false = ground arith in
      let rest : keep p sep ≡ [] = ground arith in
      rw (same, dropped) (past_separator sep t deeper rest)

  -- The parts of a split hold what stood outside the separators.
  split_from-keep :
      (b : ℕ) (sep : Text) (skip : ℕ) (acc t : Text)
      → keep p (b ∷ sep) ≡ []
      → keep p (flat (split_from (b ∷ sep) skip acc t)) ≡ keep p acc ++ keep p (drop skip t)
  unfolding split_from
  split_from-keep b sep skip acc [] none_kept =
      keep-append acc [] ∙ ap (λ s. keep p acc ++ keep p s) (sym (drop-nil skip))
  split_from-keep b sep (suc skip) acc (c ∷ t) none_kept =
      split_from-keep b sep skip acc t none_kept
  split_from-keep b sep zero acc (c ∷ t) none_kept =
      elim (Bool-cases (starts_with (c ∷ t) (b ∷ sep))) [
        | inl found ↦
            let k : suc (length sep) - 1 ≡ length sep = omega arith in
            let rest =
              split_from-keep b sep (suc (length sep) - 1) [] t none_kept
              ∙ ap (λ n. keep p (drop n t)) k
              ∙ past_separator (b ∷ sep) (c ∷ t) found none_kept in
            rw found (
              keep-append acc (flat (split_from (b ∷ sep) (suc (length sep) - 1) [] t))
              ∙ ap (λ s. keep p acc ++ s) rest)
        | inr other ↦ rw other (
            split_from-keep b sep zero (acc ++ c ∷ []) t none_kept
            ∙ ap (λ s. s ++ keep p t) (keep-append acc (c ∷ []))
            ∙ append_assoc (keep p acc) (keep p (c ∷ [])) (keep p t)
            ∙ ap (λ s. keep p acc ++ s) (sym (keep-append (c ∷ []) t)))
      ]

  split-keep :
      (b : ℕ) (sep t : Text) → keep p (b ∷ sep) ≡ [] → keep p (flat (split t (b ∷ sep))) ≡ keep p t
  unfolding split
  split-keep b sep t none_kept = split_from-keep b sep 0 [] t none_kept

  -- The pieces, where they are given, hold what `p` keeps of a text.
  abbrev pub Keeps : Text → Option (List Text) → Type 0
  Keeps kept none = Unit
  Keeps kept (some ps) = keep p (flat ps) ≡ kept

  appended-Keeps :
      (xs : List Text) (kept : Text) (o : Option (List Text))
      → Keeps kept o
      → Keeps (keep p (flat xs) ++ kept) (appended xs o)
  appended-Keeps xs kept none h = tt
  appended-Keeps xs kept (some ys) h = flat-append xs ys ∙ ap (λ s. keep p (flat xs) ++ s) h

  both-Keeps :
      (s t : Text) (o r : Option (List Text)) → Keeps s o → Keeps t r → Keeps (s ++ t) (both o r)
  both-Keeps s t none r h k = tt
  both-Keeps s t (some xs) r h k =
      subst (λ u. Keeps (u ++ t) (appended xs r)) h (appended-Keeps xs t r k)

  flush-keep : (t : Text) → keep p (flat (flush t)) ≡ keep p t
  flush-keep [] = refl
  flush-keep (c ∷ t) = ap (keep p) (append-nil (c ∷ t))

  extend-keep :
      (current sep part : Text)
      → keep p sep ≡ []
      → keep p (extend current sep part) ≡ keep p current ++ keep p part
  extend-keep [] sep part none_kept = refl
  extend-keep (c ∷ t) sep part none_kept =
      keep-append ((c ∷ t) ++ sep) part
      ∙ ap (λ s. s ++ keep p part)
          (keep-append (c ∷ t) sep
            ∙ ap (λ s. keep p (c ∷ t) ++ s) none_kept
            ∙ append-nil (keep p (c ∷ t)))

  merge-Keeps :
      (deeper : Text → Option (List Text)) (size : ℕ) (sep current : Text) (parts : List Text)
      → ((t : Text) → Keeps (keep p t) (deeper t))
      → keep p sep ≡ []
      → Keeps (keep p current ++ keep p (flat parts)) (merge deeper size sep current parts)
  unfolding merge
  merge-Keeps deeper size sep current [] keeps none_kept =
      flush-keep current ∙ sym (append-nil (keep p current))
  merge-Keeps deeper size sep current (part ∷ parts) keeps none_kept =
      elim (Bool-cases (leb (length (extend current sep part)) size)) [
        | inl small ↦ rw small (
            subst (λ s. Keeps s (merge deeper size sep (extend current sep part) parts))
              (ap (λ s. s ++ keep p (flat parts)) (extend-keep current sep part none_kept)
                ∙ regroup)
              (merge-Keeps deeper size sep (extend current sep part) parts keeps none_kept))
        | inr large ↦ elim (Bool-cases (ltb size (length part))) [
          | inl long ↦
              rw (large, long)
                (flushed (both (deeper part) (merge deeper size sep [] parts)) (
                  both-Keeps (keep p part) (keep p (flat parts)) (deeper part) _ (keeps part)
                    (merge-Keeps deeper size sep [] parts keeps none_kept)))
          | inr short ↦
              rw (large, short)
                (flushed (merge deeper size sep part parts)
                  (merge-Keeps deeper size sep part parts keeps none_kept))
        ]
      ]
    where
      regroup :
          (keep p current ++ keep p part) ++ keep p (flat parts)
          ≡ keep p current ++ keep p (part ++ flat parts)
      regroup =
          append_assoc (keep p current) (keep p part) (keep p (flat parts))
          ∙ ap (λ s. keep p current ++ s) (sym (keep-append part (flat parts)))

      flushed :
          (o : Option (List Text))
          → Keeps (keep p part ++ keep p (flat parts)) o
          → Keeps (keep p current ++ keep p (part ++ flat parts)) (appended (flush current) o)
      flushed o h =
          subst (λ s. Keeps s (appended (flush current) o))
            (ap (λ s. s ++ (keep p part ++ keep p (flat parts))) (flush-keep current)
              ∙ ap (λ s. keep p current ++ s) (sym (keep-append part (flat parts))))
            (appended-Keeps (flush current) (keep p part ++ keep p (flat parts)) o h)

  force_split-Keeps : (n : ℕ) (t : Text) → Keeps (keep p t) (force_split n t)
  unfolding force_split
  force_split-Keeps zero t = tt
  force_split-Keeps (suc n) t = ap (keep p) (slices-flat (length t) n t (omega arith))

  whole-Keeps :
      (size : ℕ) (t : Text) (rest : Option (List Text))
      → Keeps (keep p t) rest
      → Keeps (keep p t) (if leb (length t) size then some (t ∷ []) else rest)
  whole-Keeps size t rest h = elim (Bool-cases (leb (length t) size)) [
    | inl small ↦ rw small (ap (keep p) (append-nil t))
    | inr large ↦ rw large h
  ]

  -- The recursive split loses nothing but characters of the separators: where `p` holds of no
  -- character of a separator, the characters of the text for which it holds stand in the pieces, one
  -- piece after another, in the order of the text and as often as there, for every chunk size at
  -- which there are pieces.
  pub split_recursive-Keeps :
      (seps : List Text) (size : ℕ) (t : Text)
      → All (λ sep. keep p sep ≡ []) seps
      → Keeps (keep p t) (split_recursive seps size t)
  unfolding split_recursive
  split_recursive-Keeps [] size t none_kept = whole-Keeps size t _ (force_split-Keeps size t)
  split_recursive-Keeps ([] ∷ seps) size t none_kept =
      whole-Keeps size t _ (force_split-Keeps size t)
  split_recursive-Keeps ((b ∷ sep) ∷ seps) size t none_kept = whole-Keeps size t _ (
      subst (λ s. Keeps s (merge (split_recursive seps size) size (b ∷ sep) [] (split t (b ∷ sep))))
        (split-keep b sep t none_kept.0)
        (merge-Keeps (split_recursive seps size) size (b ∷ sep) [] (split t (b ∷ sep))
          (λ u. split_recursive-Keeps seps size u none_kept.1) none_kept.0))

-- ===== src/Agent/Matchers/Keywords.antt =====
-- When a keyword rule fires (app/agent/orchestrator/matchers/keyword.py).
use mathlib.Core.Bool.{false≢true}
use ops_knowledge.Prelude.{
  subst, ◌≡◌, ◌≢◌, ◌↔◌, refl, sym, ap, ◌∙◌, Bool, true, List, [], ◌∷◌, ◌++◌, keep, In, inl, inr,
  arith, Bool-cases,
}
use ops_knowledge.Prelude.Texts.{Text, starts_with}
use ops_knowledge.Agent.Matchers.{
  KeywordConfig, contains, folded, is_hit, is_nonempty, match_keyword,
}

-- `probe` stands somewhere in a text.
abbrev pub Occurs : Text → Text → Type 0
Occurs probe t = (before after : Text) × (before ++ (probe ++ after) ≡ t)

starts_at : (t probe : Text) → starts_with t probe ≡ true → (after : Text) × (probe ++ after ≡ t)
unfolding starts_with
starts_at t [] h = (t, refl)
starts_at [] (b ∷ probe) h = absurd (ground arith)
starts_at (c ∷ t) (b ∷ probe) h =
    let (after, e) = starts_at t probe (ground arith) in
    let same : b ≡ c = ground arith in (after, rw same (ap (λ s. c ∷ s) e))

starts_of : (probe after : Text) → starts_with (probe ++ after) probe ≡ true
unfolding starts_with
starts_of [] after = refl
starts_of (b ∷ probe) after = ground (arith, starts_of probe after)

contains-Occurs : (t probe : Text) → contains t probe ≡ true → Occurs probe t
unfolding contains
contains-Occurs [] probe h = let (after, e) = starts_at [] probe h in ([], after, e)
contains-Occurs (c ∷ t) probe h = elim (Bool-cases (starts_with (c ∷ t) probe)) [
  | inl here ↦ let (after, e) = starts_at (c ∷ t) probe here in ([], after, e)
  | inr later ↦
      let (before, after, e) = contains-Occurs t probe (rw later at h) in
      (c ∷ before, after, ap (λ s. c ∷ s) e)
]

contains_start : (t probe : Text) → starts_with t probe ≡ true → contains t probe ≡ true
unfolding contains
contains_start [] probe h = h
contains_start (c ∷ t) probe h = rw h refl

Occurs-contains : (t probe : Text) → Occurs probe t → contains t probe ≡ true
unfolding contains
Occurs-contains t probe (before, after, e) = rw (← e) (found before)
  where
    found : (s : Text) → contains (s ++ (probe ++ after)) probe ≡ true
    found [] = contains_start (probe ++ after) probe (starts_of probe after)
    found (c ∷ s) = ground (arith, found s)

-- The keyword is not empty, and stands in the message, both folded unless case matters.
abbrev pub IsHit : (Text → Text) → KeywordConfig → Text → Text → Type 0
IsHit casefold config message kw =
    (folded casefold config kw ≢ [])
    × Occurs (folded casefold config kw) (folded casefold config message)

is_hit_exact :
    (casefold : Text → Text) (config : KeywordConfig) (message kw : Text)
    → (is_hit casefold config message kw ≡ true) ↔ IsHit casefold config message kw
is_hit_exact casefold config message kw = go (folded casefold config kw) refl
  where
    go :
        (probe : Text)
        → folded casefold config kw ≡ probe
        → (is_hit casefold config message kw ≡ true) ↔ IsHit casefold config message kw
    go [] e = (λ h. absurd (false≢true (rw (e, is_hit) at h)), λ h. absurd (h.0 e))
    go (c ∷ probe) e = (
      λ h.
          let inside : contains (folded casefold config message) (c ∷ probe) ≡ true =
            rw (e, is_hit) at h in
          (
            λ empty. absurd (ground arith),
            rw e (contains-Occurs (folded casefold config message) (c ∷ probe) inside),
          ),
      λ h.
          let there : Occurs (c ∷ probe) (folded casefold config message) =
            subst (λ p. Occurs p (folded casefold config message)) e h.1 in
          rw (e, is_hit) (Occurs-contains (folded casefold config message) (c ∷ probe) there),
    )

In-keep :
    (p : Text → Bool) (kw : Text) (ks : List Text) → In kw (keep p ks) → In kw ks × (p kw ≡ true)
In-keep p kw [] i = absurd i
In-keep p kw (k ∷ ks) i = elim (Bool-cases (p k)) [
  | inl kept ↦ elim (rw kept at i) [
    | inl same ↦ (inl same, ap p same ∙ kept)
    | inr later ↦ let (m, h) = In-keep p kw ks later in (inr m, h)
  ]
  | inr dropped ↦ let (m, h) = In-keep p kw ks (rw dropped at i) in (inr m, h)
]

keep-In :
    (p : Text → Bool) (kw : Text) (ks : List Text) → In kw ks → p kw ≡ true → In kw (keep p ks)
keep-In p kw [] i h = i
keep-In p kw (k ∷ ks) i h = elim (Bool-cases (p k)) [
  | inl kept ↦ rw kept (elim i [ inl same ↦ inl same | inr later ↦ inr (keep-In p kw ks later h) ])
  | inr dropped ↦ rw dropped (elim i [
    | inl same ↦ absurd (false≢true (sym dropped ∙ ap p (sym same) ∙ h))
    | inr later ↦ keep-In p kw ks later h
  ])
]

-- The hits of a keyword rule are exactly its keywords that are not empty and occur in the message
-- (both folded, unless the rule is case sensitive), and the rule matches exactly if there is one.
pub match_keyword_exact :
    (casefold : Text → Text) (config : KeywordConfig) (message : Text)
    → ((kw : Text)
        → In kw (match_keyword casefold config message).hits
          ↔ (In kw config.any_of × IsHit casefold config message kw))
      × (((match_keyword casefold config message).matched ≡ true)
          ↔ ((kw : Text) × In kw config.any_of × IsHit casefold config message kw))
unfolding match_keyword
match_keyword_exact casefold config message =
    (listed, nonempty (keep (is_hit casefold config message) config.any_of) listed)
  where
    listed :
        (kw : Text)
        → In kw (keep (is_hit casefold config message) config.any_of)
          ↔ (In kw config.any_of × IsHit casefold config message kw)
    listed kw = (
      λ i.
          let (m, h) = In-keep (is_hit casefold config message) kw config.any_of i in
          (m, (is_hit_exact casefold config message kw).0 h),
      λ h.
          keep-In (is_hit casefold config message) kw config.any_of h.0
            ((is_hit_exact casefold config message kw).1 h.1),
    )

    nonempty :
        (hs : List Text)
        → ((kw : Text) → In kw hs ↔ (In kw config.any_of × IsHit casefold config message kw))
        → (is_nonempty hs ≡ true)
          ↔ ((kw : Text) × In kw config.any_of × IsHit casefold config message kw)
    nonempty [] all_hits =
        (λ h. absurd (false≢true h), λ h. let (kw, m, hit) = h in absurd ((all_hits kw).1 (m, hit)))
    nonempty (k ∷ hs) all_hits =
        (λ h. let (m, hit) = (all_hits k).0 (inl refl) in (k, m, hit), λ h. refl)

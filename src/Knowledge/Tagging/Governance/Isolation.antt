-- ===== src/Knowledge/Tagging/Governance/Isolation.antt =====
-- The rows that the methods of app/knowledge/tagging/service.py write, and their bases.
use mathlib.Core.Option.{none-ne-some, some-injective}
use ops_knowledge.Prelude.{
  ℕ, ◌≡◌, inl, inr, refl, sym, ap, subst, ◌∙◌, true, false, ◌==◌, Option, none, some, List, [], ◌∷◌,
  arith, Bool-cases, mem, take,
}
use ops_knowledge.Prelude.Dict.{Dict, lookup, insert, lookup-insert}
use ops_knowledge.Prelude.Results.{ok, bind_ok, err-ne-ok, ok-injective}
use ops_knowledge.Prelude.Texts.{Text, strip}
use ops_knowledge.Knowledge.Tagging.{TagDictionary}
use ops_knowledge.Knowledge.Tagging.Governance.{
  Db, GovernanceError, entry_or, entry_not_found, target_not_found, has_none, is_taken,
  check_sources, sources_of, deprecate_all, merge, create, set_aliases, rename, soft_delete,
}
use ops_knowledge.Knowledge.Tagging.Governance.Renaming.{insert-lookup, rename_writes}

-- The rows of other bases are in the table as before.
abbrev pub IsIsolated : ℕ → Dict TagDictionary → Dict TagDictionary → Type 0
IsIsolated kb_id d d' =
    (j : ℕ) (r : TagDictionary)
    → lookup j d ≡ some r
    → (r.kb_id == kb_id) ≡ false
    → lookup j d' ≡ some r

true-ne-false : ¬ (true ≡ false)
true-ne-false h = absurd (ground arith)

-- Rows of different bases have different identifiers.
other_key :
    (kb_id t j : ℕ) (before r : TagDictionary) (d : Dict TagDictionary)
    → lookup t d ≡ some before
    → (before.kb_id == kb_id) ≡ true
    → lookup j d ≡ some r
    → (r.kb_id == kb_id) ≡ false
    → (j == t) ≡ false
other_key kb_id t j before r d found own h other = elim (Bool-cases (j == t)) [
  | inl here ↦
      let same : j ≡ t = ground arith in
      let row_of : before ≡ r =
        some-injective before r (sym found ∙ ap (λ i. lookup i d) (sym same) ∙ h) in
      absurd (true-ne-false (sym own ∙ ap (λ q. q.kb_id == kb_id) row_of ∙ other))
  | inr there ↦ there
]

insert-IsIsolated :
    (kb_id t : ℕ) (before row : TagDictionary) (d : Dict TagDictionary)
    → lookup t d ≡ some before
    → (before.kb_id == kb_id) ≡ true
    → IsIsolated kb_id d (insert t row d)
insert-IsIsolated kb_id t before row d found own j r h other =
    lookup-insert t j row d ∙ rw (other_key kb_id t j before r d found own h other) h

fresh-IsIsolated :
    (kb_id t : ℕ) (row : TagDictionary) (d : Dict TagDictionary)
    → lookup t d ≡ none
    → IsIsolated kb_id d (insert t row d)
fresh-IsIsolated kb_id t row d fresh j r h other = elim (Bool-cases (j == t)) [
  | inl here ↦
      let same : j ≡ t = ground arith in
      absurd (none-ne-some r (sym fresh ∙ ap (λ i. lookup i d) (sym same) ∙ h))
  | inr there ↦ lookup-insert t j row d ∙ rw there h
]

checked_source :
    (t : ℕ) (target : TagDictionary) (i : ℕ) (s : TagDictionary) (sources : Dict TagDictionary)
    → check_sources t target ((i, s) ∷ sources) ≡ ok tt
    → ((s.kb_id == target.kb_id) ≡ true) × (check_sources t target sources ≡ ok tt)
unfolding check_sources
checked_source t target i s sources h = elim (Bool-cases (s.kb_id == target.kb_id)) [
  | inl same ↦ elim (Bool-cases (i == t)) [
    | inl itself ↦ absurd (err-ne-ok (simp (same, itself) at h))
    | inr other ↦ (same, simp (same, other) at h)
  ]
  | inr differ ↦ absurd (err-ne-ok (simp differ at h))
]

-- Sources that pass the check are of the target's base.
deprecate_all-IsIsolated :
    (t : ℕ) (target : TagDictionary) (ids : List ℕ) (d : Dict TagDictionary)
    → check_sources t target (sources_of ids d) ≡ ok tt
    → IsIsolated target.kb_id d (deprecate_all ids d)
unfolding deprecate_all check_sources
deprecate_all-IsIsolated t target ids [] passed j r h other = h
deprecate_all-IsIsolated t target ids ((i, s) ∷ d) passed j r h other =
    elim (Bool-cases (mem i ids)) [
      | inl named ↦
          let checked = checked_source t target i s (sources_of ids d) (simp named at passed) in
          let rest = deprecate_all-IsIsolated t target ids d checked.1 j r in
          elim (Bool-cases (j == i)) [
            | inl here ↦ absurd (
                true-ne-false (
                  sym checked.0
                  ∙ ap (λ q. q.kb_id == target.kb_id) (some-injective s r (simp here at h))
                  ∙ other))
            | inr there ↦ rw there (rest (simp there at h) other)
          ]
      | inr stays ↦
          let rest = deprecate_all-IsIsolated t target ids d (simp stays at passed) j r in
          elim (Bool-cases (j == i)) [
            | inl here ↦ rw (here, stays) (simp here at h)
            | inr there ↦ rw there (rest (simp there at h) other)
          ]
    ]

-- What the writing of one row does: the row keeps its base, and only it is written.
abbrev pub Writes : ℕ → Db → TagDictionary → Db → Type 0
Writes dict_id db row db' =
    (before : TagDictionary) × ((lookup dict_id db.dictionary ≡ some before)
      × (before.kb_id ≡ row.kb_id)
      × (db'.dictionary ≡ insert dict_id row db.dictionary))

pub Writes-IsIsolated :
    (kb_id dict_id : ℕ) (db : Db) (row : TagDictionary) (db' : Db)
    → Writes dict_id db row db'
    → (row.kb_id == kb_id) ≡ true
    → IsIsolated kb_id db.dictionary db'.dictionary
Writes-IsIsolated kb_id dict_id db row db' w own =
    rw w.1.2 (
      insert-IsIsolated kb_id dict_id w.0 row db.dictionary w.1.0
        (ap (λ i. i == kb_id) w.1.1 ∙ own))

entry_or-ok :
    (e : GovernanceError) (o : Option TagDictionary) (r : TagDictionary)
    → entry_or e o ≡ ok r
    → o ≡ some r
entry_or-ok e none r h = absurd (err-ne-ok h)
entry_or-ok e (some q) r h = ap some (ok-injective h)

pub set_aliases-Writes :
    (dict_id : ℕ) (aliases : List Text) (user : Option ℕ) (db : Db) (out : TagDictionary × Db)
    → set_aliases dict_id aliases user db ≡ ok out
    → Writes dict_id db out.0 out.1
unfolding set_aliases
set_aliases-Writes dict_id aliases user db out h =
    let found = bind_ok (entry_or entry_not_found (lookup dict_id db.dictionary)) _ out h in
    let known = entry_or-ok entry_not_found (lookup dict_id db.dictionary) found.0 found.1 in
    subst (λ o. Writes dict_id db o.0 o.1) (ok-injective found.2) (found.0, (known, refl, refl))

pub soft_delete-Writes :
    (dict_id : ℕ) (user : Option ℕ) (db : Db) (out : TagDictionary × Db)
    → soft_delete dict_id user db ≡ ok out
    → Writes dict_id db out.0 out.1
unfolding soft_delete
soft_delete-Writes dict_id user db out h =
    let found = bind_ok (entry_or entry_not_found (lookup dict_id db.dictionary)) _ out h in
    let known = entry_or-ok entry_not_found (lookup dict_id db.dictionary) found.0 found.1 in
    elim (Bool-cases found.0.is_deprecated) [
      | inl gone ↦
          subst (λ o. Writes dict_id db o.0 o.1) (ok-injective (simp gone at found.2))
            (found.0, (known, refl, sym (insert-lookup dict_id found.0 db.dictionary known)))
      | inr active ↦
          subst (λ o. Writes dict_id db o.0 o.1) (ok-injective (simp active at found.2))
            (found.0, (known, refl, refl))
    ]

pub rename-Writes :
    (dict_id : ℕ) (canonical : Text) (user : Option ℕ) (db : Db) (out : (TagDictionary × Text) × Db)
    → rename dict_id canonical user db ≡ ok out
    → Writes dict_id db out.0.0 out.1
unfolding rename
rename-Writes dict_id canonical user db out h =
    let found = bind_ok (entry_or entry_not_found (lookup dict_id db.dictionary)) _ out h in
    let known = entry_or-ok entry_not_found (lookup dict_id db.dictionary) found.0 found.1 in
    let written = rename_writes dict_id canonical user db found.0 out known h in
    let kept : found.0.kb_id ≡ out.0.0.kb_id = elim written.1 [
      | inl same ↦ sym (ap (λ r. r.kb_id) same)
      | inr same ↦ sym (ap (λ r. r.kb_id) same)
    ] in
    (found.0, (known, kept, written.0))

merged-IsIsolated :
    (t : ℕ) (target row : TagDictionary) (ids : List ℕ) (d : Dict TagDictionary)
    → lookup t d ≡ some target
    → check_sources t target (sources_of ids d) ≡ ok tt
    → IsIsolated target.kb_id d (insert t row (deprecate_all ids d))
merged-IsIsolated t target row ids d known passed j r h other =
    let same : (target.kb_id == target.kb_id) ≡ true = ground arith in
    lookup-insert t j row (deprecate_all ids d)
    ∙ rw (other_key target.kb_id t j target r d known same h other)
        (deprecate_all-IsIsolated t target ids d passed j r h other)

pub merge-IsIsolated :
    (source_ids : List ℕ) (target_id : ℕ) (user : Option ℕ) (db : Db)
    (out : (TagDictionary × List Text) × Db)
    → merge source_ids target_id user db ≡ ok out
    → IsIsolated out.0.0.kb_id db.dictionary out.1.dictionary
unfolding merge
merge-IsIsolated source_ids target_id user db out h =
    let found = bind_ok (entry_or target_not_found (lookup target_id db.dictionary)) _ out h in
    let known = entry_or-ok target_not_found (lookup target_id db.dictionary) found.0 found.1 in
    let sources = sources_of source_ids db.dictionary in
    elim (Bool-cases (has_none sources)) [
      | inl empty ↦
          subst (λ o. IsIsolated o.0.0.kb_id db.dictionary o.1.dictionary)
            (ok-injective (simp empty at found.2)) (λ j r e other. e)
      | inr some_found ↦
          let checked =
            bind_ok (check_sources target_id found.0 sources) _ out (simp some_found at found.2) in
          subst (λ o. IsIsolated o.0.0.kb_id db.dictionary o.1.dictionary) (ok-injective checked.2)
            (merged-IsIsolated target_id found.0 _ source_ids db.dictionary known checked.1)
    ]

pub create-IsIsolated :
    (fresh_id kb_id : ℕ) (canonical : Text) (aliases : Option (List Text)) (user : Option ℕ)
    (db : Db) (out : TagDictionary × Db)
    → lookup fresh_id db.dictionary ≡ none
    → create fresh_id kb_id canonical aliases user db ≡ ok out
    → IsIsolated kb_id db.dictionary out.1.dictionary
unfolding create
create-IsIsolated fresh_id kb_id canonical aliases user db out fresh h =
    elim (Bool-cases (is_taken fresh_id kb_id (take 64 (strip canonical)) db.dictionary)) [
      | inl taken ↦ absurd (err-ne-ok (simp taken at h))
      | inr free ↦
          subst (λ o. IsIsolated kb_id db.dictionary o.1.dictionary) (ok-injective (simp free at h))
            (fresh-IsIsolated kb_id fresh_id _ db.dictionary fresh)
    ]

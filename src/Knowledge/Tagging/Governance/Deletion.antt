-- ===== src/Knowledge/Tagging/Governance/Deletion.antt =====
-- The normalization of tags (app/knowledge/tagging/normalizer.py) after `soft_delete` of
-- app/knowledge/tagging/service.py.
use ops_knowledge.Prelude.{
  ℕ, ◌≡◌, inl, inr, refl, sym, ap, ◌∙◌, Bool, true, false, ◌==◌, if◌then◌else◌, Option, none, some,
  List, [], ◌∷◌, any, arith, Bool-cases, IsUnique, mem,
}
use ops_knowledge.Prelude.Dict.{Dict, lookup, insert, keys}
use ops_knowledge.Prelude.Results.{ok, err, bind_step, ok-injective}
use ops_knowledge.Prelude.Texts.{Text, text_eq_refl}
use ops_knowledge.Knowledge.Tagging.{
  TagDictionary, get, canonicalize_input, display_of, is_row, get_kb_dict_map, normalize_tags,
  duplicate_canonical,
}
use ops_knowledge.Knowledge.Tagging.Lookup.{known_tag_raises}
use ops_knowledge.Knowledge.Tagging.Governance.{Db, rows_of, entry_or, entry_not_found, soft_delete}
use ops_knowledge.Knowledge.Tagging.Governance.Claims.{
  claims, owner, load_dict_from_db_exact, is_claimed_by_another, owner-unclaimed,
}
use ops_knowledge.Knowledge.Tagging.Governance.Renaming.{insert-lookup}

-- A row that claims nothing leaves the text to the others.
owner-insert_gone :
    (lower : Text → Text) (kb_id : ℕ) (x : Text) (t : ℕ) (row : TagDictionary)
    (d : Dict TagDictionary) (known : Option Text)
    → IsUnique (keys d)
    → is_claimed_by_another lower kb_id x t d ≡ false
    → claims lower kb_id x row ≡ false
    → owner lower kb_id x (rows_of (insert t row d)) known ≡ known
owner-insert_gone lower kb_id x t row [] known unique free gone = rw gone refl
owner-insert_gone lower kb_id x t row ((j, r) ∷ d) known unique free gone =
    elim (Bool-cases (t == j)) [
      | inl here ↦
          let same : t ≡ j = ground arith in
          let fresh : mem t (keys d) ≡ false = rw same unique.0 in
          let undecided : ◌≡◌ {A = Option Text}
              (if claims lower kb_id x row then some row.canonical else known) known =
            rw gone refl in
          rw here (
            ap (owner lower kb_id x (rows_of d)) undecided
            ∙ owner-unclaimed lower kb_id x t d known fresh (ground arith))
      | inr there ↦
          let not_claimed : claims lower kb_id x r ≡ false = ground arith in
          let skipped : ◌≡◌ {A = Option Text}
              (if claims lower kb_id x r then some r.canonical else known) known =
            rw not_claimed refl in
          rw there (
            ap (owner lower kb_id x (rows_of (insert t row d))) skipped
            ∙ owner-insert_gone lower kb_id x t row d known unique.1 (ground arith) gone)
    ]

any-insert :
    (p : TagDictionary → Bool) (t : ℕ) (row : TagDictionary) (d : Dict TagDictionary)
    → p row ≡ true
    → any p (rows_of (insert t row d)) ≡ true
any-insert p t row [] h = ground arith
any-insert p t row ((j, r) ∷ d) h = ground (arith, any-insert p t row d)

-- The row as a deletion leaves it.
abbrev deprecated : TagDictionary → TagDictionary
deprecated row = record row { is_deprecated = true }

deleted_rows :
    (dict_id : ℕ) (actor_id : Option ℕ) (db : Db) (row : TagDictionary) (out : TagDictionary × Db)
    → lookup dict_id db.dictionary ≡ some row
    → soft_delete dict_id actor_id db ≡ ok out
    → out.1.dictionary ≡ insert dict_id (deprecated row) db.dictionary
unfolding soft_delete
deleted_rows dict_id actor_id db row out found h =
    let after = sym (bind_step _ _ row (ap (entry_or entry_not_found) found)) ∙ h in
    elim (Bool-cases row.is_deprecated) [
      | inl gone ↦
          let same = ok-injective (simp gone at after) in
          let as_it_was : row ≡ deprecated row = ap (λ b. record row { is_deprecated = b }) gone in
          ap (λ o. o.1.dictionary) (sym same)
          ∙ sym (insert-lookup dict_id (deprecated row) db.dictionary (found ∙ ap some as_it_was))
      | inr active ↦ sym (ap (λ o. o.1.dictionary) (ok-injective (simp active at after)))
    ]

-- After a tag was deleted, a normalization that may create tags and reads the mapping from the table
-- fails, with a violation of the unique constraint, if its first raw tag has a key and displays as
-- the deleted tag, where no other row of the base claims the key and the identifiers of the rows
-- are different.
pub deleted_tag_raises :
    (lower : Text → Text) (dict_id : ℕ) (actor_id user : Option ℕ) (db : Db) (row : TagDictionary)
    (out : TagDictionary × Db) (c : ℕ) (key raw : Text) (raws : List Text)
    → lookup dict_id db.dictionary ≡ some row
    → soft_delete dict_id actor_id db ≡ ok out
    → IsUnique (keys db.dictionary)
    → canonicalize_input lower raw ≡ c ∷ key
    → display_of raw ≡ row.canonical
    → is_claimed_by_another lower row.kb_id (c ∷ key) dict_id db.dictionary ≡ false
    → normalize_tags lower row.kb_id none true user (raw ∷ raws) (rows_of out.1.dictionary)
      ≡ err (duplicate_canonical row.canonical)
unfolding get_kb_dict_map
deleted_tag_raises lower dict_id actor_id user db row out c key raw raws found h unique has_key
      shown free =
    let rows = rows_of (insert dict_id (deprecated row) db.dictionary) in
    let gone : claims lower row.kb_id (c ∷ key) (deprecated row) ≡ false = ground arith in
    let unnamed : get (c ∷ key) (get_kb_dict_map lower row.kb_id none rows) ≡ none =
      load_dict_from_db_exact lower row.kb_id (c ∷ key) rows
      ∙ owner-insert_gone lower row.kb_id (c ∷ key) dict_id (deprecated row) db.dictionary none
          unique free gone in
    let itself : is_row row.kb_id row.canonical (deprecated row) ≡ true =
      ground (arith, text_eq_refl row.canonical) in
    let exists : any (is_row row.kb_id (display_of raw)) rows ≡ true =
      rw shown (
        any-insert (is_row row.kb_id row.canonical) dict_id (deprecated row) db.dictionary
          itself) in
    rw (deleted_rows dict_id actor_id db row out found h) (
      known_tag_raises lower row.kb_id none user c key raw raws rows has_key unnamed exists
      ∙ ap (λ t. err (duplicate_canonical t)) shown)

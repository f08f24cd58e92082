-- ===== src/Knowledge/Tagging/Governance/Renaming.antt =====
-- What the mapping of tags (app/knowledge/tagging/normalizer.py) says after `rename` of
-- app/knowledge/tagging/service.py.
use ops_knowledge.Prelude.{
  ℕ, ◌≡◌, ◌⊎◌, inl, inr, refl, sym, ap, subst, ◌∙◌, true, false, ◌||◌, Option, none, some, [], ◌∷◌,
  arith, Bool-cases, take, IsUnique,
}
use ops_knowledge.Prelude.Dict.{Dict, lookup, insert, keys}
use ops_knowledge.Prelude.Results.{ok, bind_step, err-ne-ok, ok-injective}
use ops_knowledge.Prelude.Texts.{Text, text_eq, strip}
use ops_knowledge.Knowledge.Tagging.{TagDictionary, get, load_dict_from_db}
use ops_knowledge.Knowledge.Tagging.Governance.{
  Db, entry_not_found, entry_or, is_blank, is_taken, rows_of, append_new, rename,
}
use ops_knowledge.Knowledge.Tagging.Governance.Claims.{
  names, claims, load_dict_from_db_exact, is_claimed_by_another, owner-insert,
}
use ops_knowledge.Knowledge.Tagging.Governance.Resolution.{any-append_new}

-- Writing what is there changes nothing.
pub insert-lookup :
    (k : ℕ) (r : TagDictionary) (d : Dict TagDictionary) → lookup k d ≡ some r → insert k r d ≡ d
insert-lookup k r [] h = absurd (ground arith)
insert-lookup k r ((j, q) ∷ d) h = ground (arith, insert-lookup k r d)

-- The row under its new name.
abbrev pub renamed : Text → TagDictionary → TagDictionary
renamed new row = record row {
  canonical = take 64 (strip new);
  aliases = append_new row.canonical row.aliases;
}

renamed-names :
    (lower : Text → Text) (x new : Text) (row : TagDictionary)
    → (names lower x row || text_eq x (lower (renamed new row).canonical)) ≡ true
    → names lower x (renamed new row) ≡ true
renamed-names lower x new row h =
    let aliases = any-append_new lower x row.canonical row.aliases in ground arith

-- A name of the row before, and its new name, are names of the row that was written.
abbrev Holds : (Text → Text) → Text → TagDictionary → TagDictionary → Type 0
Holds lower x before row =
    (names lower x before || text_eq x (lower row.canonical)) ≡ true
    → claims lower before.kb_id x row ≡ true

written-claims :
    (lower : Text → Text) (x new : Text) (before row : TagDictionary)
    → (row ≡ before) ⊎ (row ≡ renamed new before)
    → before.is_deprecated ≡ false
    → Holds lower x before row
written-claims lower x new before row (inl same) active =
    subst (Holds lower x before) (sym same) (λ h. ground arith)
written-claims lower x new before row (inr same) active =
    subst (Holds lower x before) (sym same)
      (λ h. let name = renamed-names lower x new before h in ground arith)

-- What a rename that returns wrote: the row as it was, or the row under its new name.
abbrev pub Renames : Text → ℕ → TagDictionary → Db → (TagDictionary × Text) × Db → Type 0
Renames new dict_id before db out =
    (out.1.dictionary ≡ insert dict_id out.0.0 db.dictionary)
    × ((out.0.0 ≡ before) ⊎ (out.0.0 ≡ renamed new before))

pub rename_writes :
    (dict_id : ℕ) (new : Text) (actor_id : Option ℕ) (db : Db) (before : TagDictionary)
    (out : (TagDictionary × Text) × Db)
    → lookup dict_id db.dictionary ≡ some before
    → rename dict_id new actor_id db ≡ ok out
    → Renames new dict_id before db out
unfolding rename
rename_writes dict_id new actor_id db before out found h =
    let after = sym (bind_step _ _ before (ap (entry_or entry_not_found) found)) ∙ h in
    elim (Bool-cases
      (is_blank (take 64 (strip new)) || text_eq (take 64 (strip new)) before.canonical)) [
        | inl idle ↦
            let same = ok-injective (simp idle at after) in
            subst (Renames new dict_id before db) same
              (sym (insert-lookup dict_id before db.dictionary found), inl refl)
        | inr written ↦
            elim (Bool-cases (is_taken dict_id before.kb_id (take 64 (strip new)) db.dictionary)) [
              | inl taken ↦ absurd (err-ne-ok (simp (written, taken) at after))
              | inr fresh ↦
                  let same = ok-injective (simp (written, fresh) at after) in
                  subst (Renames new dict_id before db) same (refl, inr refl)
            ]
      ]

-- After a rename of an active row, its new name and every name that it had before, in lower case,
-- stand for the new name, where no other row of the base claims them.
pub rename_resolves :
    (lower : Text → Text) (dict_id : ℕ) (new : Text) (actor_id : Option ℕ) (db : Db)
    (before : TagDictionary) (out : (TagDictionary × Text) × Db) (x : Text)
    → lookup dict_id db.dictionary ≡ some before
    → rename dict_id new actor_id db ≡ ok out
    → IsUnique (keys db.dictionary)
    → before.is_deprecated ≡ false
    → (names lower x before || text_eq x (lower out.0.0.canonical)) ≡ true
    → is_claimed_by_another lower before.kb_id x dict_id db.dictionary ≡ false
    → get x (load_dict_from_db lower before.kb_id (rows_of out.1.dictionary))
      ≡ some out.0.0.canonical
rename_resolves lower dict_id new actor_id db before out x found h unique active name free =
    let written = rename_writes dict_id new actor_id db before out found h in
    let own = written-claims lower x new before out.0.0 written.1 active name in
    rw written.0 (
      load_dict_from_db_exact lower before.kb_id x (rows_of (insert dict_id out.0.0 db.dictionary))
      ∙ owner-insert lower before.kb_id x dict_id out.0.0 db.dictionary none unique free own)

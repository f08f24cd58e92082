-- ===== src/Knowledge/Tagging/Governance.antt =====
-- The governance of tag dictionaries: `TagDictionaryService` of app/knowledge/tagging/service.py. The
-- rows are kept by their identifier. A write clears the caches, so the next lookup reads the rows.
pub mod Claims
pub mod Resolution
pub mod Renaming
pub mod Endpoints
pub mod Isolation
pub mod Requests
pub mod Deletion
use ops_knowledge.Prelude.{
  ℕ, Bool, true, false, not, ◌&&◌, ◌||◌, ◌==◌, ◌-◌, if◌then◌else◌, Option, none, some, List, [],
  ◌∷◌, ◌++◌, any, map, mem, take,
}
use ops_knowledge.Prelude.Dict.{Dict, lookup, insert}
use ops_knowledge.Prelude.Results.{Result, ok, err, ◌>>=◌}
use ops_knowledge.Prelude.Texts.{Text, text_eq, strip}
use ops_knowledge.Knowledge.Tagging.{TagDictionary, is_row}

-- The snapshots before and after a write.
pub data Operation : Type 0 where
  create_op : (canonical : Text) → (aliases : List Text) → Operation
  set_aliases_op : (before after : List Text) → Operation
  rename_op : (old new : Text) → (before after : List Text) → Operation
  merge_op :
      (before : List Text)
      → (sources : List (ℕ × Text × List Text)) → (canonical : Text) → (merged : List Text)
      → Operation
  delete_op : (canonical : Text) → Operation

pub record TagDictionaryAudit : Type 0 where
  pub kb_id : ℕ
  pub dict_id : Option ℕ
  pub op : Operation
  pub affected_entries : Option ℕ
  pub actor_id : Option ℕ

pub record Db : Type 0 where
  pub dictionary : Dict TagDictionary
  pub audits : List TagDictionaryAudit

pub data GovernanceError : Type 0 where
  entry_not_found target_not_found : GovernanceError
  across_bases source_is_target : GovernanceError
  -- The unique constraint on the base and the canonical name.
  duplicate_canonical : Text → GovernanceError

abbrev pub rows_of : Dict TagDictionary → List TagDictionary
rows_of [] = []
rows_of ((k, r) ∷ d) = r ∷ rows_of d

-- Another row of the base has the name.
abbrev pub is_taken : ℕ → ℕ → Text → Dict TagDictionary → Bool
is_taken k kb_id canonical [] = false
is_taken k kb_id canonical ((j, r) ∷ d) =
    (not (j == k) && is_row kb_id canonical r) || is_taken k kb_id canonical d

abbrev pub audit : ℕ → ℕ → Operation → Option ℕ → List TagDictionaryAudit → List TagDictionaryAudit
audit kb_id dict_id op actor_id audits =
    audits
    ++ record {
      kb_id = kb_id;
      dict_id = some dict_id;
      op = op;
      affected_entries = none;
      actor_id = actor_id;
    }
      ∷ []

abbrev pub entry_or : GovernanceError → Option TagDictionary → Result GovernanceError TagDictionary
entry_or e none = err e
entry_or e (some r) = ok r

abbrev pub aliases_or_none : Option (List Text) → List Text
aliases_or_none none = []
aliases_or_none (some aliases) = aliases

unfoldable pub create :
    ℕ → ℕ → Text → Option (List Text) → Option ℕ → Db → Result GovernanceError (TagDictionary × Db)
create fresh_id kb_id canonical aliases actor_id db =
    let row : TagDictionary = record {
      kb_id = kb_id;
      canonical = take 64 (strip canonical);
      aliases = aliases_or_none aliases;
      is_deprecated = false;
      created_by = actor_id;
    } in
    if is_taken fresh_id kb_id row.canonical db.dictionary
    then err (duplicate_canonical row.canonical)
    else ok (
      row,
      record {
        dictionary = insert fresh_id row db.dictionary;
        audits = audit kb_id fresh_id (create_op row.canonical row.aliases) actor_id db.audits;
      },
    )

-- `a.strip()` of the aliases that have more than white space.
abbrev pub stripped : List Text → List Text
stripped [] = []
stripped (a ∷ as_given) =
    let rest = stripped as_given in elim (strip a) [ [] ↦ rest | c ∷ s ↦ (c ∷ s) ∷ rest ]

unfoldable pub set_aliases :
    ℕ → List Text → Option ℕ → Db → Result GovernanceError (TagDictionary × Db)
set_aliases dict_id aliases actor_id db = do
  row ← entry_or entry_not_found (lookup dict_id db.dictionary)
  let after = stripped aliases
  ok (
    record row { aliases = after },
    record {
      dictionary = insert dict_id (record row { aliases = after }) db.dictionary;
      audits = audit row.kb_id dict_id (set_aliases_op row.aliases after) actor_id db.audits;
    },
  )

abbrev pub is_in : Text → List Text → Bool
is_in t ts = any (text_eq t) ts

-- `if t not in ts: ts.append(t)`
abbrev pub append_new : Text → List Text → List Text
append_new t ts = if is_in t ts then ts else ts ++ t ∷ []

abbrev pub is_blank : Text → Bool
is_blank [] = true
is_blank (c ∷ s) = false

-- The row and its old name; the old name becomes an alias.
unfoldable pub rename :
    ℕ → Text → Option ℕ → Db → Result GovernanceError ((TagDictionary × Text) × Db)
rename dict_id new_canonical actor_id db = do
  row ← entry_or entry_not_found (lookup dict_id db.dictionary)
  let new = take 64 (strip new_canonical)
  let renamed = (record row { canonical = new; aliases = append_new row.canonical row.aliases })
  if is_blank new || text_eq new row.canonical
      then ok ((row, row.canonical), db)
      else if is_taken dict_id row.kb_id new db.dictionary
      then err (duplicate_canonical new)
      else ok (
        (renamed, row.canonical),
        record {
          dictionary = insert dict_id renamed db.dictionary;
          audits =
              audit row.kb_id dict_id (rename_op row.canonical new row.aliases renamed.aliases)
                actor_id db.audits;
        },
      )

-- `select(...).where(id.in_(source_ids))`, with the identifiers.
abbrev pub sources_of : List ℕ → Dict TagDictionary → Dict TagDictionary
sources_of ids [] = []
sources_of ids ((k, r) ∷ d) =
    let rest = sources_of ids d in if mem k ids then (k, r) ∷ rest else rest

unfoldable pub check_sources :
    ℕ → TagDictionary → Dict TagDictionary → Result GovernanceError (Unit {0})
check_sources target_id target [] = ok tt
check_sources target_id target ((k, s) ∷ sources) =
    let rest = check_sources target_id target sources in
    if not (s.kb_id == target.kb_id)
    then err across_bases
    else (if k == target_id then err source_is_target else rest)

abbrev pub append_all : List Text → List Text → List Text
append_all [] ts = ts
append_all (a ∷ names) ts = append_all names (append_new a ts)

-- The names of the sources, one source after the other.
unfoldable pub merged_aliases : Dict TagDictionary → List Text → List Text
merged_aliases [] ts = ts
merged_aliases ((k, s) ∷ sources) ts =
    merged_aliases sources (append_all s.aliases (append_new s.canonical ts))

unfoldable pub deprecate_all : List ℕ → Dict TagDictionary → Dict TagDictionary
deprecate_all ids [] = []
deprecate_all ids ((k, r) ∷ d) =
    let rest = deprecate_all ids d in
    (k, if mem k ids then record r { is_deprecated = true } else r) ∷ rest

abbrev pub snapshots : Dict TagDictionary → List (ℕ × Text × List Text)
snapshots [] = []
snapshots ((k, s) ∷ sources) = (k, s.canonical, s.aliases) ∷ snapshots sources

abbrev pub canonicals : Dict TagDictionary → List Text
canonicals [] = []
canonicals ((k, s) ∷ sources) = s.canonical ∷ canonicals sources

-- What the merge writes, for the sources that were found.
abbrev pub merged_db : List ℕ → ℕ → TagDictionary → Dict TagDictionary → Option ℕ → Db → Db
merged_db source_ids target_id target sources actor_id db =
    let after = merged_aliases sources target.aliases in
    record {
      dictionary =
          insert target_id (record target { aliases = after })
            (deprecate_all source_ids db.dictionary);
      audits =
          audit target.kb_id target_id
            (merge_op target.aliases (snapshots sources) target.canonical after) actor_id db.audits;
    }

abbrev pub has_none : Dict TagDictionary → Bool
has_none [] = true
has_none (s ∷ sources) = false

unfoldable pub merge :
    List ℕ → ℕ → Option ℕ → Db → Result GovernanceError ((TagDictionary × List Text) × Db)
merge source_ids target_id actor_id db = do
  target ← entry_or target_not_found (lookup target_id db.dictionary)
  let sources = sources_of source_ids db.dictionary
  if has_none sources then ok ((target, []), db) else do
    _ ← check_sources target_id target sources
    ok (
      (record target { aliases = merged_aliases sources target.aliases }, canonicals sources),
      merged_db source_ids target_id target sources actor_id db,
    )

unfoldable pub soft_delete : ℕ → Option ℕ → Db → Result GovernanceError (TagDictionary × Db)
soft_delete dict_id actor_id db = do
  row ← entry_or entry_not_found (lookup dict_id db.dictionary)
  let gone = (record row { is_deprecated = true })
  if row.is_deprecated
      then ok (row, db)
      else ok (
        gone,
        record {
          dictionary = insert dict_id gone db.dictionary;
          audits = audit row.kb_id dict_id (delete_op row.canonical) actor_id db.audits;
        },
      )

-- An audit row is named by its place in the list.
abbrev pub count_at : ℕ → ℕ → List TagDictionaryAudit → List TagDictionaryAudit
count_at audit_id count [] = []
count_at audit_id count (a ∷ audits) =
    let rest = count_at (audit_id - 1) count audits in
    if audit_id == 0 then record a { affected_entries = some count } ∷ audits else a ∷ rest

-- What the task that rewrites the tags records when it is through.
unfoldable pub update_affected_entries : ℕ → ℕ → Db → Db
update_affected_entries audit_id count db = record db { audits = count_at audit_id count db.audits }

-- ===== src/Knowledge/Tagging/Governance/Resolution.antt =====
-- What the mapping of tags (app/knowledge/tagging/normalizer.py) says after the governance of
-- app/knowledge/tagging/service.py merged or renamed tags.
use mathlib.Core.Option.{none-ne-some, some-injective}
use ops_knowledge.Prelude.{
  ℕ, ◌≡◌, inl, inr, refl, sym, ap, ◌∙◌, Bool, true, false, not, ◌&&◌, ◌||◌, ◌==◌, Option, none,
  some, List, [], ◌∷◌, ◌++◌, any, arith, Bool-cases, mem, IsUnique,
}
use ops_knowledge.Prelude.Dict.{Dict, lookup, insert, keys}
use ops_knowledge.Prelude.Results.{ok, bind_ok, bind_step, ok-injective}
use ops_knowledge.Prelude.Texts.{Text, text_eq, text_eq→eq}
use ops_knowledge.Knowledge.Tagging.{TagDictionary, get, load_dict_from_db}
use ops_knowledge.Knowledge.Tagging.Governance.{
  Db, entry_or, target_not_found, has_none, check_sources, rows_of, is_in, append_new, append_all,
  merged_aliases, deprecate_all, sources_of, merge,
}
use ops_knowledge.Knowledge.Tagging.Governance.Claims.{
  names, claims, load_dict_from_db_exact, is_claimed_by_another, owner-insert,
}

-- A row that is neither the target nor one of the sources claims the text.
abbrev pub is_claimed_elsewhere : (Text → Text) → ℕ → Text → List ℕ → ℕ → Dict TagDictionary → Bool
is_claimed_elsewhere lower kb_id x source_ids t [] = false
is_claimed_elsewhere lower kb_id x source_ids t ((j, r) ∷ d) =
    (not (mem j source_ids) && not (j == t) && claims lower kb_id x r)
    || is_claimed_elsewhere lower kb_id x source_ids t d

keys-deprecate_all : (ids : List ℕ) (d : Dict TagDictionary) → keys (deprecate_all ids d) ≡ keys d
unfolding deprecate_all
keys-deprecate_all ids [] = refl
keys-deprecate_all ids ((j, r) ∷ d) = ap (λ ks. j ∷ ks) (keys-deprecate_all ids d)

deprecated_free :
    (lower : Text → Text) (kb_id : ℕ) (x : Text) (ids : List ℕ) (t : ℕ) (d : Dict TagDictionary)
    → is_claimed_elsewhere lower kb_id x ids t d ≡ false
    → is_claimed_by_another lower kb_id x t (deprecate_all ids d) ≡ false
unfolding deprecate_all
deprecated_free lower kb_id x ids t [] h = refl
deprecated_free lower kb_id x ids t ((j, r) ∷ d) h = elim (Bool-cases (mem j ids)) [
  | inl gone ↦ let rest = deprecated_free lower kb_id x ids t d in rw gone (ground arith)
  | inr stays ↦ let rest = deprecated_free lower kb_id x ids t d in rw stays (ground arith)
]

-- One of the rows names the text.
abbrev named_by : (Text → Text) → Text → Dict TagDictionary → Bool
named_by lower x [] = false
named_by lower x ((k, s) ∷ sources) = names lower x s || named_by lower x sources

named_by-sources_of :
    (lower : Text → Text) (x : Text) (ids : List ℕ) (k : ℕ) (s : TagDictionary)
    (d : Dict TagDictionary)
    → lookup k d ≡ some s
    → mem k ids ≡ true
    → names lower x s ≡ true
    → named_by lower x (sources_of ids d) ≡ true
named_by-sources_of lower x ids k s [] found given name = absurd (none-ne-some s found)
named_by-sources_of lower x ids k s ((j, r) ∷ d) found given name = elim (Bool-cases (k == j)) [
  | inl here ↦
      let same : k ≡ j = ground arith in
      let given_j : mem j ids ≡ true = rw (sym same) given in
      let row : names lower x r ≡ true = rw (some-injective r s (simp here at found)) name in
      rw given_j (ground arith)
  | inr there ↦
      let rest = named_by-sources_of lower x ids k s d (simp there at found) given name in
      ground arith
]

module _ (lower : Text → Text) (x : Text) where
  abbrev is_alias : List Text → Bool
  is_alias ts = any (λ a. text_eq x (lower a)) ts

  any-snoc :
      (a : Text) (ts : List Text) → is_alias (ts ++ a ∷ []) ≡ (is_alias ts || text_eq x (lower a))
  any-snoc a [] = ground arith
  any-snoc a (b ∷ ts) = ground (arith, any-snoc a ts)

  any-is_in :
      (a : Text) (ts : List Text)
      → is_in a ts ≡ true
      → text_eq x (lower a) ≡ true
      → is_alias ts ≡ true
  any-is_in a [] known name = ground arith
  any-is_in a (b ∷ ts) known name = elim (Bool-cases (text_eq a b)) [
    | inl here ↦
        let first : text_eq x (lower b) ≡ true = rw (sym (text_eq→eq a b here)) name in ground arith
    | inr there ↦ let rest = any-is_in a ts (simp there at known) name in ground arith
  ]

  pub any-append_new :
      (a : Text) (ts : List Text)
      → (is_alias ts || text_eq x (lower a)) ≡ true
      → is_alias (append_new a ts) ≡ true
  any-append_new a ts h = ground (arith, any-snoc a ts, any-is_in a ts)

  any-append_all :
      (names : List Text) (ts : List Text)
      → (is_alias ts || is_alias names) ≡ true
      → is_alias (append_all names ts) ≡ true
  any-append_all [] ts h = ground arith
  any-append_all (a ∷ names) ts h =
      let rest = any-append_all names (append_new a ts) in
      let first = any-append_new a ts in ground arith

  any-merged_aliases :
      (sources : Dict TagDictionary) (ts : List Text)
      → (is_alias ts || named_by lower x sources) ≡ true
      → is_alias (merged_aliases sources ts) ≡ true
  unfolding merged_aliases
  any-merged_aliases [] ts h = ground arith
  any-merged_aliases ((k, s) ∷ sources) ts h =
      let with_name = append_new s.canonical ts in
      let rest = any-merged_aliases sources (append_all s.aliases with_name) in
      let first = any-append_new s.canonical ts in
      let others = any-append_all s.aliases with_name in ground arith

named-has_none :
    (lower : Text → Text) (x : Text) (sources : Dict TagDictionary)
    → named_by lower x sources ≡ true
    → has_none sources ≡ false
named-has_none lower x [] h = ground arith
named-has_none lower x (s ∷ sources) h = refl

-- The target with the names of the sources.
abbrev merged : Dict TagDictionary → TagDictionary → TagDictionary
merged sources target = record target { aliases = merged_aliases sources target.aliases }

-- A merge that finds sources writes the target and the sources.
merge_writes :
    (source_ids : List ℕ) (target_id : ℕ) (actor_id : Option ℕ) (db : Db) (target : TagDictionary)
    (out : (TagDictionary × List Text) × Db)
    → lookup target_id db.dictionary ≡ some target
    → has_none (sources_of source_ids db.dictionary) ≡ false
    → merge source_ids target_id actor_id db ≡ ok out
    → out.1.dictionary
      ≡ insert target_id
          (merged (sources_of source_ids db.dictionary) target)
          (deprecate_all source_ids db.dictionary)
unfolding merge
merge_writes source_ids target_id actor_id db target out found some_found h =
    let after = sym (bind_step _ _ target (ap (entry_or target_not_found) found)) ∙ h in
    let sources = sources_of source_ids db.dictionary in
    let checked =
      bind_ok (check_sources target_id target sources) _ out (simp some_found at after) in
    sym (ap (λ p. p.1.dictionary) (ok-injective checked.2))

-- After a merge into an active target, every name of a source that was found, its canonical name
-- and its aliases in lower case, stands for the target's canonical name, where no row of the
-- target's base other than the target and the sources claims it.
pub merge_resolves :
    (lower : Text → Text) (source_ids : List ℕ) (target_id : ℕ) (actor_id : Option ℕ) (db : Db)
    (target : TagDictionary) (out : (TagDictionary × List Text) × Db) (k : ℕ) (s : TagDictionary)
    (x : Text)
    → lookup target_id db.dictionary ≡ some target
    → merge source_ids target_id actor_id db ≡ ok out
    → IsUnique (keys db.dictionary)
    → target.is_deprecated ≡ false
    → lookup k db.dictionary ≡ some s
    → mem k source_ids ≡ true
    → names lower x s ≡ true
    → is_claimed_elsewhere lower target.kb_id x source_ids target_id db.dictionary ≡ false
    → get x (load_dict_from_db lower target.kb_id (rows_of out.1.dictionary))
      ≡ some target.canonical
merge_resolves lower source_ids target_id actor_id db target out k s x known h unique active found
      given name free =
    let sources = sources_of source_ids db.dictionary in
    let from_sources = named_by-sources_of lower x source_ids k s db.dictionary found given name in
    let written =
      merge_writes source_ids target_id actor_id db target out known
        (named-has_none lower x sources from_sources) h in
    let row = merged sources target in
    let aliased : any (λ a. text_eq x (lower a)) row.aliases ≡ true =
      any-merged_aliases lower x sources target.aliases (ground arith) in
    let own : claims lower target.kb_id x row ≡ true = ground arith in
    let after = deprecate_all source_ids db.dictionary in
    let unique_after : IsUnique (keys after) =
      rw (keys-deprecate_all source_ids db.dictionary) unique in
    let free_after = deprecated_free lower target.kb_id x source_ids target_id db.dictionary free in
    rw written (
      load_dict_from_db_exact lower target.kb_id x (rows_of (insert target_id row after))
      ∙ owner-insert lower target.kb_id x target_id row after none unique_after free_after own)

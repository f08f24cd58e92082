-- ===== src/Examples/Governances.antt =====
-- Tests and instances for app/knowledge/tagging/service.py and tagging/router.py.
use ops_knowledge.Prelude.{
  ◌+◌, ◌≡◌, ℕ, Bool, refl, true, false, ◌&&◌, ◌==◌, leb, if◌then◌else◌, Option, none, some, List,
  [], ◌∷◌, map,
}
use ops_knowledge.Prelude.Results.{Result, ok, err}
use ops_knowledge.Prelude.Texts.{Text, codes, text_eq, strip}
use ops_knowledge.Knowledge.Tagging.{
  TagDictionary, get, load_dict_from_db, canonicalize_input, display_of, normalize_tags,
  duplicate_canonical,
}
use ops_knowledge.Knowledge.Tagging.Governance.Deletion.{deleted_tag_raises}
use ops_knowledge.Knowledge.Tagging.Governance.{
  Db, GovernanceError, update_affected_entries, rows_of, create, rename, merge, merged_aliases,
  deprecate_all, check_sources, soft_delete,
}
use ops_knowledge.Knowledge.Tagging.Governance.Endpoints.{
  Reply, merge_request, create_request, rename_request, integrity_error, not_of_base, handle,
  raised, require_kb_access, create_tag, rename_tag, merge_tags,
}
use ops_knowledge.Knowledge.Tagging.Governance.Isolation.{IsIsolated}
use ops_knowledge.Knowledge.Tagging.Governance.Requests.{handle-IsIsolated}
use ops_knowledge.Knowledge.Tagging.Governance.Renaming.{rename_resolves}
use ops_knowledge.Knowledge.Tagging.Governance.Resolution.{merge_resolves}

-- The lower case of ASCII.
abbrev lower : Text → Text
lower = map (λ c. if leb 65 c && leb c 90 then c + 32 else c)

abbrev tag : ℕ → Text → List Text → Bool → TagDictionary
tag kb_id canonical aliases is_deprecated = record {
  kb_id = kb_id;
  canonical = canonical;
  aliases = aliases;
  is_deprecated = is_deprecated;
  created_by = none;
}

abbrev tags : Db
tags = record {
  dictionary =
      (1, tag 1 (codes "VPN") (codes "Tunnel" ∷ []) false)
      ∷ (2, tag 1 (codes "Remote") (codes "Home" ∷ []) false)
      ∷ (3, tag 1 (codes "Fax") [] true)
      ∷ (4, tag 2 (codes "VPN") [] false)
      ∷ [];
  audits = [];
}

abbrev kbs : List ℕ
kbs = 1 ∷ 2 ∷ []

abbrev can_edit : ℕ → Bool
can_edit kb_id = kb_id == 1

abbrev found {ℓ κ} : {E : Type ℓ} {A : Type κ} → Text → Result E (A × Db) → Option Text
found x (ok out) = get x (load_dict_from_db lower 1 (rows_of out.1.dictionary))
found x (err e) = none

alias_follows : found (codes "home") (merge (2 ∷ 9 ∷ []) 1 (some 7) tags) ≡ some (codes "VPN")
unfolding merge check_sources merged_aliases deprecate_all load_dict_from_db text_eq
alias_follows = refl

-- The target of a merge may be deprecated; then no name of the source is known.
merged_into_deprecated : found (codes "remote") (merge (2 ∷ []) 3 (some 7) tags) ≡ none
unfolding merge check_sources merged_aliases deprecate_all load_dict_from_db text_eq
merged_into_deprecated = refl

deleted_unknown : found (codes "vpn") (soft_delete 1 none tags) ≡ none
unfolding soft_delete load_dict_from_db text_eq
deleted_unknown = refl

-- The name of a deprecated tag cannot be taken.
deprecated_name_taken :
    handle kbs can_edit 1 none (create_request 5 (codes " Fax ") none) tags
    ≡ err (integrity_error (codes "Fax"))
unfolding handle create_tag require_kb_access create raised strip text_eq
deprecated_name_taken = refl

other_base_refused :
    handle kbs can_edit 1 none (rename_request 4 (codes "Net")) tags ≡ err not_of_base
unfolding handle rename_tag require_kb_access rename raised strip text_eq
other_base_refused = refl

abbrev counts : Db → List (Option ℕ)
counts db = map (λ a. a.affected_entries) db.audits

abbrev audited : Result GovernanceError (TagDictionary × Db) → Db
audited (ok out) = out.1
audited (err e) = tags

-- The deletion is audited, and the row takes the count of the task later.
deletion_counted :
    counts (update_affected_entries 0 12 (audited (soft_delete 1 none tags))) ≡ some 12 ∷ []
unfolding update_affected_entries soft_delete
deletion_counted = refl

abbrev outcome {ℓ κ} : {E : Type ℓ} {A : Type κ} → A → Result E A → A
outcome d (ok a) = a
outcome d (err e) = d

abbrev vpn : TagDictionary
vpn = tag 1 (codes "VPN") (codes "Tunnel" ∷ []) false

abbrev remote : TagDictionary
remote = tag 1 (codes "Remote") (codes "Home" ∷ []) false

merge_resolves_example :
    get (codes "home") (
      load_dict_from_db lower 1
        (rows_of (outcome ((vpn, []), tags) (merge (2 ∷ 9 ∷ []) 1 (some 7) tags)).1.dictionary))
    ≡ some (codes "VPN")
unfolding merge check_sources merged_aliases deprecate_all text_eq
merge_resolves_example =
    merge_resolves lower (2 ∷ 9 ∷ []) 1 (some 7) tags vpn
      (outcome ((vpn, []), tags) (merge (2 ∷ 9 ∷ []) 1 (some 7) tags)) 2 remote (codes "home") refl
      refl (refl, (refl, (refl, (refl, tt)))) refl refl refl refl refl

rename_resolves_example :
    get (codes "vpn") (
      load_dict_from_db lower 1
        (rows_of (outcome ((vpn, []), tags) (rename 1 (codes " Net") none tags)).1.dictionary))
    ≡ some (codes "Net")
unfolding rename strip text_eq
rename_resolves_example =
    rename_resolves lower 1 (codes " Net") none tags vpn
      (outcome ((vpn, []), tags) (rename 1 (codes " Net") none tags)) (codes "vpn") refl refl
      (refl, (refl, (refl, (refl, tt)))) refl refl refl

abbrev no_reply : Reply
no_reply = record { item = vpn; tasks = []; db = tags }

handle-IsIsolated_example :
    (can_edit 1 ≡ true)
    × IsIsolated 1 tags.dictionary
        (outcome no_reply
          (handle kbs can_edit 1 none (merge_request (2 ∷ []) 1) tags)).db.dictionary
unfolding handle merge_tags require_kb_access merge check_sources merged_aliases deprecate_all
    text_eq
handle-IsIsolated_example =
    handle-IsIsolated kbs can_edit 1 none (merge_request (2 ∷ []) 1) tags
      (outcome no_reply (handle kbs can_edit 1 none (merge_request (2 ∷ []) 1) tags)) tt refl

deleted_tag_raises_example :
    normalize_tags lower 1 none true none
      (codes " Remote" ∷ [])
      (rows_of (outcome (remote, tags) (soft_delete 2 none tags)).1.dictionary)
    ≡ err (duplicate_canonical (codes "Remote"))
unfolding soft_delete canonicalize_input display_of strip text_eq
deleted_tag_raises_example =
    deleted_tag_raises lower 2 none none tags remote
      (outcome (remote, tags) (soft_delete 2 none tags)) 114 (codes "emote") (codes " Remote") []
      refl refl (refl, (refl, (refl, (refl, tt)))) refl refl refl

-- ===== src/Knowledge/Tagging/Governance/Requests.antt =====
-- Requests on one base, and the tags of the others (app/knowledge/tagging/router.py).
use ops_knowledge.Prelude.{
  ℕ, ◌≡◌, inl, inr, ap, subst, Bool, true, ◌==◌, if◌then◌else◌, Option, none, List, arith,
  Bool-cases, mem,
}
use ops_knowledge.Prelude.Dict.{lookup}
use ops_knowledge.Prelude.Results.{Result, ok, err, bind_ok, err-ne-ok, ok-injective}
use ops_knowledge.Knowledge.Tagging.{TagDictionary}
use ops_knowledge.Knowledge.Tagging.Governance.{
  Db, GovernanceError, merge, create, set_aliases, rename, soft_delete,
}
use ops_knowledge.Knowledge.Tagging.Governance.Endpoints.{
  HttpError, Reply, not_found, bad_request, target_in_sources, require_kb_access, Request,
  create_request, aliases_request, rename_request, merge_request, delete_request, catching,
  require_own, create_tag, set_tag_aliases, rename_tag, merge_tags, soft_delete_tag, handle,
}
use ops_knowledge.Knowledge.Tagging.Governance.Isolation.{
  IsIsolated, Writes-IsIsolated, set_aliases-Writes, soft_delete-Writes, rename-Writes,
  merge-IsIsolated, create-IsIsolated,
}

-- The identifier of the row that a request creates is not in the table.
abbrev pub IsFresh : Request → Db → Type 0
IsFresh (create_request fresh_id canonical aliases) db = lookup fresh_id db.dictionary ≡ none
IsFresh _ db = Unit

require_own-ok :
    (kb_id : ℕ) (row : TagDictionary) (reply out : Reply)
    → require_own kb_id row reply ≡ ok out
    → ((row.kb_id == kb_id) ≡ true) × (reply ≡ out)
require_own-ok kb_id row reply out h = elim (Bool-cases (row.kb_id == kb_id)) [
  | inl own ↦ (own, ok-injective (simp own at h))
  | inr other ↦ absurd (err-ne-ok (simp other at h))
]

catching-ok :
    {A : Type 0} (code : GovernanceError → HttpError) (m : Result GovernanceError A) (a : A)
    → catching code m ≡ ok a
    → m ≡ ok a
catching-ok code (ok b) a h = ap ok (ok-injective h)
catching-ok code (err e) a h = absurd (err-ne-ok h)

module _ (kbs : List ℕ) (can_edit : ℕ → Bool) where
  require_kb_access-can_edit :
      (kb_id a : ℕ) → require_kb_access kbs can_edit kb_id ≡ ok a → can_edit kb_id ≡ true
  unfolding require_kb_access
  require_kb_access-can_edit kb_id a h = elim (Bool-cases (mem kb_id kbs)) [
    | inl there ↦ elim (Bool-cases (can_edit kb_id)) [
      | inl may ↦ may
      | inr may_not ↦ absurd (err-ne-ok (simp (there, may_not) at h))
    ]
    | inr gone ↦ absurd (err-ne-ok (simp gone at h))
  ]

-- What the base of the address and the table before say of a reply.
abbrev IsKept : ℕ → Db → Reply → Type 0
IsKept kb_id db reply = IsIsolated kb_id db.dictionary reply.db.dictionary

module _ (kbs : List ℕ) (can_edit : ℕ → Bool) where
  -- A request on a base that returns comes from a caller who may edit the base, and leaves every tag
  -- of the other bases as it was, where the identifier of a new row is not in the table.
  pub handle-IsIsolated :
      (kb_id : ℕ) (user : Option ℕ) (request : Request) (db : Db) (reply : Reply)
      → IsFresh request db
      → handle kbs can_edit kb_id user request db ≡ ok reply
      → (can_edit kb_id ≡ true) × IsIsolated kb_id db.dictionary reply.db.dictionary
  unfolding handle create_tag set_tag_aliases rename_tag merge_tags soft_delete_tag
  handle-IsIsolated kb_id user (create_request fresh_id canonical aliases) db reply fresh h =
      let access = bind_ok (require_kb_access kbs can_edit kb_id) _ reply h in
      let call = create fresh_id kb_id canonical aliases user db in
      let out = bind_ok (catching bad_request call) _ reply access.2 in
      let kept =
        create-IsIsolated fresh_id kb_id canonical aliases user db out.0 fresh
          (catching-ok bad_request call out.0 out.1) in
      (
        require_kb_access-can_edit kbs can_edit kb_id access.0 access.1,
        subst (IsKept kb_id db) (ok-injective out.2) kept,
      )
  handle-IsIsolated kb_id user (aliases_request dict_id aliases) db reply fresh h =
      let access = bind_ok (require_kb_access kbs can_edit kb_id) _ reply h in
      let call = set_aliases dict_id aliases user db in
      let out = bind_ok (catching not_found call) _ reply access.2 in
      let written =
        set_aliases-Writes dict_id aliases user db out.0 (catching-ok not_found call out.0 out.1) in
      let own = require_own-ok kb_id out.0.0 _ reply out.2 in
      (
        require_kb_access-can_edit kbs can_edit kb_id access.0 access.1,
        subst (IsKept kb_id db) own.1
            (Writes-IsIsolated kb_id dict_id db out.0.0 out.0.1 written own.0),
      )
  handle-IsIsolated kb_id user (rename_request dict_id canonical) db reply fresh h =
      let access = bind_ok (require_kb_access kbs can_edit kb_id) _ reply h in
      let call = rename dict_id canonical user db in
      let out = bind_ok (catching not_found call) _ reply access.2 in
      let written =
        rename-Writes dict_id canonical user db out.0 (catching-ok not_found call out.0 out.1) in
      let own = require_own-ok kb_id out.0.0.0 _ reply out.2 in
      (
        require_kb_access-can_edit kbs can_edit kb_id access.0 access.1,
        subst (IsKept kb_id db) own.1
            (Writes-IsIsolated kb_id dict_id db out.0.0.0 out.0.1 written own.0),
      )
  handle-IsIsolated kb_id user (merge_request source_ids target_id) db reply fresh h =
      let access = bind_ok (require_kb_access kbs can_edit kb_id) _ reply h in
      let apart =
        bind_ok (if mem target_id source_ids then err target_in_sources else ok kb_id) _ reply
          access.2 in
      let call = merge source_ids target_id user db in
      let out = bind_ok (catching bad_request call) _ reply apart.2 in
      let own = require_own-ok kb_id out.0.0.0 _ reply out.2 in
      let same : out.0.0.0.kb_id ≡ kb_id = ground arith in
      let kept =
        merge-IsIsolated source_ids target_id user db out.0
          (catching-ok bad_request call out.0 out.1) in
      (
        require_kb_access-can_edit kbs can_edit kb_id access.0 access.1,
        subst (IsKept kb_id db) own.1
            (subst (λ k. IsIsolated k db.dictionary out.0.1.dictionary) same kept),
      )
  handle-IsIsolated kb_id user (delete_request dict_id) db reply fresh h =
      let access = bind_ok (require_kb_access kbs can_edit kb_id) _ reply h in
      let call = soft_delete dict_id user db in
      let out = bind_ok (catching not_found call) _ reply access.2 in
      let written =
        soft_delete-Writes dict_id user db out.0 (catching-ok not_found call out.0 out.1) in
      let own = require_own-ok kb_id out.0.0 _ reply out.2 in
      (
        require_kb_access-can_edit kbs can_edit kb_id access.0 access.1,
        subst (IsKept kb_id db) own.1
            (Writes-IsIsolated kb_id dict_id db out.0.0 out.0.1 written own.0),
      )

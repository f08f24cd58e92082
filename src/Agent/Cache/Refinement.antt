-- ===== src/Agent/Cache/Refinement.antt =====
-- What the rules cache returns, beside the calls that were made of it.
use ops_knowledge.Prelude.{
  ℕ, ◌≡◌, ◌==◌, leb, not, ◌&&◌, if◌then◌else◌, Option, none, some, List, [], ◌∷◌, arith, length,
  Bool, true, false, Bool-cases, Option-cases, ◌∙◌, inl, inr,
}
use ops_knowledge.Prelude.Dict.{lookup, has_key, lookup-insert, lookup-remove}
use ops_knowledge.Agent.Cache.{
  CacheEntry, Cache, get_cached_rules, evict_oldest, put_cached_rules, invalidate, clear_all, Call,
  got, put, invalidated, cleared, apply, apply_all, max_agents_cached,
}

-- The rules last stored for each agent, and not invalidated since.
abbrev pub Stored : Type 0 → Type 0
Stored A = ℕ → Option (CacheEntry A)

module _ {A : Type 0} where
  abbrev pub record_call : Call A → Stored A → Stored A
  record_call (got agent_id version) s = s
  record_call (put agent_id none rules) s = s
  record_call (put agent_id (some version) rules) s =
      λ k. if k == agent_id then some (record { updated_at = version; rules = rules }) else s k
  record_call (invalidated agent_id) s = λ k. if k == agent_id then none else s k
  record_call cleared s = λ k. none

  abbrev pub stored : List (Call A) → Stored A → Stored A
  stored [] s = s
  stored (c ∷ cs) s = stored cs (record_call c s)

  -- Every entry of the cache is the one last stored.
  abbrev Agrees : Cache A → Stored A → Type 0
  Agrees cache s = (k : ℕ) (e : CacheEntry A) → lookup k cache ≡ some e → s k ≡ some e

  lookup-evict :
      (k : ℕ) (e : CacheEntry A) (cache : Cache A)
      → lookup k (evict_oldest cache) ≡ some e
      → lookup k cache ≡ some e
  lookup-evict k e [] h = h
  lookup-evict k e ((j, f) ∷ cache) h = ground (arith, lookup-remove j k cache)

  lookup-room :
      (b : Bool) (k : ℕ) (e : CacheEntry A) (cache : Cache A)
      → lookup k (if b then evict_oldest cache else cache) ≡ some e
      → lookup k cache ≡ some e
  lookup-room true k e cache h = lookup-evict k e cache h
  lookup-room false k e cache h = h

  apply-Agrees :
      (c : Call A) (cache : Cache A) (s : Stored A)
      → Agrees cache s
      → Agrees (apply c cache) (record_call c s)
  unfolding apply get_cached_rules put_cached_rules invalidate clear_all
  apply-Agrees (got a none) cache s agrees k e h = agrees k e h
  apply-Agrees (got a (some v)) cache s agrees k e h =
      ground (arith, agrees k e, lookup-remove a k cache)
  apply-Agrees (put a none rules) cache s agrees k e h = agrees k e h
  apply-Agrees (put a (some v) rules) cache s agrees k e h =
      let full = leb max_agents_cached (length cache) && not (has_key a cache) in
      let entry : CacheEntry A = record { updated_at = v; rules = rules } in
      let room : Cache A = if full then evict_oldest cache else cache in
      let at : (if k == a then some entry else lookup k room) ≡ some e =
        rw (← (lookup-insert a k entry room)) h in
      elim (Bool-cases (k == a)) [
        | inl same ↦ rw same (rw same at at)
        | inr other ↦ rw other (agrees k e (lookup-room full k e cache (rw other at at)))
      ]
  apply-Agrees (invalidated a) cache s agrees k e h =
      ground (arith, agrees k e, lookup-remove a k cache)
  apply-Agrees cleared cache s agrees k e h = ground arith

  apply_all-Agrees :
      (cs : List (Call A)) (cache : Cache A) (s : Stored A)
      → Agrees cache s
      → Agrees (apply_all cs cache) (stored cs s)
  unfolding apply_all
  apply_all-Agrees [] cache s agrees = agrees
  apply_all-Agrees (c ∷ cs) cache s agrees =
      apply_all-Agrees cs (apply c cache) (record_call c s) (apply-Agrees c cache s agrees)

  -- After any sequence of calls on the empty cache, a lookup that returns rules returns those that
  -- were last stored for the agent, stored under the version asked for and not invalidated since.
  pub get_cached_rules_sound :
      (cs : List (Call A)) (agent_id version : ℕ) (rules : List A)
      → (get_cached_rules agent_id (some version) (apply_all cs [])).0 ≡ some rules
      → stored cs (λ k. none) agent_id ≡ some (record { updated_at = version; rules = rules })
  unfolding get_cached_rules
  get_cached_rules_sound cs a v rules h = elim (Option-cases (lookup a (apply_all cs []))) [
    | inl missing ↦ absurd (ground arith)
    | inr (entry, hit) ↦
        let last : stored cs (λ k. none) a ≡ some entry =
          apply_all-Agrees cs [] (λ k. none) (λ k e i. ground arith) a entry hit in
        let same : some entry ≡ some (record { updated_at = v; rules = rules }) = ground arith in
        last ∙ same
  ]

  -- Right after rules are stored for an agent they are found under the version they were stored
  -- with, and under no other version, whatever the cache held.
  pub get-put_cached_rules :
      (a v w : ℕ) (rules : List A) (cache : Cache A)
      → (get_cached_rules a (some w) (put_cached_rules a (some v) rules cache)).0
        ≡ (if v == w then some rules else none)
  unfolding get_cached_rules put_cached_rules
  get-put_cached_rules a v w rules cache =
      let full = leb max_agents_cached (length cache) && not (has_key a cache) in
      let entry : CacheEntry A = record { updated_at = v; rules = rules } in
      let room : Cache A = if full then evict_oldest cache else cache in
      ground (arith, lookup-insert a a entry room)

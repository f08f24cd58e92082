-- ===== src/Agent/Cache/Capacity.antt =====
-- How much the rules cache holds (app/agent/orchestrator/cache.py).
use ops_knowledge.Prelude.{
  ℕ, ◌≤◌, ◌≡◌, refl, suc, if◌then◌else◌, none, some, List, [], ◌∷◌, arith, length,
}
use ops_knowledge.Prelude.Dict.{insert, remove, has_key}
use ops_knowledge.Agent.Cache.{
  CacheEntry, Cache, get_cached_rules, put_cached_rules, invalidate, clear_all, Call, got, put,
  invalidated, cleared, apply, apply_all, max_agents_cached,
}

module _ {A : Type 0} where
  length-remove-le : (k : ℕ) (cache : Cache A) → length (remove k cache) ≤ length cache
  length-remove-le k [] = omega arith
  length-remove-le k ((j, e) ∷ cache) = ground (arith, length-remove-le k cache)

  length-insert :
      (k : ℕ) (e : CacheEntry A) (cache : Cache A)
      → length (insert k e cache) ≡ (if has_key k cache then length cache else suc (length cache))
  length-insert k e [] = refl
  length-insert k e ((j, f) ∷ cache) = ground (arith, length-insert k e cache)

  put-le :
      (k v : ℕ) (rules : List A) (cache : Cache A)
      → length cache ≤ max_agents_cached
      → length (put_cached_rules k (some v) rules cache) ≤ max_agents_cached
  unfolding put_cached_rules
  put-le k v rules [] h = omega arith
  put-le k v rules ((j, e) ∷ cache) h =
      let entry : CacheEntry A = record { updated_at = v; rules = rules } in
      ground (
        arith,
        length-insert k entry ((j, e) ∷ cache),
        length-insert k entry (remove j cache),
        length-remove-le j cache,
      )

  apply-le :
      (c : Call A) (cache : Cache A)
      → length cache ≤ max_agents_cached
      → length (apply c cache) ≤ max_agents_cached
  unfolding apply get_cached_rules put_cached_rules invalidate clear_all
  apply-le (got a none) cache h = h
  apply-le (got a (some v)) cache h = ground (arith, length-remove-le a cache)
  apply-le (put a none rules) cache h = h
  apply-le (put a (some v) rules) cache h = put-le a v rules cache h
  apply-le (invalidated a) cache h = omega (arith, length-remove-le a cache)
  apply-le cleared cache h = omega arith

  -- No sequence of calls makes the cache hold more than 256 agents, if it holds no more at first.
  pub apply_all-bounded :
      (cs : List (Call A)) (cache : Cache A)
      → length cache ≤ max_agents_cached
      → length (apply_all cs cache) ≤ max_agents_cached
  unfolding apply_all
  apply_all-bounded [] cache h = h
  apply_all-bounded (c ∷ cs) cache h = apply_all-bounded cs (apply c cache) (apply-le c cache h)

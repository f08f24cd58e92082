-- ===== src/Agent/Cache.antt =====
-- The cache of an agent's active rules: app/agent/orchestrator/cache.py. Every call holds the lock
-- of the module, so calls follow each other. An entry is versioned by `Agent.updated_at`.
pub mod Refinement
pub mod Capacity
use ops_knowledge.Prelude.{
  ℕ, ◌&&◌, not, ◌==◌, leb, if◌then◌else◌, Option, none, some, List, [], ◌∷◌, length,
}
use ops_knowledge.Prelude.Dict.{Dict, lookup, insert, remove, has_key}

abbrev pub max_agents_cached : ℕ
max_agents_cached = 256

pub record CacheEntry (A : Type 0) : Type 0 where
  pub updated_at : ℕ
  pub rules : List A

abbrev pub Cache : Type 0 → Type 0
Cache A = Dict (CacheEntry A)

module _ {A : Type 0} where
  unfoldable pub get_cached_rules : ℕ → Option ℕ → Cache A → Option (List A) × Cache A
  get_cached_rules agent_id none cache = (none, cache)
  get_cached_rules agent_id (some version) cache = elim (lookup agent_id cache) [
    | none ↦ (none, cache)
    | some entry ↦
        if entry.updated_at == version
        then (some entry.rules, cache)
        else (none, remove agent_id cache)
  ]

  -- The oldest key is the first of the dict.
  abbrev pub evict_oldest : Cache A → Cache A
  evict_oldest [] = []
  evict_oldest ((k, entry) ∷ cache) = remove k cache

  unfoldable pub put_cached_rules : ℕ → Option ℕ → List A → Cache A → Cache A
  put_cached_rules agent_id none rules cache = cache
  put_cached_rules agent_id (some version) rules cache =
      let room =
        if leb max_agents_cached (length cache) && not (has_key agent_id cache)
        then evict_oldest cache
        else cache in
      insert agent_id (record { updated_at = version; rules = rules }) room

  unfoldable pub invalidate : ℕ → Cache A → Cache A
  invalidate agent_id cache = remove agent_id cache

  unfoldable pub clear_all : Cache A → Cache A
  clear_all cache = []

-- One call of the module.
pub data Call (A : Type 0) : Type 0 where
  got : ℕ → Option ℕ → Call A
  put : ℕ → Option ℕ → List A → Call A
  invalidated : ℕ → Call A
  cleared : Call A

module _ {A : Type 0} where
  unfoldable pub apply : Call A → Cache A → Cache A
  apply (got agent_id version) cache = (get_cached_rules agent_id version cache).1
  apply (put agent_id version rules) cache = put_cached_rules agent_id version rules cache
  apply (invalidated agent_id) cache = invalidate agent_id cache
  apply cleared cache = clear_all cache

  -- A sequence of calls, the first of the list first.
  unfoldable pub apply_all : List (Call A) → Cache A → Cache A
  apply_all [] cache = cache
  apply_all (c ∷ cs) cache = apply_all cs (apply c cache)

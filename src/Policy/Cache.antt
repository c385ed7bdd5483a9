-- ===== src/Policy/Cache.antt =====
-- internal/policy/cache.go: the compiled policies of the agents, at most so many, the most recently
-- used first. The map from an agent to its entry is the search of the list for the agent.
use rebuno.Prelude.{
  Bool, List, Option, String, [], filter, find, if◌then◌else◌, length, ltb, none, not, some,
  string_eq, ℕ, ℕ_eq, ◌==◌, ◌∷◌,
}

pub record CacheEntry (Compiled : Type 0) : Type 0 where
  pub agent_id : String
  pub bundle : String
  pub engine : Compiled

pub record BundleCache (Compiled : Type 0) : Type 0 where
  pub capacity : ℕ
  pub entries : List (CacheEntry Compiled)

abbrev pub default_cache_size : ℕ
default_cache_size = 1024

module _ {Compiled : Type 0} where
  -- newBundleCache
  abbrev pub new_bundle_cache : ℕ → BundleCache Compiled
  new_bundle_cache capacity = record {
    capacity = if capacity == 0 then default_cache_size else capacity;
    entries = [];
  }

  abbrev pub is_of : String → CacheEntry Compiled → Bool
  is_of agent entry = entry.agent_id == agent

  abbrev pub others : String → List (CacheEntry Compiled) → List (CacheEntry Compiled)
  others agent entries = filter (λ entry. not (is_of agent entry)) entries

  -- evictOldest
  unfoldable pub without_oldest : List (CacheEntry Compiled) → List (CacheEntry Compiled)
  without_oldest [] = []
  without_oldest (e ∷ []) = []
  without_oldest (e ∷ f ∷ entries) = e ∷ without_oldest (f ∷ entries)

  abbrev pub evicted : BundleCache Compiled → BundleCache Compiled
  evicted c =
      if ltb c.capacity (length c.entries)
      then record c { entries = without_oldest c.entries }
      else c

  -- MoveToFront of an entry that is there
  abbrev pub to_front : CacheEntry Compiled → BundleCache Compiled → BundleCache Compiled
  to_front entry c = record c { entries = entry ∷ others entry.agent_id c.entries }

  abbrev pub entry_of : String → String → Compiled → CacheEntry Compiled
  entry_of agent bundle engine = record { agent_id = agent; bundle = bundle; engine = engine }

  module _ (compile : String → Option Compiled) (agent bundle : String) where
    abbrev compiled_anew :
        Option Compiled
        → (Compiled → BundleCache Compiled)
        → BundleCache Compiled
        → Option Compiled × BundleCache Compiled
    compiled_anew none stored c = (none, c)
    compiled_anew (some engine) stored c = (some engine, stored engine)

    -- getOrCompile
    unfoldable pub get_or_compile : BundleCache Compiled → Option Compiled × BundleCache Compiled
    unfolding filter find without_oldest
    get_or_compile c = elim (find (is_of agent) c.entries) [
      | some entry ↦
          if entry.bundle == bundle
          then (some entry.engine, to_front entry c)
          else compiled_anew (compile bundle) (λ engine. to_front (entry_of agent bundle engine) c)
              c
      | none ↦
          compiled_anew (compile bundle)
            (λ engine. evicted (record c { entries = entry_of agent bundle engine ∷ c.entries })) c
    ]

-- ===== src/Workers/Commands.antt =====
-- The commands of a worker of workers.go other than GetRateLimit: handleLoad, handleStore,
-- handleAddCacheItem and handleGetCacheItem, in a context that is not done.
use gubernator.Cache.Lru
use gubernator.Cache.Lru.{LruCache}
use gubernator.Prelude.{ℤ, String, List, [], ◌∷◌, ◌++◌, Option, Bool}
use gubernator.Types.{Float64, CacheItem, Metric}

module _ {F : Type 0} (fl : Float64 F) where
  unfoldable pub handle_load : ℤ → List (CacheItem F) → LruCache F → LruCache F × List (Metric F)
  handle_load now [] c = (c, [])
  handle_load now (item ∷ items) c =
      let (c', _, ms) = Lru.add fl now item c in
      let (c'', ms') = handle_load now items c' in (c'', ms' ++ ms)

  unfoldable pub handle_add_cache_item :
      ℤ → CacheItem F → LruCache F → LruCache F × Bool × List (Metric F)
  handle_add_cache_item now item c = Lru.add fl now item c

module _ {F : Type 0} where
  -- the items that are sent to the channel of the store request
  unfoldable pub handle_store : LruCache F → List (CacheItem F)
  handle_store c = Lru.each c

  unfoldable pub handle_get_cache_item :
      ℤ → String → LruCache F → LruCache F × Option (CacheItem F) × List (Metric F)
  handle_get_cache_item now key c = Lru.get_item now key c

-- ===== src/World.antt =====
-- What an algorithm of algorithms.go works on: the worker's cache, the persistent store behind
-- the interface of store.go, and the metrics; and the lookup that both algorithms begin with.
pub mod Fetch
pub mod Keeps
pub mod Miss
pub mod MockStore
use gubernator.Balance.{debt_at}
use gubernator.Cache.Lru
use gubernator.Cache.Lru.{LruCache}
use gubernator.Interval.{Calendar}
use gubernator.Prelude.{
  ℤ, String, List, [], ◌∷◌, ◌++◌, Option, none, some, Bool, ◌&&◌, str_eq, if◌then◌else◌,
}
use gubernator.Types.{Float64, CacheItem, Value, Metric, RateLimitReq, RateLimitResp, hash_key}

-- A persistent store with state `S`, which the user of the server implements.
pub record Store (F S : Type 0) : Type 0 where
  pub get : S → RateLimitReq → S × Option (CacheItem F)
  pub on_change : S → RateLimitReq → CacheItem F → S
  pub remove : S → String → S

-- What the code does not define: float64, the calendar, and the store, which may be nil.
pub record Runtime (F S T : Type 0) : Type 0 where
  pub fl : Float64 F
  pub cal : Calendar T
  pub store : Option (Store F S)

pub record World (F S : Type 0) : Type 0 where
  pub cache : LruCache F
  pub stored : S
  pub metrics : List (Metric F)

-- The two results of a handler, `(resp, nil)` and `(nil, err)`.
pub data Outcome : Type 0 where
  ok : RateLimitResp → Outcome
  err : String → Outcome

abbrev pub invalid_interval : String
invalid_interval =
    "behavior DURATION_IS_GREGORIAN is set; but `Duration` is not a valid gregorian interval"

module _ {F S T : Type 0} (rt : Runtime F S T) where
  unfoldable pub count_metrics : List (Metric F) → World F S → World F S
  count_metrics ms w = record w { metrics = ms ++ w.metrics }

  -- c.Add(item)
  unfoldable pub add_item : ℤ → CacheItem F → World F S → World F S
  add_item now item w =
      let (c, _, ms) = Lru.add rt.fl now item w.cache in
      record w { cache = c; metrics = ms ++ w.metrics }

  -- c.Remove(hashKey), and s.Remove(ctx, hashKey) where there is a store
  unfoldable pub remove_item : String → World F S → World F S
  remove_item key w = record w {
    cache = Lru.remove key w.cache;
    stored = elim rt.store [ none ↦ w.stored | some s ↦ s.remove w.stored key ];
  }

  -- A write through the pointer to the cached item.
  unfoldable pub write_back : String → CacheItem F → World F S → World F S
  write_back key item w = record w { cache = Lru.write_item key item w.cache }

  -- s.OnChange(ctx, r, item), where there is a store and this server owns the key
  unfoldable pub notify : Bool → RateLimitReq → CacheItem F → World F S → World F S
  notify is_owner r item w = elim rt.store [
    | none ↦ w
    | some s ↦ if is_owner then record w { stored = s.on_change w.stored r item } else w
  ]

  -- c.GetItem(hashKey)
  unfoldable pub read_cache : ℤ → String → World F S → World F S × Option (CacheItem F)
  read_cache now key w =
      let (c, found, ms) = Lru.get_item now key w.cache in
      (record w { cache = c; metrics = ms ++ w.metrics }, found)

  -- On a cache miss the store is asked, and what it has goes into the cache.
  unfoldable pub ask_store : ℤ → RateLimitReq → World F S → World F S × Option (CacheItem F)
  ask_store now r w = elim rt.store [
    | none ↦ (w, none)
    | some s ↦
        let (st, got) = s.get w.stored r in
        let w' : World F S = record w { stored = st } in
        elim got [ none ↦ (w', none) | some item ↦ (add_item now item w', some item) ]
  ]

  -- The sanity checks: an item with no value or with another key counts as not found.
  unfoldable pub sane : String → CacheItem F → Option (CacheItem F)
  sane key item = elim item.value [
    | Value.nil_value ↦ none
    | _ ↦ if str_eq item.key key then some item else none
  ]

  unfoldable pub fetch : ℤ → RateLimitReq → World F S → World F S × Option (CacheItem F)
  fetch now r w =
      let (w', found) = read_cache now (hash_key r) w in
      let (w'', item) : World F S × Option (CacheItem F) = elim found [
        | none ↦ ask_store now r w'
        | some i ↦ (w', some i)
      ] in
      (w'', elim item [ none ↦ none | some i ↦ sane (hash_key r) i ])

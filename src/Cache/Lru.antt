-- ===== src/Cache/Lru.antt =====
-- LRUCache of lrucache.go: a map from keys to list elements and a list of elements, front first.
use gubernator.Balance.{credited_leak, snap_to_zero, rate_of, zero_tokens}
use gubernator.Cache.Elements.{Element, find_element, remove_id, move_to_front, set_value, back}
use gubernator.Prelude.GoMap.{GoMap, lookup, insert, delete}
use gubernator.Prelude.{
  ℕ, suc, ℤ, String, List, [], ◌∷◌, ◌++◌, Option, none, some, Bool, true, false, not, ◌&&◌, ltb,
  ltb_ℤ, ◌==◌, if◌then◌else◌, length,
}
use gubernator.Types.{Float64, Value, CacheItem, is_expired, Metric}

pub record LruCache (F : Type 0) : Type 0 where
  pub cache : GoMap ℕ
  pub ll : List (Element F)
  pub cache_size : ℕ
  pub cache_len : ℕ
  -- the identity that the next new element gets
  pub next_id : ℕ

-- setter.SetDefault replaces a size of 0.
unfoldable pub new_lru_cache : {F : Type 0} → ℕ → LruCache F
new_lru_cache max_size = record {
  cache = [];
  ll = [];
  cache_size = if max_size == 0 then 50_000 else max_size;
  cache_len = 0;
  next_id = 0;
}

module _ {F : Type 0} where
  unfoldable pub remove_element : Element F → LruCache F → LruCache F
  remove_element e c =
      let ll = remove_id e.id c.ll in
      record c { cache = delete e.value.key c.cache; ll = ll; cache_len = length ll }

  -- the element that the map has for a key
  unfoldable pub element_of : String → LruCache F → Option (Element F)
  element_of key c = elim (lookup key c.cache) [ none ↦ none | some e ↦ find_element e c.ll ]

  unfoldable pub get_item :
      ℤ → String → LruCache F → LruCache F × Option (CacheItem F) × List (Metric F)
  get_item now key c = elim (element_of key c) [
    | none ↦ (c, none, Metric.cache_miss ∷ [])
    | some e ↦
        if is_expired now e.value
        then (remove_element e c, none, Metric.cache_miss ∷ [])
        else (record c { ll = move_to_front e.id c.ll }, some e.value, Metric.cache_hit ∷ [])
  ]

  unfoldable pub remove : String → LruCache F → LruCache F
  remove key c = elim (element_of key c) [ none ↦ c | some e ↦ remove_element e c ]

  -- A write through the pointer to the cached item with the given key.
  unfoldable pub write_item : String → CacheItem F → LruCache F → LruCache F
  write_item key item c = elim (element_of key c) [
    | none ↦ c
    | some e ↦ record c { ll = set_value e.id item c.ll }
  ]

  unfoldable pub update_expiration : String → ℤ → LruCache F → LruCache F × Bool
  update_expiration key expire_at c = elim (element_of key c) [
    | none ↦ (c, false)
    | some e ↦
        (record c { ll = set_value e.id (record (e.value) { expire_at = expire_at }) c.ll }, true)
  ]

  unfoldable pub size : LruCache F → ℕ
  size c = c.cache_len

  -- the items in the order of the map's iteration, which Go leaves open
  unfoldable pub each_of : List (Element F) → GoMap ℕ → List (CacheItem F)
  each_of ll [] = []
  each_of ll ((k, e) ∷ m) =
      let rest = each_of ll m in elim (find_element e ll) [ none ↦ rest | some x ↦ x.value ∷ rest ]

  unfoldable pub each : LruCache F → List (CacheItem F)
  each c = each_of c.ll c.cache

  abbrev pub push_front : CacheItem F → LruCache F → LruCache F
  push_front item c = record c {
    cache = insert item.key c.next_id c.cache;
    ll = record { id = c.next_id; value = item } ∷ c.ll;
    next_id = suc c.next_id;
  }

  module _ (fl : Float64 F) where
    unfoldable pub evicted_debt : ℤ → CacheItem F → F
    evicted_debt now item = elim item.value [
      | Value.leaky b ↦
          let rate = rate_of fl b.duration b.limit in
          let balance : F =
            if fl.lt (zero_tokens fl) rate
            then fl.add b.remaining (credited_leak fl b now rate)
            else b.remaining in
          fl.max (zero_tokens fl) (fl.neg (snap_to_zero fl balance))
      | _ ↦ zero_tokens fl
    ]

    unfoldable pub eviction_metrics : ℤ → CacheItem F → List (Metric F)
    eviction_metrics now entry =
        let lost = evicted_debt now entry in
        (if fl.lt (zero_tokens fl) lost
          then Metric.debt_lost_tokens lost ∷ Metric.debt_eviction ∷ []
          else [])
        ++ (if ltb_ℤ now entry.expire_at then Metric.unexpired_eviction ∷ [] else [])

    unfoldable pub remove_oldest : ℤ → LruCache F → LruCache F × List (Metric F)
    remove_oldest now c = elim (back c.ll) [
      | none ↦ (c, [])
      | some e ↦ (remove_element e c, eviction_metrics now e.value)
    ]

    -- the eviction that follows a push, when the list is longer than it may be
    unfoldable pub evict : ℤ → LruCache F → LruCache F × List (Metric F)
    evict now c =
        if not (c.cache_size == 0) && ltb c.cache_size (length c.ll)
        then remove_oldest now c
        else (c, [])

    unfoldable pub add_new : ℤ → CacheItem F → LruCache F → LruCache F × Bool × List (Metric F)
    add_new now item c =
        let (kept, metrics) = evict now (push_front item c) in
        (record kept { cache_len = length kept.ll }, false, metrics)

    unfoldable pub add : ℤ → CacheItem F → LruCache F → LruCache F × Bool × List (Metric F)
    add now item c = elim (lookup item.key c.cache) [
      | none ↦ add_new now item c
      | some e ↦ (record c { ll = set_value e item (move_to_front e c.ll) }, true, [])
    ]

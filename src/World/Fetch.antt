-- ===== src/World/Fetch.antt =====
-- The lookup that tokenBucket and leakyBucket begin with, and their writes, against the list of
-- items that the cache stands for.
use gubernator.Cache.Invariant.{IsValid, items}
use gubernator.Cache.Refinement.{get_item_hit, write_item-refines}
use gubernator.Cache.Spec.{find_item, replace_item}
use gubernator.Prelude.{
  ℤ, String, List, [], ◌∷◌, some, Bool, false, ◌≡◌, ◌≢◌, refl, ap, sym, subst, arith, eq_iff,
}
use gubernator.Types.{CacheItem, Value, Metric, RateLimitReq, hash_key, is_expired}
use gubernator.World.{Runtime, World, fetch, read_cache, sane, write_back, notify, count_metrics}

module _ {F : Type 0} where
  pub find_item-key :
      (k : String) (l : List (CacheItem F)) (i : CacheItem F) → find_item k l ≡ some i → i.key ≡ k
  unfolding find_item
  find_item-key k [] i h = absurd (cc)
  find_item-key k (j ∷ l) i h = ground (arith, eq_iff j.key k, find_item-key k l i)

  pub find-replace :
      (k : String) (l : List (CacheItem F)) (i i' : CacheItem F)
      → find_item k l ≡ some i
      → i'.key ≡ k
      → find_item k (replace_item k i' l) ≡ some i'
  unfolding find_item replace_item
  find-replace k [] i i' h e = absurd (cc)
  find-replace k (j ∷ l) i i' h e = ground (arith, eq_iff i'.key k, find-replace k l i i')

  pub find_head :
      (k : String) (l : List (CacheItem F)) (i : CacheItem F)
      → i.key ≡ k
      → find_item k (i ∷ l) ≡ some i
  unfolding find_item
  find_head k l i e = ground (arith, eq_iff i.key k)

-- The cache is in order, and holds an item for a key.
pub record Holding {F S : Type 0} (w : World F S) (key : String) (item : CacheItem F) : Type 0 where
  pub valid : IsValid w.cache
  pub found : find_item key (items w.cache) ≡ some item

module _ {F S T : Type 0} (rt : Runtime F S T) where
  pub Holding-key :
      {w : World F S} {key : String} {item : CacheItem F} → Holding w key item → item.key ≡ key
  Holding-key {w} {key} {item} h = find_item-key key (items w.cache) item h.found

  sane_hit :
      (key : String) (item : CacheItem F)
      → item.key ≡ key
      → item.value ≢ Value.nil_value
      → sane rt key item ≡ some item
  unfolding sane
  sane_hit key item e valued = ground (arith, eq_iff item.key key)

  -- A live item with a value is found, and stays where it can be found.
  fetch_split :
      (now : ℤ) (r : RateLimitReq) (w : World F S) (item : CacheItem F)
      → Holding w (hash_key r) item
      → is_expired now item ≡ false
      → item.value ≢ Value.nil_value
      → (w' : World F S) × (fetch rt now r w ≡ (w', some item))
        × Holding w' (hash_key r) item
        × (w'.stored ≡ w.stored)
  unfolding fetch read_cache sane
  fetch_split now r w item h live valued =
      let (valid, listed, got) = get_item_hit now (hash_key r) w.cache item h.valid h.found live in
      (
        (read_cache rt now (hash_key r) w).0,
        rw (got, fetch)
            (ap (λ o. ((read_cache rt now (hash_key r) w).0, o))
              (sane_hit (hash_key r) item (Holding-key h) valued)),
        record { valid = valid; found = rw listed (find_head (hash_key r) _ item (Holding-key h)) },
        refl,
      )

  pub fetch_hit :
      (now : ℤ) (r : RateLimitReq) (w : World F S) (item : CacheItem F)
      → Holding w (hash_key r) item
      → is_expired now item ≡ false
      → item.value ≢ Value.nil_value
      → ((fetch rt now r w).1 ≡ some item)
        × Holding (fetch rt now r w).0 (hash_key r) item
        × ((fetch rt now r w).0.stored ≡ w.stored)
  fetch_hit now r w item h live valued =
      let (w', e, held, kept) = fetch_split now r w item h live valued in
      let same : w' ≡ (fetch rt now r w).0 = sym (ap (λ p. p.0) e) in
      (
        ap (λ p. p.1) e,
        subst (λ v. Holding v (hash_key r) item) same held,
        subst (λ (v : World F S). v.stored ≡ w.stored) same kept,
      )

  pub notify-cache :
      (o : Bool) (r : RateLimitReq) (i : CacheItem F) (w : World F S)
      → (notify rt o r i w).cache ≡ w.cache
  unfolding notify
  notify-cache o r i w = ground arith

  pub notify-Holding :
      (o : Bool) (r : RateLimitReq) (i : CacheItem F) (w : World F S) (key : String)
      (item : CacheItem F)
      → Holding w key item
      → Holding (notify rt o r i w) key item
  notify-Holding o r i w key item h = record {
    valid = rw (notify-cache o r i w) h.valid;
    found = rw (notify-cache o r i w) h.found;
  }

  pub count-Holding :
      (ms : List (Metric F)) (w : World F S) (key : String) (item : CacheItem F)
      → Holding w key item
      → Holding (count_metrics rt ms w) key item
  unfolding count_metrics
  count-Holding ms w key item h = record { valid = h.valid; found = h.found }

  -- A write through the pointer is what the next lookup finds.
  pub write_back-Holding :
      (w : World F S) (key : String) (item item' : CacheItem F)
      → Holding w key item
      → item'.key ≡ key
      → Holding (write_back rt key item' w) key item'
  unfolding write_back
  write_back-Holding w key item item' h e =
      let (valid, listed) = write_item-refines key item' w.cache h.valid e in
      record {
        valid = valid;
        found = rw listed (find-replace key (items w.cache) item item' h.found e);
      }

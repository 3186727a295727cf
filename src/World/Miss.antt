-- ===== src/World/Miss.antt =====
-- A key that the cache does not hold, or holds expired, when there is no persistent store; and an
-- item that has just been added.
use gubernator.Cache.Elements.{Element}
use gubernator.Cache.Index.{items_of, index-remove, find_item-index_none}
use gubernator.Cache.Invariant.{IsValid, items, Holds-cases}
use gubernator.Cache.Lru
use gubernator.Cache.Lru.{LruCache, remove_element}
use gubernator.Cache.Refinement.{get_item-refines, remove-refines}
use gubernator.Cache.Eviction.{add-refines, is_full}
use gubernator.Cache.Spec.{find_item, drop_last, get_spec, add_spec}
use gubernator.Prelude.{
  ℕ, suc, ℤ, String, List, [], ◌∷◌, none, some, true, not, ◌&&◌, ◌≡◌, ◌⊎◌, inl, inr, refl, ap, ◌∙◌,
  arith, length, ltb, ◌==◌, Bool-cases, Option-cases, eq_refl,
}
use gubernator.Types.{CacheItem, RateLimitReq, hash_key, is_expired}
use gubernator.World.Fetch.{Holding, find_head}
use gubernator.World.{Runtime, World, fetch, read_cache, ask_store, add_item, remove_item}

-- Nothing live is cached for the key.
abbrev pub Absent : {F S : Type 0} → ℤ → String → World F S → Type 0
Absent {F} now key w =
    (find_item key (items w.cache) ≡ none)
    ⊎ ((i : CacheItem F) × (find_item key (items w.cache) ≡ some i) × (is_expired now i ≡ true))

module _ {F : Type 0} where
  get_spec_miss :
      (now : ℤ) (key : String) (l : List (CacheItem F))
      → ((find_item key l ≡ none)
          ⊎ ((i : CacheItem F) × (find_item key l ≡ some i) × (is_expired now i ≡ true)))
      → (get_spec now key l).1 ≡ none
  unfolding get_spec
  get_spec_miss now key l (inl e) = rw (e, get_spec)
  get_spec_miss now key l (inr (i, e, x)) = rw (e, get_spec) (rw x)

  -- The list keeps the item that was just pushed, however full it is.
  pushed_stays :
      (size : ℕ) (item : CacheItem F) (l : List (Element F))
      → (not (size == 0) && ltb size (suc (length l))) ≡ true
      → find_item item.key (drop_last (item ∷ items_of l)) ≡ some item
  unfolding drop_last
  pushed_stays size item [] full = absurd (ground arith)
  pushed_stays size item (x ∷ l) full = find_head item.key _ item refl

  added_is_found :
      (item : CacheItem F) (c : LruCache F)
      → find_item item.key (add_spec (is_full c) item (items c)) ≡ some item
  unfolding add_spec
  added_is_found item c = elim (Option-cases (find_item item.key (items c))) [
    | inl e ↦
        rw (e, add_spec)
          (elim (Bool-cases (is_full c)) [
            | inl full ↦ rw full (pushed_stays c.cache_size item c.ll full)
            | inr room ↦ rw room (find_head item.key _ item refl)
          ])
    | inr (i, e) ↦ rw (e, add_spec) (find_head item.key _ item refl)
  ]

module _ {F S T : Type 0} (rt : Runtime F S T) where
  pub fetch_miss :
      (now : ℤ) (r : RateLimitReq) (w : World F S)
      → rt.store ≡ none
      → IsValid w.cache
      → Absent now (hash_key r) w
      → ((fetch rt now r w).1 ≡ none) × IsValid (fetch rt now r w).0.cache
  unfolding fetch read_cache ask_store
  fetch_miss now r w no_store v h =
      let (valid, same) = get_item-refines now (hash_key r) w.cache v in
      let missed : (Lru.get_item now (hash_key r) w.cache).1 ≡ none =
        ap (λ p. p.1) same ∙ get_spec_miss now (hash_key r) (items w.cache) h in
      rw (missed, fetch) (rw (no_store, ask_store) (refl, valid))

  -- After Add on a cache in order, the cache is in order and finds the added item under its key,
  -- even when the cache was full.
  pub add_item-Holding :
      (now : ℤ) (item : CacheItem F) (w : World F S)
      → IsValid w.cache
      → Holding (add_item rt now item w) item.key item
  unfolding add_item
  add_item-Holding now item w v =
      let (valid, listed, _) = add-refines rt.fl now item w.cache v in
      record { valid = valid; found = rw listed (added_is_found item w.cache) }

  -- After a removal the cache holds nothing for the key.
  pub find-remove_item :
      (k : String) (w : World F S)
      → IsValid w.cache
      → IsValid (remove_item rt k w).cache × (find_item k (items (remove_item rt k w).cache) ≡ none)
  unfolding remove_item Lru.remove remove_element
  find-remove_item k w v = elim (Holds-cases k w.cache v.indexed) [
    | inl (e, at) ↦ rw (e, Lru.remove) (v, find_item-index_none k w.cache.ll at)
    | inr (x, h) ↦ (
      (remove-refines k w.cache v).0,
      rw (h.element, Lru.remove)
          (find_item-index_none k _
            (index-remove k k x.id w.cache.ll h.at v.distinct ∙ ground (arith, eq_refl k))),
    )
  ]

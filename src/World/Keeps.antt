-- ===== src/World/Keeps.antt =====
-- A property of every cached item, kept by the steps that tokenBucket and leakyBucket are made of.
use gubernator.Cache.Every.{All-drop, All-replace, All-get_spec, All-add_spec, found_of_get_spec}
use gubernator.Cache.Invariant.{IsValid, items}
use gubernator.Cache.Refinement.{get_item-refines, write_item-refines, remove-refines}
use gubernator.Cache.Eviction.{add-refines, is_full}
use gubernator.Prelude.{
  ℤ, String, List, Option, none, some, Bool, ◌≡◌, refl, ap, sym, subst, ◌∙◌, arith, All,
  Option-cases, inl, inr,
}
use gubernator.Types.{CacheItem, Metric, RateLimitReq, hash_key}
use gubernator.World.Fetch.{notify-cache}
use gubernator.World.{
  Runtime, World, Store, fetch, read_cache, ask_store, sane, write_back, notify, add_item,
  remove_item, count_metrics,
}

-- The cache is in order and all its items have the property.
pub record Keeps {F S : Type 0} (P : CacheItem F → Type 0) (w : World F S) : Type 0 where
  pub valid : IsValid w.cache
  pub every : All P (items w.cache)

-- What a lookup found has the property.
abbrev pub Found : {F : Type 0} → (CacheItem F → Type 0) → Option (CacheItem F) → Type 0
Found P none = Unit
Found P (some i) = P i

module _ {F S T : Type 0} (rt : Runtime F S T) (P : CacheItem F → Type 0) where
  -- The items of the persistent store have the property.
  abbrev pub StoreKeeps : Type 0
  StoreKeeps =
      (s : Store F S) (st : S) (r : RateLimitReq) → rt.store ≡ some s → Found P (s.get st r).1

  pub count-Keeps :
      (ms : List (Metric F)) (w : World F S) → Keeps P w → Keeps P (count_metrics rt ms w)
  unfolding count_metrics
  count-Keeps ms w h = record { valid = h.valid; every = h.every }

  pub add_item-Keeps :
      (now : ℤ) (i : CacheItem F) (w : World F S) → P i → Keeps P w → Keeps P (add_item rt now i w)
  unfolding add_item
  add_item-Keeps now i w p h =
      let (valid, listed, _) = add-refines rt.fl now i w.cache h.valid in
      record {
        valid = valid;
        every =
            subst (All P) (sym listed)
              (All-add_spec P (is_full w.cache) i (items w.cache) p h.every);
      }

  pub remove_item-Keeps : (k : String) (w : World F S) → Keeps P w → Keeps P (remove_item rt k w)
  unfolding remove_item
  remove_item-Keeps k w h =
      let (valid, listed) = remove-refines k w.cache h.valid in
      record {
        valid = valid;
        every = subst (All P) (sym listed) (All-drop P k (items w.cache) h.every);
      }

  pub write_back-Keeps :
      (k : String) (i : CacheItem F) (w : World F S)
      → i.key ≡ k
      → P i
      → Keeps P w
      → Keeps P (write_back rt k i w)
  unfolding write_back
  write_back-Keeps k i w e p h =
      let (valid, listed) = write_item-refines k i w.cache h.valid e in
      record {
        valid = valid;
        every = subst (All P) (sym listed) (All-replace P k i (items w.cache) p h.every);
      }

  pub notify-Keeps :
      (o : Bool) (r : RateLimitReq) (i : CacheItem F) (w : World F S)
      → Keeps P w
      → Keeps P (notify rt o r i w)
  notify-Keeps o r i w h = record {
    valid = rw (notify-cache rt o r i w) h.valid;
    every = rw (notify-cache rt o r i w) h.every;
  }

  Found-of : (o : Option (CacheItem F)) → ((i : CacheItem F) → o ≡ some i → P i) → Found P o
  Found-of none h = tt
  Found-of (some i) h = h i refl

  Found-sane :
      (k : String) (o : Option (CacheItem F))
      → Found P o
      → Found P (elim o [ none ↦ none | some i ↦ sane rt k i ])
  unfolding sane
  Found-sane k none h = tt
  Found-sane k (some i) h = Found-of _ (λ j e. subst P (ground arith) h)

  read_cache-Keeps :
      (now : ℤ) (k : String) (w : World F S)
      → Keeps P w
      → Keeps P (read_cache rt now k w).0 × Found P (read_cache rt now k w).1
  unfolding read_cache
  read_cache-Keeps now k w h =
      let (valid, same) = get_item-refines now k w.cache h.valid in
      (
        record {
          valid = valid;
          every =
              subst (All P) (sym (ap (λ p. p.0) same))
                (All-get_spec P now k (items w.cache) h.every);
        },
        Found-of _ (λ i e.
            found_of_get_spec P now k (items w.cache) i h.every (sym (ap (λ p. p.1) same) ∙ e)),
      )

  stored-Keeps : (st : S) (w : World F S) → Keeps P w → Keeps P (record w { stored = st })
  stored-Keeps st w h = record { valid = h.valid; every = h.every }

  ask_store-Keeps :
      (now : ℤ) (r : RateLimitReq) (w : World F S)
      → StoreKeeps
      → Keeps P w
      → Keeps P (ask_store rt now r w).0 × Found P (ask_store rt now r w).1
  unfolding ask_store
  ask_store-Keeps now r w keeps h = elim (Option-cases rt.store) [
    | inl e ↦ rw (e, ask_store) (h, tt)
    | inr (s, e) ↦
        let h' = stored-Keeps (s.get w.stored r).0 w h in
        elim (Option-cases (s.get w.stored r).1) [
          | inl missing ↦ rw (e, ask_store) (rw missing (h', tt))
          | inr (i, got) ↦
              let p : P i = subst (Found P) got (keeps s w.stored r e) in
              rw (e, ask_store) (rw got (add_item-Keeps now i _ p h', p))
        ]
  ]

  pub fetch-Keeps :
      (now : ℤ) (r : RateLimitReq) (w : World F S)
      → StoreKeeps
      → Keeps P w
      → Keeps P (fetch rt now r w).0 × Found P (fetch rt now r w).1
  unfolding fetch
  fetch-Keeps now r w keeps h =
      let (read, f) = read_cache-Keeps now (hash_key r) w h in
      elim (Option-cases (read_cache rt now (hash_key r) w).1) [
        | inl missing ↦
            let (asked, got) =
              ask_store-Keeps now r (read_cache rt now (hash_key r) w).0 keeps read in
            rw (missing, fetch) (asked, Found-sane (hash_key r) _ got)
        | inr (i, hit) ↦
            rw (hit, fetch) (read, Found-sane (hash_key r) (some i) (subst (Found P) hit f))
      ]

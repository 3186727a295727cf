-- ===== src/Service/Restart.antt =====
-- A pool that loads what another pool of the same size stored answers every key the same: Store and
-- Load of workers.go around MockLoader of store.go.
use gubernator.Cache.Invariant.{IsValid, items}
use gubernator.Cache.Lru.{LruCache, new_lru_cache}
use gubernator.Cache.Refinement.{get_item-refines}
use gubernator.Cache.Spec.{find_item, get_spec}
use gubernator.Interval.{epoch_millis}
use gubernator.Prelude.Keys.{Unique}
use gubernator.Prelude.{
  ℕ, zero, suc, ◌<◌, ℤ, String, List, [], ◌∷◌, ◌++◌, map, Option, none, some, true, ◌≡◌, refl, ap,
  sym, ◌∙◌, inl, inr, arith, All, length, get_elem?, Bool-cases, Option-cases,
}
use gubernator.Service.Handlers.{Pool}
use gubernator.Service.Persist.{
  stored_items, have_workers, load_workers, load_items, load, store, get_cache_item, MockLoader,
  new_mock_loader, mock_load, mock_save, mock_loader,
}
use gubernator.Types.{CacheItem, is_expired}
use gubernator.Workers.Commands.{handle_load, handle_store, handle_get_cache_item}
use gubernator.Workers.Reload.{reload}
use gubernator.Workers.Ring.{worker_index, compute_hash63}
use gubernator.World.{Runtime}
use gubernator.Service.Shares.{RoutedFrom, Splits, Splits-stored, have_workers-stored}

-- The same number of workers, with new caches of the same sizes.
abbrev pub restarted : {F S : Type 0} → Pool F S → Pool F S
restarted p = record {
  caches = map (λ c. new_lru_cache c.cache_size) p.caches;
  stored = p.stored;
  metrics = [];
}

module _ {F S T : Type 0} (rt : Runtime F S T) (sum : String → ℕ) where
  -- A cache in order with one entry for each key in its map and a size.
  abbrev pub IsStorable : LruCache F → Type 0
  IsStorable c = IsValid c × Unique c.cache × (0 < c.cache_size)

  get_spec-found :
      (now : ℤ) (k : String) (l l' : List (CacheItem F))
      → find_item k l ≡ find_item k l'
      → (get_spec now k l).1 ≡ (get_spec now k l').1
  unfolding get_spec
  get_spec-found now k l l' e = elim (Option-cases (find_item k l')) [
    | inl gone ↦ rw (e ∙ gone, get_spec) (rw (gone, get_spec) refl)
    | inr (x, at) ↦ elim (Bool-cases (is_expired now x)) [
      | inl old ↦ rw (e ∙ at, get_spec) (rw (at, get_spec) (rw old refl))
      | inr live ↦ rw (e ∙ at, get_spec) (rw (at, get_spec) (rw live refl))
    ]
  ]

  -- What the cache at an index finds.
  abbrev pub found_at : ℤ → String → List (LruCache F) → ℕ → Option (Option (CacheItem F))
  found_at now key cs j = elim (get_elem? cs j) [
    | none ↦ none
    | some c ↦ some (handle_get_cache_item now key c).1
  ]

  loaded_same :
      (at : T) (later : ℤ) (n i : ℕ) (out : List (CacheItem F)) (cs : List (LruCache F))
      (key : String) (j : ℕ)
      → All IsStorable cs
      → Splits rt sum n i out cs
      → found_at later key
          (load_workers rt sum at n i out (map (λ c. new_lru_cache c.cache_size) cs)).0
          j
        ≡ found_at later key cs j
  unfolding load_workers handle_get_cache_item
  loaded_same at later n i out [] key j h s = refl
  loaded_same at later n i out (c ∷ cs) key zero h s =
      let (valid, same) = reload rt.fl (epoch_millis rt.cal at) c key h.0.0 h.0.1 h.0.2 in
      let again =
        (handle_load rt.fl (epoch_millis rt.cal at) (handle_store c)
          (new_lru_cache c.cache_size)).0 in
      let new_found =
        ap (λ (r : List (CacheItem F) × Option (CacheItem F)). r.1)
          (get_item-refines later key again valid).1 in
      let old_found =
        ap (λ (r : List (CacheItem F) × Option (CacheItem F)). r.1)
          (get_item-refines later key c h.0.0).1 in
      rw (s.0) (
        ap some (new_found ∙ get_spec-found later key (items again) (items c) same ∙ sym old_found))
  loaded_same at later n i out (c ∷ cs) key (suc j) h s =
      loaded_same at later n (suc i) out cs key j h.1 s.1

  length-load_workers :
      (at : T) (n i : ℕ) (out : List (CacheItem F)) (cs : List (LruCache F))
      → length (load_workers rt sum at n i out cs).0 ≡ length cs
  unfolding load_workers
  length-load_workers at n i out [] = refl
  length-load_workers at n i out (c ∷ cs) = ap suc (length-load_workers at n (suc i) out cs)

  length-fresh :
      (cs : List (LruCache F))
      → length (map (λ (c : LruCache F). new_lru_cache {F = F} c.cache_size) cs) ≡ length cs
  length-fresh [] = refl
  length-fresh (c ∷ cs) = ap suc (length-fresh cs)

  -- The item that GetCacheItem finds.
  abbrev pub item_found : T → String → Pool F S → Option (Option (CacheItem F))
  item_found at key p = elim (get_cache_item rt sum at key p) [
    | none ↦ none
    | some (p', found) ↦ some found
  ]

  pub item_found_lem :
      (at : T) (key : String) (p : Pool F S)
      → item_found at key p
        ≡ found_at
            (epoch_millis rt.cal at)
            key
            p.caches
            (worker_index (length p.caches) (compute_hash63 sum key))
  unfolding get_cache_item
  item_found_lem at key p =
      elim (Option-cases
        (get_elem? p.caches (worker_index (length p.caches) (compute_hash63 sum key)))) [
          | inl e ↦ rw (e, item_found, get_cache_item) (rw (e, found_at) refl)
          | inr (c, e) ↦ rw (e, item_found, get_cache_item) (rw (e, found_at) refl)
        ]

  load_mock :
      (at : T) (ml : MockLoader F) (p p' : Pool F S)
      → load_items rt sum at ml.cache_items p ≡ some p'
      → load rt sum mock_loader at ml p ≡ some ((mock_load ml).0, p', none)
  unfolding load mock_load
  load_mock at ml p p' e = rw (e, load) refl

  -- When each cache of a pool is in order, has one entry for each key and a size, and holds only
  -- keys that are its worker's, then Store into the mock loader succeeds, Load of what it saved
  -- into new caches of the same sizes succeeds without a panic, and GetCacheItem then finds, for
  -- each key and at each time, what it found before.
  pub load-store :
      (at later : T) (p : Pool F S)
      → All IsStorable p.caches
      → RoutedFrom rt sum (length p.caches) 0 p.caches
      → let saved = store mock_loader new_mock_loader p in
        (saved.1 ≡ none)
        × ((l : MockLoader F) × (p' : Pool F S) × (load rt sum mock_loader at saved.0 (restarted p)
              ≡ some (l, p', none))
            × ((key : String) → item_found later key p' ≡ item_found later key p))
  unfolding store load_items mock_load mock_save new_mock_loader
  load-store at later p h r =
      let n = length p.caches in
      let out = stored_items p.caches in
      let fresh : Pool F S = restarted p in
      let count : length fresh.caches ≡ n = length-fresh p.caches in
      let cs = load_workers rt sum at (length fresh.caches) 0 out fresh.caches in
      let p' : Pool F S = record fresh { caches = cs.0; metrics = cs.1 ++ [] } in
      let fit : have_workers rt sum (length fresh.caches) out ≡ true =
        ap (λ (m : ℕ). have_workers rt sum m out) count
        ∙ have_workers-stored rt sum n 0 p.caches (omega arith) r in
      let sized : length p'.caches ≡ n =
        length-load_workers at (length fresh.caches) 0 out fresh.caches ∙ count in
      let loaded : load_items rt sum at out fresh ≡ some p' = rw (fit, load_items) refl in
      (
        refl,
        (
          (mock_load {F = F} (store mock_loader new_mock_loader p).0).0,
          p',
          load_mock at (store mock_loader new_mock_loader p).0 fresh p' loaded,
          λ key.
              let i = worker_index n (compute_hash63 sum key) in
              let moved : found_at (epoch_millis rt.cal later) key p'.caches
                    (worker_index (length p'.caches) (compute_hash63 sum key))
                  ≡ found_at (epoch_millis rt.cal later) key p.caches i =
                ap
                  (λ (m : ℕ).
                    found_at (epoch_millis rt.cal later) key p'.caches
                      (worker_index m (compute_hash63 sum key)))
                  sized
                ∙ ap
                    (λ (m : ℕ).
                      found_at (epoch_millis rt.cal later) key
                        (load_workers rt sum at m 0 out fresh.caches).0 i)
                    count
                ∙ loaded_same at (epoch_millis rt.cal later) n 0 out p.caches key i h
                    (Splits-stored rt sum n 0 [] p.caches tt r) in
              item_found_lem later key p' ∙ moved ∙ sym (item_found_lem later key p),
        ),
      )

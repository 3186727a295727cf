-- ===== src/Service/Persist.antt =====
-- NewWorkerPool, Load, Store and GetCacheItem of workers.go, and MockLoader of store.go, an
-- implementation of the Loader interface.
use Prim.Native.String.{◌++◌ as join}
use gubernator.Cache.Lru.{LruCache, new_lru_cache}
use gubernator.Interval.{epoch_millis}
use gubernator.Prelude.GoMap.{GoMap, insert}
use gubernator.Prelude.{
  ℕ, zero, suc, ◌/◌, String, List, [], ◌∷◌, ◌++◌, Option, none, some, Bool, true, ◌&&◌, ltb, ◌==◌,
  if◌then◌else◌, length, get_elem?,
}
use gubernator.Service.Handlers.{Pool, after}
use gubernator.Types.{CacheItem, Metric}
use gubernator.Workers.Commands.{handle_load, handle_store, handle_get_cache_item}
use gubernator.Workers.Ring.{worker_index, compute_hash63}
use gubernator.World.{Runtime}
use gubernator.World.MockStore.{count_call}

-- What a loader reads, or its error.
pub data Loaded (F : Type 0) : Type 0 where
  channel : List (CacheItem F) → Loaded F
  load_err : String → Loaded F

-- The Loader interface, with a state `L`.
pub record Loader (F L : Type 0) : Type 0 where
  pub load : L → L × Loaded F
  pub save : L → List (CacheItem F) → L × Option String

abbrev pub repeat : {A : Type 0} → ℕ → A → List A
repeat zero x = []
repeat (suc n) x = x ∷ repeat n x

-- setter.SetDefault(&conf.CacheSize, 50_000)
abbrev pub default_cache_size : ℕ → ℕ
default_cache_size n = if n == 0 then 50_000 else n

unfoldable pub worker_cache_size : ℕ → ℕ → ℕ
worker_cache_size cache_size workers = default_cache_size cache_size / workers

-- NewWorkerPool with the LRU cache's factory.
unfoldable pub new_worker_pool : {F S : Type 0} → ℕ → ℕ → S → Pool F S
new_worker_pool cache_size workers st = record {
  caches = repeat workers (new_lru_cache (worker_cache_size cache_size workers));
  stored = st;
  metrics = [];
}

unfoldable pub stored_items : {F : Type 0} → List (LruCache F) → List (CacheItem F)
stored_items [] = []
stored_items (c ∷ cs) = handle_store c ++ stored_items cs

-- WorkerPool.Store; the workers send their items in turn.
unfoldable pub store : {F S L : Type 0} → Loader F L → L → Pool F S → L × Option String
store loader l p =
    let (l', failed) = loader.save l (stored_items p.caches) in
    (
      l',
      elim failed [ none ↦ none | some e ↦ some (join "while calling p.conf.Loader.Save(): " e) ],
    )

module _ {F S T : Type 0} (rt : Runtime F S T) (sum : String → ℕ) where
  abbrev pub worker_of : ℕ → CacheItem F → ℕ
  worker_of n item = worker_index n (compute_hash63 sum item.key)

  -- The items that come to the worker at an index, in their order.
  unfoldable pub items_for : ℕ → ℕ → List (CacheItem F) → List (CacheItem F)
  items_for n i [] = []
  items_for n i (item ∷ rest) =
      let others = items_for n i rest in if worker_of n item == i then item ∷ others else others

  -- getWorker on every item; an index outside the slice is a panic.
  unfoldable pub have_workers : ℕ → List (CacheItem F) → Bool
  have_workers n [] = true
  have_workers n (item ∷ rest) = ltb (worker_of n item) n && have_workers n rest

  -- Each worker loads the items of its channel; `i` is the index of the first.
  unfoldable pub load_workers :
      T → ℕ → ℕ → List (CacheItem F) → List (LruCache F) → List (LruCache F) × List (Metric F)
  load_workers now n i items [] = ([], [])
  load_workers now n i items (c ∷ cs) =
      let (c', ms) = handle_load rt.fl (epoch_millis rt.cal now) (items_for n i items) c in
      let (cs', ms') = load_workers now n (suc i) items cs in (c' ∷ cs', ms' ++ ms)

  -- The pool with the loaded items.
  unfoldable pub load_items : T → List (CacheItem F) → Pool F S → Option (Pool F S)
  load_items now items p =
      let n = length p.caches in
      let (cs, ms) = load_workers now n 0 items p.caches in
      if have_workers n items
      then some (record p { caches = cs; metrics = ms ++ p.metrics })
      else none

  module _ {L : Type 0} (loader : Loader F L) where
    -- WorkerPool.Load: the loader's state, the pool, and the error if there is one.
    unfoldable pub load : T → L → Pool F S → Option (L × Pool F S × Option String)
    load now l p =
        let (l', read) = loader.load l in
        elim read [
          | Loaded.load_err e ↦ some (l', p, some (join "Error in loader.Load: " e))
          | Loaded.channel items ↦ elim (load_items now items p) [
            | none ↦ none
            | some p' ↦ some (l', p', none)
          ]
        ]

  -- WorkerPool.GetCacheItem
  unfoldable pub get_cache_item : T → String → Pool F S → Option (Pool F S × Option (CacheItem F))
  get_cache_item now key p =
      let i = worker_index (length p.caches) (compute_hash63 sum key) in
      elim (get_elem? p.caches i) [
        | none ↦ none
        | some c ↦
            let (c', found, ms) = handle_get_cache_item (epoch_millis rt.cal now) key c in
            some (
              after i (record { cache = c'; stored = p.stored; metrics = ms ++ p.metrics }) p,
              found,
            )
      ]

-- MockLoader
pub record MockLoader (F : Type 0) : Type 0 where
  pub called : GoMap ℕ
  pub cache_items : List (CacheItem F)

unfoldable pub new_mock_loader : {F : Type 0} → MockLoader F
new_mock_loader = record { called = insert "Save()" 0 (insert "Load()" 0 []); cache_items = [] }

unfoldable pub mock_load : {F : Type 0} → MockLoader F → MockLoader F × Loaded F
mock_load ml = (record ml { called = count_call "Load()" ml.called }, Loaded.channel ml.cache_items)

unfoldable pub mock_save :
    {F : Type 0} → MockLoader F → List (CacheItem F) → MockLoader F × Option String
mock_save ml items = (
  record ml { called = count_call "Save()" ml.called; cache_items = ml.cache_items ++ items },
  none,
)

abbrev pub mock_loader : {F : Type 0} → Loader F (MockLoader F)
mock_loader = record { load = mock_load; save = mock_save }

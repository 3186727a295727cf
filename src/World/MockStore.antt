-- ===== src/World/MockStore.antt =====
-- MockStore of store.go: a store in memory, which counts its calls.
use gubernator.Prelude.GoMap.{GoMap, lookup, insert, delete, lookup-insert, lookup-delete}
use gubernator.Prelude.{ℕ, suc, String, [], Option, none, some, str_eq, ◌≡◌, refl, if◌then◌else◌}
use gubernator.Types.{CacheItem, RateLimitReq, hash_key}
use gubernator.World.{Store}

pub record MockStore (F : Type 0) : Type 0 where
  pub called : GoMap ℕ
  pub cache_items : GoMap (CacheItem F)

-- `Called[name] += 1`
unfoldable pub count_call : String → GoMap ℕ → GoMap ℕ
count_call name called =
    insert name (suc (elim (lookup name called) [ none ↦ 0 | some n ↦ n ])) called

module _ {F : Type 0} where
  unfoldable pub new_mock_store : MockStore F
  new_mock_store = record {
    called = insert "Get()" 0 (insert "Remove()" 0 (insert "OnChange()" 0 []));
    cache_items = [];
  }

  unfoldable pub mock_on_change : MockStore F → RateLimitReq → CacheItem F → MockStore F
  mock_on_change ms r item = record {
    called = count_call "OnChange()" ms.called;
    cache_items = insert item.key item ms.cache_items;
  }

  unfoldable pub mock_get : MockStore F → RateLimitReq → MockStore F × Option (CacheItem F)
  mock_get ms r =
      (record ms { called = count_call "Get()" ms.called }, lookup (hash_key r) ms.cache_items)

  unfoldable pub mock_remove : MockStore F → String → MockStore F
  mock_remove ms key = record {
    called = count_call "Remove()" ms.called;
    cache_items = delete key ms.cache_items;
  }

  abbrev pub mock_store : Store F (MockStore F)
  mock_store = record { get = mock_get; on_change = mock_on_change; remove = mock_remove }

  -- For any state of MockStore, Get after OnChange returns the item for a request with the item's
  -- key and what it returned before for any other, Get after Remove returns nothing for a request
  -- with the removed key and what it returned before for any other, and Get after Get returns what
  -- it returned before.
  pub mock_store_lem :
      (ms : MockStore F) (change r : RateLimitReq) (item : CacheItem F) (key : String)
      → ((mock_store.get (mock_store.on_change ms change item) r).1
          ≡ (if str_eq item.key (hash_key r) then some item else (mock_store.get ms r).1))
        × ((mock_store.get (mock_store.remove ms key) r).1
            ≡ (if str_eq key (hash_key r) then none else (mock_store.get ms r).1))
        × ((mock_store.get (mock_store.get ms change).0 r).1 ≡ (mock_store.get ms r).1)
  unfolding mock_get mock_on_change mock_remove
  mock_store_lem ms change r item key = (
    lookup-insert item.key (hash_key r) item ms.cache_items,
    lookup-delete key (hash_key r) ms.cache_items,
    refl,
  )
